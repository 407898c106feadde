-- ===== src/Config/Checked.antt =====
-- What a configuration that passed `validate` (config.rs) satisfies.
use android_smb_for_ksu.Common.{◌≤◌, ◌≡◌, true, false, List, [], ◌∷◌, some, arith, any, ◌==◌, ok}
use android_smb_for_ksu.Text.{Text, chars, is_one_of, byte_len, is_control}
use android_smb_for_ksu.Text.Lemmas.{str_eq_iff}
use android_smb_for_ksu.Config.Map
use android_smb_for_ksu.Config.Map.{Config}
use android_smb_for_ksu.Config.Validate.{
  bits, check_legacy, is_bad_value, check_values, check_booleans, boolean_keys, port_of,
  is_bad_username, check_names, name_keys, is_bad_path, check_protocols, protocol_keys,
  is_out_of_order, validate,
}

-- the checks of `validate`, each passed
pub record Passed (c : Config) : Type 0 where
  pub legacy : check_legacy c ≡ ok tt
  pub values : check_values c ≡ ok tt
  pub booleans : check_booleans c boolean_keys ≡ ok tt
  pub port : (port_of (Map.value c (chars "PORT")) == 0) ≡ false
  pub auth : is_one_of (chars "guest" ∷ chars "user" ∷ []) (Map.value c (chars "AUTH_MODE")) ≡ true
  pub user : is_bad_username (Map.value c (chars "SMB_USERNAME")) ≡ false
  pub names : check_names c name_keys ≡ ok tt
  pub path : is_bad_path (Map.value c (chars "SHARE_PATH")) ≡ false
  pub protocols : check_protocols c protocol_keys ≡ ok tt
  pub in_order :
      is_out_of_order (Map.value c (chars "MIN_PROTOCOL")) (Map.value c (chars "MAX_PROTOCOL"))
      ≡ false

pub validate-Passed : (c : Config) → validate c ≡ ok tt → Passed c
unfolding validate Map.index
validate-Passed c h = ground arith

abbrev pub IsOneByte : Text → Type 0
IsOneByte v = byte_len v ≤ 1

bits-one_byte : (v : Text) → is_one_of bits v ≡ true → byte_len v ≤ 1
unfolding is_one_of byte_len
bits-one_byte v h = ground (arith, str_eq_iff v (chars "0"), str_eq_iff v (chars "1"))

-- `check_values` looks at every entry, so at what `get` finds.
pub check_values-get :
    (c : Config) (k v : Text)
    → check_values c ≡ ok tt
    → Map.get k c ≡ some v
    → is_bad_value v ≡ false
unfolding check_values Map.get
check_values-get [] k v h g = cc
check_values-get ((j, w) ∷ c) k v h g = ground (arith, check_values-get c k v)

pub check_booleans-get :
    (c : Config) (ks : List Text) (k v : Text)
    → check_booleans c ks ≡ ok tt
    → is_one_of ks k ≡ true
    → Map.get k c ≡ some v
    → byte_len v ≤ 1
unfolding check_booleans is_one_of Map.index
check_booleans-get c [] k v h m g = cc
check_booleans-get c (j ∷ ks) k v h m g =
    ground (arith, check_booleans-get c ks k v, str_eq_iff k j, bits-one_byte v)

pub not-bad-value :
    (v : Text) → is_bad_value v ≡ false → (byte_len v ≤ 4096) × (any (λ x. is_control x) v ≡ false)
unfolding is_bad_value
not-bad-value v h = ground arith
