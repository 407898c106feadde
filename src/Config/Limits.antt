-- ===== src/Config/Limits.antt =====
-- The entries that `save` writes (config.rs) are within the limits of `parse`.
use android_smb_for_ksu.Common.{
  ℕ, ◌+◌, ◌≤◌, ◌≡◌, refl, true, List, [], ◌∷◌, ◌++◌, Option, none, some, arith, all, All,
  if◌then◌else◌, Bool-cases, inl, inr, and_left, and_right,
}
use android_smb_for_ksu.Text.{Text, str_eq, is_one_of, byte_len}
use android_smb_for_ksu.Text.Lemmas.{byte_len-append, str_eq_iff}
use android_smb_for_ksu.Config.Map
use android_smb_for_ksu.Config.Map.{Config}
use android_smb_for_ksu.Config.Validate.{boolean_keys}
use android_smb_for_ksu.Config.Checked.{Passed, check_values-get, check_booleans-get, not-bad-value}
use android_smb_for_ksu.Config.Written.{write, is_plain_key, is_known, legacy_key, IsWritable}
use android_smb_for_ksu.Config.{defaults, default_config, config_line}
use android_smb_for_ksu.Config.Rendered.{IsEntryOf, legacy_entry}

-- A key reads, behind the inserted entries, as it does in the map that they come from.
pub get-insert_all :
    (c d : Config) (kvs : List (Text × Text)) (j : Text)
    → All (IsEntryOf c) kvs
    → Map.get j (Map.insert_all kvs d)
      ≡ (if is_one_of (Map.keys kvs) j then Map.get j c else Map.get j d)
unfolding Map.insert_all is_one_of IsEntryOf
get-insert_all c d [] j h = refl
get-insert_all c d ((k, v) ∷ kvs) j h = ground (
  arith,
  get-insert_all c (Map.insert k v d) kvs j h.1,
  Map.get-insert k j v d,
  str_eq_iff j k,
  str_eq_iff k j,
)

-- a bound on the bytes of the value at a key, which `validate` enforces
abbrev cap : Text → ℕ
cap k = if is_one_of boolean_keys k then 1 else 4096

pub sum_caps : List Text → ℕ
sum_caps [] = 0
sum_caps (k ∷ ks) = byte_len k + cap k + 2 + sum_caps ks

value-cap : (c : Config) (k v : Text) → Passed c → Map.get k c ≡ some v → byte_len v ≤ cap k
value-cap c k v p g =
    let short = (not-bad-value v (check_values-get c k v p.values g)).0 in
    elim (Bool-cases (is_one_of boolean_keys k)) [
      | inl bit ↦ rw bit (check_booleans-get c boolean_keys k v p.booleans bit g)
      | inr other ↦ rw other short
    ]

byte_len-config_line : (k v : Text) → byte_len (config_line k v) ≡ byte_len k + byte_len v + 2
unfolding byte_len
byte_len-config_line k v =
    omega (arith, byte_len-append (k ++ b'=' ∷ v) (b'\n' ∷ []), byte_len-append k (b'=' ∷ v))

pub byte_len-write :
    (c : Config) (kvs : List (Text × Text))
    → Passed c
    → All (IsEntryOf c) kvs
    → byte_len (write kvs) ≤ sum_caps (Map.keys kvs)
unfolding sum_caps byte_len IsEntryOf
byte_len-write c [] p h = omega arith
byte_len-write c ((k, v) ∷ kvs) p h = omega (
  arith,
  byte_len-append (config_line k v) (write kvs),
  byte_len-config_line k v,
  value-cap c k v p h.0,
  byte_len-write c kvs p h.1,
)

sum_caps-fits :
    (sum_caps (Map.keys defaults) ≤ 65536)
    × (sum_caps (Map.keys defaults ++ legacy_key ∷ []) ≤ 65536)
unfolding sum_caps byte_len is_one_of str_eq
sum_caps-fits = (omega arith, omega arith)

pub entries-IsWritable :
    (c : Config) (kvs : List (Text × Text))
    → Passed c
    → All (IsEntryOf c) kvs
    → all (λ k. is_plain_key k) (Map.keys kvs) ≡ true
    → All IsWritable kvs
unfolding IsEntryOf
entries-IsWritable c [] p h k = tt
entries-IsWritable c ((j, v) ∷ kvs) p h k =
    let fine = (not-bad-value v (check_values-get c j v p.values h.0)).1 in
    ((and_left _ _ k, rw fine), entries-IsWritable c kvs p h.1 (and_right _ _ k))

plain_keys :
    (all (λ k. is_plain_key k) (Map.keys defaults) ≡ true)
    × (all (λ k. is_plain_key k) (Map.keys defaults ++ legacy_key ∷ []) ≡ true)
unfolding is_plain_key
plain_keys = (refl, refl)

known_keys :
    (all (λ j. is_known default_config j) (Map.keys defaults) ≡ true)
    × (all (λ j. is_known default_config j) (Map.keys defaults ++ legacy_key ∷ []) ≡ true)
unfolding default_config Map.insert_all Map.contains_key
known_keys = (refl, refl)

-- What the keys alone decide: the file's keys are plain and known, and fit in 64 KiB.
pub record KeysFit (ks : List Text) : Type 0 where
  pub plain : all (λ k. is_plain_key k) ks ≡ true
  pub known : all (λ j. is_known default_config j) ks ≡ true
  pub fits : sum_caps ks ≤ 65536

pub legacy-KeysFit : (o : Option Text) → KeysFit (Map.keys defaults ++ Map.keys (legacy_entry o))
legacy-KeysFit none = record { plain = plain_keys.0; known = known_keys.0; fits = sum_caps-fits.0 }
legacy-KeysFit (some v) = record {
  plain = plain_keys.1;
  known = known_keys.1;
  fits = sum_caps-fits.1;
}
