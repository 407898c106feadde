-- ===== src/Config/Validate.antt =====
-- `validate` of config.rs, one function for each group of its checks.
use android_smb_for_ksu.Common.{
  ℕ, Bool, not, ◌&&◌, ◌||◌, List, [], ◌∷◌, none, some, ltb, ◌==◌, if◌then◌else◌, is_empty, any, all,
  unwrap_or, Result, Error, ok, ◌>>=◌, ◌>>◌, reject_if,
}
use android_smb_for_ksu.Text.{
  Text, chars, str_eq, is_one_of, byte_len, utf8, is_control, is_alphanumeric, starts_with_char,
  contains_char, split, parse_unsigned,
}
use android_smb_for_ksu.Config.Map
use android_smb_for_ksu.Config.Map.{Config}

abbrev pub bits : List Text
bits = chars "0" ∷ chars "1" ∷ []

-- `MT_COMPAT_MODE`, if it is there
unfoldable pub check_legacy : Config → Result (Unit {0})
check_legacy c = elim (Map.get (chars "MT_COMPAT_MODE") c) [
  | none ↦ ok tt
  | some v ↦ reject_if (not (is_one_of bits v)) (Error.invalid_boolean (chars "MT_COMPAT_MODE"))
]

-- the loop over every entry
unfoldable pub is_bad_value : Text → Bool
is_bad_value v = ltb 4096 (byte_len v) || any (λ x. is_control x) v

unfoldable pub check_values : Config → Result (Unit {0})
check_values [] = ok tt
check_values ((k, v) ∷ c) = do reject_if (is_bad_value v) (Error.invalid_value k); check_values c

unfoldable pub check_booleans : Config → List Text → Result (Unit {0})
check_booleans c [] = ok tt
check_booleans c (k ∷ ks) = do
  v ← Map.index c k
  reject_if (not (is_one_of bits v)) (Error.invalid_boolean k)
  check_booleans c ks

abbrev pub boolean_keys : List Text
boolean_keys =
    chars "AUTO_START"
    ∷ chars "ENABLED"
    ∷ chars "READ_ONLY"
    ∷ chars "BIND_INTERFACES"
    ∷ chars "INTERFACES_AUTO"
    ∷ []

-- `c["PORT"].parse::<u16>().unwrap_or(0)`
unfoldable pub port_of : Text → ℕ
port_of s = unwrap_or (parse_unsigned 65535 s) 0

abbrev pub is_username_byte : ℕ → Bool
is_username_byte b = is_alphanumeric b || b == b'.' || b == b'_' || b == b'-'

unfoldable pub is_bad_username : Text → Bool
is_bad_username u =
    is_empty u || ltb 32 (byte_len u) || not (all (λ b. is_username_byte b) (utf8 u))

-- the characters that a share, host or workgroup name may not hold
abbrev pub name_stops : Text
name_stops = chars "[]/\\:*?\"<>|%"

unfoldable pub is_bad_name : Text → Bool
is_bad_name v = is_empty v || ltb 128 (byte_len v) || any (λ x. contains_char name_stops x) v

unfoldable pub check_names : Config → List Text → Result (Unit {0})
check_names c [] = ok tt
check_names c (k ∷ ks) = do
  v ← Map.index c k
  reject_if (is_bad_name v) (Error.invalid_name k)
  check_names c ks

abbrev pub name_keys : List Text
name_keys = chars "SHARE_NAME" ∷ chars "NETBIOS_NAME" ∷ chars "WORKGROUP" ∷ []

-- `Path::components` yields `ParentDir` for each part between slashes that is `..`
unfoldable pub has_parent_dir : Text → Bool
has_parent_dir path = any (λ part. str_eq part (chars "..")) (split path b'/')

unfoldable pub is_bad_path : Text → Bool
is_bad_path path =
    not (starts_with_char path b'/') || contains_char path b'%' || has_parent_dir path

abbrev pub protocols : List Text
protocols =
    chars "NT1"
    ∷ chars "SMB2"
    ∷ chars "SMB2_02"
    ∷ chars "SMB2_10"
    ∷ chars "SMB3"
    ∷ chars "SMB3_00"
    ∷ chars "SMB3_02"
    ∷ chars "SMB3_10"
    ∷ chars "SMB3_11"
    ∷ []

unfoldable pub check_protocols : Config → List Text → Result (Unit {0})
check_protocols c [] = ok tt
check_protocols c (k ∷ ks) = do
  v ← Map.index c k
  reject_if (not (is_one_of protocols v)) Error.invalid_protocol
  check_protocols c ks

abbrev pub protocol_keys : List Text
protocol_keys = chars "MIN_PROTOCOL" ∷ chars "MAX_PROTOCOL" ∷ []

unfoldable pub rank : Text → ℕ
rank s =
    if str_eq s (chars "NT1")
    then 0
    else if is_one_of (chars "SMB2" ∷ chars "SMB2_02" ∷ []) s
    then 1
    else if str_eq s (chars "SMB2_10")
    then 2
    else if str_eq s (chars "SMB3_00")
    then 3
    else if str_eq s (chars "SMB3_02")
    then 4
    else if str_eq s (chars "SMB3_10")
    then 5
    else 6

-- a name without a minor version
abbrev pub families : List Text
families = chars "SMB2" ∷ chars "SMB3" ∷ []

unfoldable pub is_out_of_order : Text → Text → Bool
is_out_of_order lo hi =
    not (is_one_of families lo) && not (is_one_of families hi) && ltb (rank hi) (rank lo)

unfoldable pub validate : Config → Result (Unit {0})
validate c = do
  check_legacy c
  check_values c
  check_booleans c boolean_keys
  port ← Map.index c (chars "PORT")
  reject_if (port_of port == 0) Error.invalid_port
  auth ← Map.index c (chars "AUTH_MODE")
  reject_if (not (is_one_of (chars "guest" ∷ chars "user" ∷ []) auth)) Error.invalid_auth_mode
  user ← Map.index c (chars "SMB_USERNAME")
  reject_if (is_bad_username user) Error.invalid_username
  check_names c name_keys
  path ← Map.index c (chars "SHARE_PATH")
  reject_if (is_bad_path path) Error.invalid_share_path
  check_protocols c protocol_keys
  lo ← Map.index c (chars "MIN_PROTOCOL")
  hi ← Map.index c (chars "MAX_PROTOCOL")
  reject_if (is_out_of_order lo hi) Error.protocol_order
