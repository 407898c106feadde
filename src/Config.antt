-- ===== src/Config.antt =====
-- native/smbctl/src/config.rs: the configuration map, its parser, its checks and its writer.
pub mod Map
pub mod Atomic
pub mod Validate
pub mod Checked
pub mod Written
pub mod Shape
pub mod Rendered
pub mod Limits
pub mod RoundTrip
pub mod Tests
use android_smb_for_ksu.Common.{
  ℕ, ◌≤◌, ◌≡◌, Bool, true, false, not, ◌&&◌, ◌||◌, List, [], ◌∷◌, ◌++◌, Option, none, some, map,
  ltb, if◌then◌else◌, is_empty, Result, Error, ok, err, ◌>>=◌, ◌>>◌, reject_if, ok_or,
}
use android_smb_for_ksu.Text.{
  Text, chars, str_eq, byte_len, starts_with_char, split_once, trim, trim_start, trim_end_matches,
  lines,
}
use android_smb_for_ksu.Common.{◌==◌}
use android_smb_for_ksu.Config.Map
use android_smb_for_ksu.Config.Map.{Config}
use android_smb_for_ksu.Config.Validate.{validate}

abbrev pub defaults : List (Text × Text)
defaults =
    (chars "AUTO_START", chars "0")
    ∷ (chars "ENABLED", chars "0")
    ∷ (chars "SHARE_PATH", chars "/sdcard/SpeedBackup")
    ∷ (chars "SHARE_NAME", chars "SpeedBackup")
    ∷ (chars "READ_ONLY", chars "0")
    ∷ (chars "MIN_PROTOCOL", chars "SMB2_02")
    ∷ (chars "MAX_PROTOCOL", chars "SMB3")
    ∷ (chars "BIND_INTERFACES", chars "1")
    ∷ (chars "INTERFACES_AUTO", chars "1")
    ∷ (chars "EXTRA_INTERFACES", [])
    ∷ (chars "PORT", chars "445")
    ∷ (chars "NETBIOS_NAME", chars "ANDROIDSMB")
    ∷ (chars "WORKGROUP", chars "WORKGROUP")
    ∷ (chars "AUTH_MODE", chars "guest")
    ∷ (chars "SMB_USERNAME", chars "speedbackup")
    ∷ []

-- `DEFAULTS.iter().map(…).collect()`
unfoldable pub default_config : Config
default_config = Map.insert_all defaults Map.empty

-- a line that the loop of `parse` skips
unfoldable pub is_skipped : Text → Bool
is_skipped line = is_empty (trim line) || starts_with_char (trim_start line) b'#'

-- what the loop does with `k=v`
unfoldable pub set_known : Config → Text → Text → Result Config
set_known c k v = do
  reject_if (not (Map.contains_key c k) && not (str_eq k (chars "MT_COMPAT_MODE")))
      (Error.unknown_key k)
  ok (Map.insert k v c)

-- one round of the loop of `parse`
unfoldable pub parse_line : Config → Text → Result Config
parse_line c raw =
    let line = trim_end_matches raw (λ x. x == b'\r') in
    if is_skipped line
    then ok c
    else do kv ← ok_or (split_once line b'=') Error.invalid_line; set_known c kv.0 kv.1

unfoldable pub parse_lines : Config → List Text → Result Config
parse_lines c [] = ok c
parse_lines c (l ∷ ls) = do c' ← parse_line c l; parse_lines c' ls

unfoldable pub parse : Text → Result Config
parse s = do
  reject_if (ltb 65536 (byte_len s)) Error.config_too_long
  c ← parse_lines default_config (lines s)
  validate c
  ok c

-- The loop of `update`; the map that it leaves behind is returned beside the error, since
-- `c: &mut Config` keeps the entries that were set before it.
unfoldable pub set_all : Config → List Text → Result (Unit {0}) × Config
set_all c [] = (ok tt, c)
set_all c (arg ∷ args) = elim (split_once arg b'=') [
  | none ↦ (err Error.expected_key_value, c)
  | some (k, v) ↦ elim (Map.contains_key c k) [
    | false ↦ (err (Error.unknown_key k), c)
    | true ↦ set_all (Map.insert k v c) args
  ]
]

unfoldable pub update : Config → List Text → Result (Unit {0}) × Config
update c args = let (r, c') = set_all c args in ((do r; validate c'), c')

-- `format!("{k}={v}\n")`
abbrev pub config_line : Text → Text → Text
config_line k v = k ++ b'=' ∷ v ++ b'\n' ∷ []

unfoldable pub render_keys : Config → List (Text × Text) → Result Text
render_keys c [] = ok []
render_keys c ((k, d) ∷ rest) = do
  v ← Map.index c k
  s ← render_keys c rest
  ok (config_line k v ++ s)

-- `if let Some(v) = c.get("MT_COMPAT_MODE")`
abbrev pub legacy_line : Option Text → Text
legacy_line none = []
legacy_line (some v) = config_line (chars "MT_COMPAT_MODE") v

-- the text that `save` writes, once `validate` has passed
unfoldable pub render : Config → Result Text
render c = do
  validate c
  s ← render_keys c defaults
  ok (s ++ legacy_line (Map.get (chars "MT_COMPAT_MODE") c))

-- `load`, from what `fs::read_to_string` returns: `none` for a file that is not there
unfoldable pub load : Result (Option Text) → Result Config
load (ok (some s)) = parse s
load (ok none) = parse []
load (err e) = err e
