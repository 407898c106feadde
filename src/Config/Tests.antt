-- ===== src/Config/Tests.antt =====
-- Runs of the configuration code.
use android_smb_for_ksu.Common.{
  ◌≡◌, refl, List, [], ◌∷◌, ok, err, inl, ◌⊎◌, All, true, false, none, some, Error,
}
use android_smb_for_ksu.Text.{
  Text, chars, utf8, str_eq, str_lt, is_one_of, byte_len, starts_with, split_once, split,
  trim_end_matches, trim_start, trim, strip_cr, lines_from, lines, parse_digits, parse_unsigned,
}
use android_smb_for_ksu.Config.{
  default_config, is_skipped, set_known, parse_line, parse_lines, parse, render_keys, render,
}
use android_smb_for_ksu.Config.Map
use android_smb_for_ksu.Config.Map.{Config}
use android_smb_for_ksu.Config.Validate.{
  check_legacy, is_bad_value, check_values, check_booleans, port_of, is_bad_username, is_bad_name,
  check_names, has_parent_dir, is_bad_path, check_protocols, rank, is_out_of_order, validate,
}
use android_smb_for_ksu.Config.Atomic.{Answers, Disk, atomic, lands, atomic_lem}
use android_smb_for_ksu.Config.Shape.{HasKeys, parse-HasKeys}
use android_smb_for_ksu.Config.RoundTrip.{parse-render}

-- the settings of the default file
abbrev pub plain_config : Config
plain_config =
    (chars "AUTH_MODE", chars "guest")
    ∷ (chars "AUTO_START", chars "0")
    ∷ (chars "BIND_INTERFACES", chars "1")
    ∷ (chars "ENABLED", chars "0")
    ∷ (chars "EXTRA_INTERFACES", [])
    ∷ (chars "INTERFACES_AUTO", chars "1")
    ∷ (chars "MAX_PROTOCOL", chars "SMB3")
    ∷ (chars "MIN_PROTOCOL", chars "SMB2_02")
    ∷ (chars "NETBIOS_NAME", chars "ANDROIDSMB")
    ∷ (chars "PORT", chars "8445")
    ∷ (chars "READ_ONLY", chars "1")
    ∷ (chars "SHARE_NAME", chars "SpeedBackup")
    ∷ (chars "SHARE_PATH", chars "/sdcard/SpeedBackup")
    ∷ (chars "SMB_USERNAME", chars "speedbackup")
    ∷ (chars "WORKGROUP", chars "WORKGROUP")
    ∷ []

abbrev pub plain_text : Text
plain_text =
    chars
      "AUTO_START=0\nENABLED=0\nSHARE_PATH=/sdcard/SpeedBackup\nSHARE_NAME=SpeedBackup\nREAD_ONLY=1\nMIN_PROTOCOL=SMB2_02\nMAX_PROTOCOL=SMB3\nBIND_INTERFACES=1\nINTERFACES_AUTO=1\nEXTRA_INTERFACES=\nPORT=8445\nNETBIOS_NAME=ANDROIDSMB\nWORKGROUP=WORKGROUP\nAUTH_MODE=guest\nSMB_USERNAME=speedbackup\n"

abbrev pub plain_args : List Text
plain_args = chars "PORT=8445" ∷ chars "READ_ONLY=1" ∷ []

-- a text with CR LF, a comment and two settings
abbrev short_text : Text
short_text = chars "PORT=8445\r\n# a comment\nREAD_ONLY=1"

pub plain_config-runs : (render plain_config ≡ ok plain_text) × (parse short_text ≡ ok plain_config)
unfolding utf8 str_eq str_lt is_one_of byte_len starts_with split_once split trim_end_matches
    trim_start trim strip_cr lines_from lines parse_digits parse_unsigned check_legacy is_bad_value
    check_values check_booleans port_of is_bad_username is_bad_name check_names has_parent_dir
    is_bad_path check_protocols rank is_out_of_order validate default_config is_skipped set_known
    parse_line parse_lines parse render_keys render Map.get Map.contains_key Map.insert
    Map.insert_all Map.index
plain_config-runs = (refl, refl)

parse-render_example : parse plain_text ≡ ok plain_config
parse-render_example = parse-render plain_config plain_text (inl refl) plain_config-runs.0

parse-HasKeys_example : HasKeys plain_config × (validate plain_config ≡ ok tt)
parse-HasKeys_example = parse-HasKeys short_text plain_config-runs.1

-- the last sync of the directory fails, and the target is replaced all the same
abbrev half_synced : Answers
half_synced = record {
  has_parent = true;
  make_dir = true;
  clock = true;
  create = true;
  written = 1;
  write = true;
  sync = true;
  rename = true;
  sync_dir = false;
  remove = false;
}

abbrev old_disk : Disk
old_disk = record { target = some (chars "ENABLED=0"); tmp = none }

atomic_lem_example :
    All
      (λ e. (e.target ≡ old_disk.target) ⊎ (e.target ≡ some (chars "ENABLED=1")))
      ((atomic half_synced (chars "ENABLED=1") old_disk).disk
        ∷ (atomic half_synced (chars "ENABLED=1") old_disk).before)
    × ((atomic half_synced (chars "ENABLED=1") old_disk).disk.target ≡ some (chars "ENABLED=1"))
    × ((atomic half_synced (chars "ENABLED=1") old_disk).result ≡ err Error.io)
    × (lands half_synced ≡ true → (atomic half_synced (chars "ENABLED=1") old_disk).disk.tmp ≡ none)
atomic_lem_example = atomic_lem half_synced (chars "ENABLED=1") old_disk
