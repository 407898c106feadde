-- ===== src/Logs.antt =====
-- native/smbctl/src/logs.rs: the boot marker and the limits on archived logs.
pub mod Disk
pub mod Prepare
pub mod Bytes
pub mod Id
pub mod Marked
pub mod Archiving
pub mod Rotation
pub mod Crash
pub mod Tests
pub mod Prune
pub mod Refines
use android_smb_for_ksu.Common.{
  ℕ, ◌+◌, ◌-◌, ◌*◌, ◌%◌, ◌^◌, Bool, true, not, ◌&&◌, ◌||◌, List, [], ◌∷◌, ◌++◌, Option, none, some,
  leb, ◌==◌, if◌then◌else◌, is_empty, all, length, Result, Error, ok, err, ◌>>=◌, ◌>>◌, reject_if,
}
use android_smb_for_ksu.Text.{Text, chars, str_eq, str_lt, utf8, is_alphanumeric, starts_with, trim}

abbrev pub max_archives : ℕ
max_archives = 3

abbrev pub max_archive_bytes : ℕ
max_archive_bytes = 16 * 1024 * 1024

-- `bytes().all(|c| c.is_ascii_alphanumeric() || c == b'-')`
unfoldable pub is_id : Text → Bool
unfolding utf8
is_id s = all (λ c. is_alphanumeric c || c == b'-') (utf8 s)

-- `boot_id`, from what was read
unfoldable pub boot_id : Result Text → Result Text
unfolding trim is_id
boot_id text = do
  s ← text
  reject_if (is_empty (trim s) || not (is_id (trim s))) Error.invalid_boot_id
  ok (trim s)

-- `changed`, from what was read of log/.boot-id
unfoldable pub changed : Option Text → Text → Bool
unfolding trim str_eq
changed none boot = true
changed (some s) boot = not (str_eq (trim s) boot)

-- the label that `prepare` gives the archive of the previous boot
unfoldable pub label_of : Option Text → Text
unfolding trim is_id
label_of none = chars "legacy"
label_of (some s) = if not (is_empty (trim s)) && is_id (trim s) then trim s else chars "unknown"

-- an entry of the history directory: its name, whether it is a directory, and its size
pub record Entry : Type 0 where
  pub name : Text
  pub is_dir : Bool
  pub size : ℕ

unfoldable pub archives : List Entry → List Entry
unfolding starts_with
archives [] = []
archives (e ∷ es) =
    if starts_with e.name (chars "boot-") && e.is_dir then e ∷ archives es else archives es

-- `sort_by` the names
unfoldable pub insert_entry : Entry → List Entry → List Entry
unfolding str_lt
insert_entry e [] = e ∷ []
insert_entry e (d ∷ ds) = if str_lt d.name e.name then d ∷ insert_entry e ds else e ∷ d ∷ ds

unfoldable pub sort_entries : List Entry → List Entry
unfolding insert_entry
sort_entries [] = []
sort_entries (e ∷ es) = insert_entry e (sort_entries es)

-- `sum` of the sizes, of type `u64`: the release build wraps around
unfoldable pub total_size : List Entry → ℕ
total_size [] = 0
total_size (e ∷ es) = (e.size + total_size es) % 2 ^ 64

-- The loop of `prune`: what stays. `saturating_sub` is `-`; `count` is at least 1 in a round.
unfoldable pub prune_from : List Entry → ℕ → ℕ → List Entry
prune_from [] total count = []
prune_from (e ∷ es) total count =
    let rest = prune_from es (total - e.size) (count - 1) in
    if leb count max_archives && leb total max_archive_bytes then e ∷ es else rest

unfoldable pub prune : List Entry → List Entry
unfolding archives sort_entries total_size prune_from
prune history =
    let entries = sort_entries (archives history) in
    prune_from entries (total_size entries) (length entries)
