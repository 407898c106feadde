-- ===== src/Logs/Prepare.antt =====
-- `prepare` of logs.rs, one action of the disk after the other.
use android_smb_for_ksu.Common.{
  ℕ, zero, suc, ◌-◌, Bool, true, false, not, ◌&&◌, ◌||◌, List, [], ◌∷◌, ◌++◌, Option, none, some,
  leb, length, is_empty, is_some, if◌then◌else◌, Result, Error, ok, err,
}
use android_smb_for_ksu.Text.{Text, chars, str_eq, starts_with}
use android_smb_for_ksu.Storage.Decimal.{show_from}
use android_smb_for_ksu.Logs.{
  Entry, max_archives, max_archive_bytes, changed, label_of, archives, sort_entries, total_size,
}
use android_smb_for_ksu.Logs.Disk.{
  Dir, Place, absent, not_dir, dir, Archive, Disk, Act, pure, lift, gets, ◌>>=◌, ◌>>◌, change,
  check,
}

-- what the system answers; each call is made once, but for those on an archive
pub record Sys : Type 0 where
  pub earlier : List Text  -- the boots before this one; no call answers it
  pub reads_marker : Bool  -- in `changed`
  pub make_history : Bool
  pub protect_history : Bool
  pub now : Result ℕ  -- nanoseconds since the epoch
  pub rereads_marker : Bool  -- for the label
  pub list_log : Bool
  pub rename_log : Bool
  pub rename_stamp : Bool
  pub make_log : Bool
  pub protect_log : Bool
  pub open_log : Bool
  pub write_log : Bool  -- `writeln!` and `sync_all`
  pub list_history : Bool
  pub size : Archive → Result ℕ  -- `bytes`, for the entry's type and size
  pub remove : Text → Bool  -- `remove_dir_all`
  pub mark : Bool  -- `config::atomic`
  pub mark_lands : Bool  -- whether a failure of it has replaced the file all the same

-- `read_to_string` of log/.boot-id
abbrev pub marker_of : Place Dir → Option Text
marker_of (dir x) = x.marker
marker_of p = none

abbrev pub read_marker : Bool → Disk → Option Text
read_marker reads d = if reads then marker_of d.log else none

abbrev pub is_real {ℓ} : {A : Type ℓ} → Place A → Bool
is_real not_dir = false
is_real p = true

-- `{now:030}`
abbrev pub pad : ℕ → Text → Text
pad zero s = s
pad (suc n) s = b'0' ∷ pad n s

unfoldable pub archive_name : ℕ → Text → Text
unfolding show_from
archive_name now label =
    let digits = show_from 39 now in
    chars "boot-" ++ (pad (30 - length digits) digits ++ (b'-' ∷ label))

-- whether the directory has an entry
abbrev pub has_entry : Dir → Bool
has_entry x = is_some x.marker || not (is_empty x.files)

abbrev pub archives_of : Place (List Archive) → List Archive
archives_of (dir olds) = olds
archives_of p = []

-- `create_dir_all(&history)`
abbrev pub with_history : Disk → Disk
with_history d = record d { history = dir (archives_of d.history) }

-- `rename(&log, &archive)`
abbrev pub archived : Text → Text → Dir → Disk → Disk
archived name label x d = record d {
  log = absent;
  history =
      dir
        (record { name = name; label = label; stamp = false; content = x } ∷ archives_of d.history);
}

-- the stamp goes into the newest archive
abbrev pub stamp_first : List Archive → List Archive
stamp_first [] = []
stamp_first (a ∷ olds) = record a { stamp = true } ∷ olds

abbrev pub move_stamp : Disk → Disk
move_stamp d = record d { history = dir (stamp_first (archives_of d.history)); stamp = false }

-- `create_dir_all(&log)`
abbrev pub made : Place Dir → Dir
made (dir x) = x
made p = record { marker = none; files = [] }

abbrev pub with_log : Disk → Disk
with_log d = record d { log = dir (made d.log) }

-- module.log is created, or there already; `boots` are the boots up to the one that writes it
abbrev pub add_file : Text → List Text → Disk → Disk
add_file name boots d =
    let x = made d.log in
    record d { log = dir (record x { files = record { name = name; boots = boots } ∷ x.files }) }

abbrev pub set_marker : Text → Disk → Disk
set_marker boot d = record d {
  log = dir (record (made d.log) { marker = some (boot ++ b'\n' ∷ []) });
}

-- `remove_dir_all` of an archive
abbrev pub without : Text → List Archive → List Archive
without name [] = []
without name (a ∷ olds) = if str_eq a.name name then without name olds else a ∷ without name olds

abbrev pub drop_archive : Text → Disk → Disk
drop_archive name d = record d { history = dir (without name (archives_of d.history)) }

module _ (sys : Sys) where
  -- `if stamp.exists() { rename(stamp, …)? }`
  abbrev pub archive_stamp : Disk → Act (Unit {0})
  archive_stamp d = if d.stamp then change sys.rename_stamp move_stamp else pure tt

  abbrev pub archive_dir : ℕ → Text → Dir → Act (Unit {0})
  archive_dir now label x =
      change sys.rename_log (archived (archive_name now label) label x)
      >> (gets (λ d. d) >>= archive_stamp)

  -- `if log.is_dir() && read_dir(&log)?.next().is_some()`
  abbrev pub archive_place : ℕ → Text → Place Dir → Act (Unit {0})
  archive_place now label (dir x) =
      check sys.list_log Error.io >> (if has_entry x then archive_dir now label x else pure tt)
  archive_place now label p = pure tt

  unfoldable pub archive_log : ℕ → Text → Act (Unit {0})
  archive_log now label = gets (λ d. d.log) >>= archive_place now label

  -- the new log directory with its first line
  unfoldable pub begin_log : Text → Act (Unit {0})
  begin_log boot = do
    change sys.make_log with_log
    check sys.protect_log Error.io
    change sys.open_log (add_file (chars "module.log") (boot ∷ sys.earlier))
    check sys.write_log Error.io

  -- the loop of `prune` over the sorted archives; a removal that fails ends it
  unfoldable pub prune_loop : List Entry → ℕ → ℕ → Act (Unit {0})
  prune_loop [] total count = pure tt
  prune_loop (e ∷ es) total count = elim (leb count max_archives && leb total max_archive_bytes) [
    | true ↦ pure tt
    | false ↦
        change (sys.remove e.name) (drop_archive e.name)
        >> prune_loop es (total - e.size) (count - 1)
  ]

  -- the entries of the history that are named like an archive, with their sizes; they are directories
  unfoldable pub entries : List Archive → Result (List Entry)
  entries [] = ok []
  entries (a ∷ olds) = elim (starts_with a.name (chars "boot-")) [
    | false ↦ entries olds
    | true ↦ elim (sys.size a) [
      | err e ↦ err e
      | ok n ↦ elim (entries olds) [
        | err e ↦ err e
        | ok es ↦ ok (record { name = a.name; is_dir = true; size = n } ∷ es)
      ]
    ]
  ]

  abbrev pub prune_sorted : List Entry → Act (Unit {0})
  prune_sorted es = prune_loop es (total_size es) (length es)

  unfoldable pub prune : Act (Unit {0})
  prune = do
    check sys.list_history Error.io
    olds ← gets (λ d. archives_of d.history)
    es ← lift (entries olds)
    prune_sorted (sort_entries (archives es))

  -- the new marker, written last
  unfoldable pub mark : Text → Act (Unit {0})
  mark boot d =
      if sys.mark
      then change true (set_marker boot) d
      else if sys.mark_lands
      then record { result = err Error.io; disk = set_marker boot d; before = d ∷ [] }
      else record { result = err Error.io; disk = d; before = [] }

  -- `prepare` once `changed` has said that the log belongs to another boot
  unfoldable pub rotate : Text → Disk → Act Bool
  rotate boot d = do
    check (is_real d.log && is_real d.history) Error.log_not_directory
    change sys.make_history with_history
    check sys.protect_history Error.io
    now ← lift sys.now
    archive_log now (label_of (read_marker sys.rereads_marker d))
    begin_log boot
    prune
    mark boot
    pure true

  unfoldable pub prepare : Text → Act Bool
  prepare boot = do
    d ← gets (λ d. d)
    if changed (read_marker sys.reads_marker d) boot then rotate boot d else pure false
