-- ===== src/Config/Atomic.antt =====
-- `atomic` of config.rs: a new file beside the target is written, synced and renamed over it. The
-- states that the disk passes through are kept, since a crash may leave any of them.
use android_smb_for_ksu.Common.{
  ℕ, ◌≡◌, Bool, true, not, ◌&&◌, List, [], ◌∷◌, Option, none, some, arith, All, ◌⊎◌, if◌then◌else◌,
  Result, Error, ok, err, take,
}
use android_smb_for_ksu.Text.{Text}

-- the target, and the file of the name `.smbctl-PID-NANOSECONDS` beside it
pub record Disk : Type 0 where
  pub target : Option Text
  pub tmp : Option Text

-- what the system answers: whether each step succeeds, and how much of the text is written before the
-- write succeeds or fails
pub record Answers : Type 0 where
  pub has_parent : Bool
  pub make_dir : Bool
  pub clock : Bool  -- the time since the epoch
  pub create : Bool  -- `create_new` fails if the name is taken
  pub written : ℕ
  pub write : Bool
  pub sync : Bool
  pub rename : Bool
  pub sync_dir : Bool
  pub remove : Bool

-- the result, and the states of the disk, the last one first
pub record Outcome : Type 0 where
  pub result : Result (Unit {0})
  pub disk : Disk
  pub before : List Disk

-- one more step: the state that it leaves, and the error if it fails
abbrev pub fail : Outcome → Outcome
fail o = record o { result = err Error.io }

abbrev pub go_to : Disk → Outcome → Outcome
go_to d o = record { result = ok tt; disk = d; before = o.disk ∷ o.before }

-- the closure `result`
unfoldable pub replace : Answers → Text → Disk → Outcome
replace a s d =
    let start : Outcome = record { result = ok tt; disk = d; before = [] } in
    let created = go_to (record d { tmp = some [] }) start in
    let partial = go_to (record d { tmp = some (take a.written s) }) created in
    let full = go_to (record d { tmp = some s }) partial in
    let renamed = go_to (record { target = some s; tmp = none }) full in
    if not a.create
    then fail start
    else if not a.write
    then fail partial
    else if not a.sync
    then fail full
    else if not a.rename
    then fail full
    else if not a.sync_dir
    then fail renamed
    else renamed

-- `if result.is_err() { let _ = fs::remove_file(&tmp) }`: after the rename there is no such file
abbrev pub clean_up : Answers → Outcome → Result (Unit {0}) → Outcome
clean_up a o (ok u) = o
clean_up a o (err e) =
    if a.remove
    then record { result = err e; disk = record o.disk { tmp = none }; before = o.disk ∷ o.before }
    else o

unfoldable pub atomic : Answers → Text → Disk → Outcome
unfolding replace
atomic a s d =
    let start : Outcome = record { result = ok tt; disk = d; before = [] } in
    if not (a.has_parent && (a.make_dir && a.clock))
    then fail start
    else (let o = replace a s d in clean_up a o o.result)

-- the answers with which the file is replaced
abbrev pub lands : Answers → Bool
lands a = a.has_parent && (a.make_dir && a.clock) && (a.create && (a.write && (a.sync && a.rename)))

-- At every moment of `atomic`, so after a crash too, the target holds all of what it held before or
-- all of the new text. If it succeeds, it holds the new text, which has been synced, and the other
-- file is gone; if it fails, it holds the old text unless only the last sync of the directory failed.
pub atomic_lem :
    (a : Answers) (s : Text) (d : Disk)
    → All
        (λ e. (e.target ≡ d.target) ⊎ (e.target ≡ some s))
        ((atomic a s d).disk ∷ (atomic a s d).before)
      × ((atomic a s d).disk.target ≡ (if lands a then some s else d.target))
      × ((atomic a s d).result ≡ (if lands a && a.sync_dir then ok tt else err Error.io))
      × (lands a ≡ true → (atomic a s d).disk.tmp ≡ none)
unfolding atomic replace
atomic_lem a s d = ground arith
