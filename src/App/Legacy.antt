-- ===== src/App/Legacy.antt =====
-- `retire_legacy` of native/smbctl/src/main.rs: the end of the watcher of an old version of the module.
pub mod Ended
pub mod Tests
use android_smb_for_ksu.Common.{
  ℕ, ◌+◌, ◌≡◌, refl, sym, ap, ◌∙◌, inl, inr, arith, ℤ, pos, Bool, true, false, not, ◌&&◌, ◌||◌,
  ◌==◌, ◌++◌, is_empty, List, [], ◌∷◌, Option, none, some, if◌then◌else◌, All, All-map, get_elem?,
  suc, Result, ok, err, Bool-cases, Option-cases, Result-cases, and_left, and_right, int_eq,
  int_eq-≡, int_leb, unwrap_or,
}
use mathlib.Core.Bool.{false≢true}
use android_smb_for_ksu.Text.{Text, chars}
use android_smb_for_ksu.Os.Processes.{Proc, Process, processes, is_text}
use android_smb_for_ksu.Os.Owner.{IsKernel, IsOwned, processes-IsOwned, is_text-≡}
use android_smb_for_ksu.Watch.Stop.{recorded, has_argument, keep_ok, keep_ok-All}

-- what is done: the processes of each call of `terminate`, and whether the directory is removed
pub record Retired : Type 0 where
  pub result : Result (Unit {0})
  pub ended : List (List Process)
  pub removed : Bool

-- the reads for one record of the directory network_watch.lock
pub record Old : Type 0 where
  pub file : Option Text
  pub argument : Text
  pub first : ℕ  -- the time of the first reads
  pub second : ℕ  -- the time at which the command line is read again

module _ (proc : Proc) where
  unfoldable pub is_recorded : ℤ → List ℕ → ℕ → Process → Bool
  is_recorded pid cmd u p = int_eq p.pid pid && is_text (proc.cmdline pid u) cmd

  -- one record of the old module: what is handed to `terminate`, or `none` for `continue`
  abbrev pub some_ok : Result (List Process) → Result (Option (List Process))
  some_ok (err e) = err e
  some_ok (ok ps) = ok (some ps)

  unfoldable pub legacy_targets : Old → Result (Option (List Process))
  unfolding is_recorded
  legacy_targets old =
      let pid = recorded old.file in
      let cmd = unwrap_or (proc.cmdline pid old.first) [] in
      if int_leb pid (pos 1)
      then ok none
      else if not (has_argument cmd old.argument)
      then ok none
      else elim (proc.exe pid (old.first + 1)) [
        | none ↦ ok none
        | some exe ↦
            some_ok
              (keep_ok (is_recorded pid cmd old.second) (processes proc (exe ∷ []) (old.first + 2)))
      ]

module _ (proc : Proc) (terminate : List Process → Result (Unit {0})) where
  abbrev pub after : List Process → Result (Unit {0}) → Retired → Retired
  after ps (err e) rest = record { result = err e; ended = ps ∷ []; removed = false }
  after ps (ok u) rest = record rest { ended = ps ∷ rest.ended }

  abbrev pub end : Result (Option (List Process)) → Retired → Retired
  end (err e) rest = record { result = err e; ended = []; removed = false }
  end (ok none) rest = rest
  end (ok (some ps)) rest = after ps (terminate ps) rest

  -- `remove_dir_all` of the directory, if it is there
  abbrev pub remove : Bool → Result (Unit {0}) → Retired
  remove false r = record { result = ok tt; ended = []; removed = false }
  remove true (ok u) = record { result = ok tt; ended = []; removed = true }
  remove true (err e) = record { result = err e; ended = []; removed = false }

  unfoldable pub retire : List Old → Bool → Result (Unit {0}) → Retired
  retire [] there r = remove there r
  retire (old ∷ olds) there r = end (legacy_targets proc old) (retire olds there r)

-- `Path::join` with a relative path
abbrev pub join : Text → Text → Text
join base name = if is_empty base || ends_slash base then base ++ name else base ++ b'/' ∷ name
  where
    ends_slash : Text → Bool
    ends_slash [] = false
    ends_slash (c ∷ []) = c == b'/'
    ends_slash (c ∷ d ∷ s) = ends_slash (d ∷ s)

-- the two records, and the arguments by which the old watcher is known
abbrev pub records : Text → Old → Old → List Old
records old_module netwatch shell =
    record netwatch { argument = join old_module (chars "bin/netwatch") }
    ∷ record shell { argument = join old_module (chars "network_watch.sh") }
    ∷ []

unfoldable pub retire_legacy :
    Proc
    → (List Process → Result (Unit {0}))
    → Text
    → Old
    → Old
    → Bool
    → Result (Unit {0})
    → Retired
unfolding retire
retire_legacy proc terminate old_module netwatch shell there r =
    retire proc terminate (records old_module netwatch shell) there r
