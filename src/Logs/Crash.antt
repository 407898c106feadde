-- ===== src/Logs/Crash.antt =====
-- What the log directories hold after any number of boots, crashes of `prepare` (logs.rs) included.
use android_smb_for_ksu.Common.{
  none, get_elem?, All-get_elem?, List, or_true, ℕ, ◌≡◌, refl, sym, subst, Bool, true, false, [],
  ◌∷◌, Option, some, Result, ok, err,
}
use android_smb_for_ksu.Text.{Text, str_eq, is_one_of, trim}
use android_smb_for_ksu.Text.Lemmas.{str_eq_refl}
use android_smb_for_ksu.Logs.{changed, is_id}
use android_smb_for_ksu.Logs.Disk.{File, Dir, Place, absent, not_dir, dir, Disk, ◌>>=◌, Ends}
use android_smb_for_ksu.Logs.Prepare.{Sys, made, add_file, prepare}
use android_smb_for_ksu.Logs.Marked.{HasMarker, IsMarkedLog, IsMarked, HasBoot}
use android_smb_for_ksu.Logs.Rotation.{prepare-Runs}

-- the log directories, and the boots so far, the last one first
pub record State : Type 0 where
  pub disk : Disk
  pub boots : List Text

-- What may happen to them: a boot; `prepare` in the boot that runs, finished or cut off by a crash at any
-- moment; a program that writes a file into the log directory, before or after `prepare`; and the
-- diagnostics, which make their stamp.
pub data Step (s : State) : State → Type 0 where
  booted : (boot : Text) → Step s (record s { boots = boot ∷ s.boots })
  prepared :
      (sys : Sys) (boot : Text)
      → s.boots ≡ boot ∷ sys.earlier
      → is_id boot ≡ true
      → Step s (record s { disk = (prepare sys boot s.disk).disk })
  crashed :
      (sys : Sys) (boot : Text) (i : ℕ) {e : Disk}
      → s.boots ≡ boot ∷ sys.earlier
      → is_id boot ≡ true
      → get_elem? (prepare sys boot s.disk).before i ≡ some e
      → Step s (record s { disk = e })
  logged :
      (name : Text) (x : Dir)
      → s.disk.log ≡ dir x
      → Step s (record s { disk = add_file name s.boots s.disk })
  stamped : Step s (record s { disk = record s.disk { stamp = true } })

pub data Reach (s : State) : State → Type 0 where
  here : Reach s s
  later : {t u : State} → Reach s t → Step t u → Reach s u

Ends-IsMarked :
    (bs : List Text) (boot : Text) (r : Result Bool) (d : Disk)
    → Ends (IsMarked bs) (λ b e. IsMarked bs e × HasBoot boot e) r d
    → IsMarked bs d
Ends-IsMarked bs boot (ok b) d h = h.0
Ends-IsMarked bs boot (err e) d h = h

HasMarker-boot :
    (bs : List Text) (b : Text) (m : Option Text) (files : List File)
    → HasMarker bs m files
    → HasMarker (b ∷ bs) m files
unfolding is_one_of
HasMarker-boot bs b none files h = tt
HasMarker-boot bs b (some m) files h = (rw (h.0) (or_true (str_eq (trim m) b)), h.1)

IsMarkedLog-boot :
    (bs : List Text) (b : Text) (l : Place Dir) → IsMarkedLog bs l → IsMarkedLog (b ∷ bs) l
IsMarkedLog-boot bs b absent h = tt
IsMarkedLog-boot bs b not_dir h = tt
IsMarkedLog-boot bs b (dir x) h = HasMarker-boot bs b x.marker x.files h

HasMarker-file :
    (bs : List Text) (name : Text) (m : Option Text) (files : List File)
    → HasMarker bs m files
    → HasMarker bs m (record { name = name; boots = bs } ∷ files)
HasMarker-file bs name none files h = tt
HasMarker-file bs name (some m) files h = (h.0, (h.0, h.1))

add_file-IsMarked :
    (bs : List Text) (d : Disk) (name : Text) (x : Dir)
    → d.log ≡ dir x
    → IsMarked bs d
    → IsMarked bs (add_file name bs d)
add_file-IsMarked bs d name x e h = (
  subst (λ l. HasMarker bs (made l).marker (record { name = name; boots = bs } ∷ (made l).files))
      (sym e) (HasMarker-file bs name x.marker x.files (subst (IsMarkedLog bs) e h.0)),
  h.1,
)

-- the boot that runs is one of the boots so far
known : (bs : List Text) (boot : Text) (es : List Text) → bs ≡ boot ∷ es → is_one_of bs boot ≡ true
unfolding is_one_of
known bs boot es e = rw (e, str_eq_refl boot) refl

Step-IsMarked : {s t : State} → Step s t → IsMarked s.boots s.disk → IsMarked t.boots t.disk
Step-IsMarked {s} (booted b) h = (IsMarkedLog-boot s.boots b s.disk.log h.0, h.1)
Step-IsMarked {s} (prepared sys boot e good) h =
    Ends-IsMarked s.boots boot (prepare sys boot s.disk).result (prepare sys boot s.disk).disk
      ((prepare-Runs s.boots sys boot good (known s.boots boot sys.earlier e)).at s.disk h).1
Step-IsMarked {s} (crashed sys boot i e good there) h =
    All-get_elem? (IsMarked s.boots) (prepare sys boot s.disk).before i
      ((prepare-Runs s.boots sys boot good (known s.boots boot sys.earlier e)).at s.disk h).0 there
Step-IsMarked {s} (logged name x e) h = add_file-IsMarked s.boots s.disk name x e h
Step-IsMarked stamped h = h

-- No old log is put down to a new boot: after any sequence of boots in which `prepare` runs to its end,
-- fails, or is cut off by a crash at any moment, with files logged at any time in between, an archive
-- whose label is not `legacy` or `unknown` holds no file that was written before the boot in its label,
-- and the log directory none that was written before the boot in its marker.
pub Reach-IsMarked : {s t : State} → Reach s t → IsMarked s.boots s.disk → IsMarked t.boots t.disk
Reach-IsMarked here h = h
Reach-IsMarked (later r s) h = Step-IsMarked s (Reach-IsMarked r h)

Ends-ok :
    (bs : List Text) (boot : Text) (r : Result Bool) (d : Disk) {b : Bool}
    → Ends (IsMarked bs) (λ c e. IsMarked bs e × HasBoot boot e) r d
    → r ≡ ok b
    → HasBoot boot d
Ends-ok bs boot (ok b) d h e = h.1
Ends-ok bs boot (err x) d h e = cc

prepare_unchanged :
    (sys : Sys) (boot : Text) (d : Disk)
    → HasBoot boot d
    → sys.reads_marker ≡ true
    → prepare sys boot d ≡ record { result = ok false; disk = d; before = [] }
unfolding prepare ◌>>=◌ changed
prepare_unchanged sys boot d (m, there, same) reads = rw (reads, there, same, str_eq_refl boot) refl

-- `prepare` is done once in a boot: after a success, another `prepare` of the same boot that can read
-- the marker returns false and changes nothing.
prepare_again :
    (sys next : Sys) (boot : Text) (d : Disk) (bs : List Text) {b : Bool}
    → is_id boot ≡ true
    → is_one_of bs boot ≡ true
    → IsMarked bs d
    → (prepare sys boot d).result ≡ ok b
    → next.reads_marker ≡ true
    → prepare next boot (prepare sys boot d).disk
      ≡ record { result = ok false; disk = (prepare sys boot d).disk; before = [] }
prepare_again sys next boot d bs good so_far h e reads =
    prepare_unchanged next boot (prepare sys boot d).disk
      (Ends-ok bs boot (prepare sys boot d).result (prepare sys boot d).disk
        ((prepare-Runs bs sys boot good so_far).at d h).1 e)
      reads
