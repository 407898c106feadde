-- ===== src/Logs/Marked.antt =====
-- Which logs lie under which label in the directories of logs.rs (native/smbctl/src/logs.rs).
use android_smb_for_ksu.Common.{
  ◌≡◌, refl, sym, subst, ◌⊎◌, inl, inr, Bool, true, false, not, ◌&&◌, List, [], ◌∷◌, ◌++◌, Option,
  none, some, All, is_empty, Bool-cases,
}
use android_smb_for_ksu.Text.{Text, chars, str_eq, is_one_of, trim}
use android_smb_for_ksu.Logs.{label_of, is_id}
use android_smb_for_ksu.Logs.Id.{trim-marker}
use android_smb_for_ksu.Logs.Disk.{File, Dir, Place, dir, Archive, Disk}
use android_smb_for_ksu.Logs.Prepare.{
  marker_of, read_marker, archives_of, stamp_first, made, without,
}

-- every file was written in the boot `b` or in a later one
abbrev pub AreFrom : Text → List File → Type 0
AreFrom b = All (λ f. is_one_of f.boots b ≡ true)

-- an archive whose label names a boot holds no file of an earlier boot
abbrev pub IsLabelled : Archive → Type 0
IsLabelled a =
    (a.label ≡ chars "legacy") ⊎ (a.label ≡ chars "unknown") ⊎ AreFrom a.label a.content.files

abbrev pub HasMarker : List Text → Option Text → List File → Type 0
HasMarker bs none files = Unit
HasMarker bs (some m) files = (is_one_of bs (trim m) ≡ true) × AreFrom (trim m) files

-- a marker names one of the boots `bs` so far, and no file beside it is of an earlier boot
abbrev pub IsMarkedLog : List Text → Place Dir → Type 0
IsMarkedLog bs (dir x) = HasMarker bs x.marker x.files
IsMarkedLog bs p = Unit

abbrev pub IsMarked : List Text → Disk → Type 0
IsMarked bs d = IsMarkedLog bs d.log × All IsLabelled (archives_of d.history)

pub label_of-IsLabelled :
    (bs : List Text) (reads : Bool) (d : Disk) (x : Dir)
    → d.log ≡ dir x
    → HasMarker bs x.marker x.files
    → (n : Text) (s : Bool)
    → IsLabelled
        (record { name = n; label = label_of (read_marker reads d); stamp = s; content = x })
unfolding label_of
label_of-IsLabelled bs false d x e h n s = inl refl
label_of-IsLabelled bs true d x e h n s = rw e (by_marker x.marker refl)
  where
    by_marker :
        (m : Option Text)
        → x.marker ≡ m
        → IsLabelled (record { name = n; label = label_of m; stamp = s; content = x })
    by_marker none q = inl refl
    by_marker (some m) q = elim (Bool-cases (not (is_empty (trim m)) && is_id (trim m))) [
      | inl good ↦ rw good (inr (inr (subst (λ o. HasMarker bs o x.files) q h).1))
      | inr bad ↦ rw bad (inr (inl refl))
    ]

pub stamp_first-IsLabelled :
    (olds : List Archive) → All IsLabelled olds → All IsLabelled (stamp_first olds)
stamp_first-IsLabelled [] h = tt
stamp_first-IsLabelled (a ∷ olds) h = h

pub without-IsLabelled :
    (name : Text) (olds : List Archive) → All IsLabelled olds → All IsLabelled (without name olds)
without-IsLabelled name [] h = tt
without-IsLabelled name (a ∷ olds) h = elim (Bool-cases (str_eq a.name name)) [
  | inl same ↦ rw same (without-IsLabelled name olds h.1)
  | inr kept ↦ rw kept (h.0, without-IsLabelled name olds h.1)
]

pub AreFrom-trim :
    (boot : Text) (files : List File)
    → is_id boot ≡ true
    → AreFrom boot files
    → AreFrom (trim (boot ++ b'\n' ∷ [])) files
AreFrom-trim boot files good h = rw (trim-marker boot good) h

-- the log directory has nothing in it yet
abbrev pub IsCleared : List Text → Disk → Type 0
IsCleared bs d = IsMarked bs d × (made d.log ≡ record { marker = none; files = [] })

-- the log directory has files of this boot, and no marker
abbrev pub IsBegun : Text → Disk → Type 0
IsBegun boot d =
    (fs : List File) × (d.log ≡ dir (record { marker = none; files = fs }))
    × AreFrom boot fs
    × All IsLabelled (archives_of d.history)

-- the marker is that of the boot
abbrev pub HasBoot : Text → Disk → Type 0
HasBoot boot d = (m : Text) × (marker_of d.log ≡ some m) × (trim m ≡ boot)

pub IsBegun-IsMarked : (bs : List Text) (boot : Text) (d : Disk) → IsBegun boot d → IsMarked bs d
IsBegun-IsMarked bs boot d (fs, e, from, h) = (subst (IsMarkedLog bs) (sym e) tt, h)

abbrev pub IsDone : List Text → Text → Disk → Type 0
IsDone bs boot d = IsMarked bs d × HasBoot boot d
