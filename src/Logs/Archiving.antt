-- ===== src/Logs/Archiving.antt =====
-- The archiving of the old log in `prepare` (native/smbctl/src/logs.rs): it keeps the labels true.
use android_smb_for_ksu.Common.{
  ℕ, ◌≡◌, refl, sym, subst, ◌∙◌, inl, inr, arith, true, false, List, [], ◌∷◌, Option, none, some,
  is_some, is_empty, Error, Bool-cases,
}
use android_smb_for_ksu.Text.{Text}
use android_smb_for_ksu.Logs.{label_of}
use android_smb_for_ksu.Logs.Disk.{
  File, Dir, Place, absent, not_dir, dir, Disk, Runs, Runs-bind, Runs-change, Runs-pure, Runs-check,
  Runs-gets,
}
use android_smb_for_ksu.Logs.Prepare.{
  Sys, read_marker, has_entry, archives_of, move_stamp, archive_stamp, archive_dir, archive_place,
  archive_log, archive_name,
}
use android_smb_for_ksu.Logs.Marked.{
  IsMarkedLog, IsMarked, IsCleared, label_of-IsLabelled, stamp_first-IsLabelled,
}

module _ (bs : List Text) (sys : Sys) where
  -- the log of before, from which the label is taken
  abbrev pub IsSame : Place Dir → Disk → Type 0
  IsSame l d = (IsMarked bs) d × (d.log ≡ l)

  archive_stamp-Runs :
      (d : Disk)
      → Runs (IsMarked bs) (λ e. (IsCleared bs) e) (archive_stamp sys d) (λ u. (IsCleared bs))
  archive_stamp-Runs d = elim (Bool-cases d.stamp) [
    | inl there ↦ rw there (
        Runs-change (IsMarked bs) sys.rename_stamp move_stamp (λ e h. h.0)
          (λ e h. ((h.0.0, stamp_first-IsLabelled (archives_of e.history) h.0.1), h.1)))
    | inr gone ↦ rw gone (Runs-pure (IsMarked bs) tt (λ e h. h))
  ]

  archive_dir-Runs :
      (d : Disk) (now : ℕ) (x : Dir)
      → d.log ≡ dir x
      → Runs
          (IsMarked bs)
          (IsSame (dir x))
          (archive_dir sys now (label_of (read_marker sys.rereads_marker d)) x)
          (λ u. (IsCleared bs))
  archive_dir-Runs d now x e =
      Runs-bind (IsMarked bs) (λ u. (IsCleared bs)) _ _
        (Runs-change (IsMarked bs) sys.rename_log _ (λ f h. h.0)
          (λ f h. (
            (
              tt,
              (
                label_of-IsLabelled bs sys.rereads_marker d x e (subst (IsMarkedLog bs) h.1 h.0.0)
                    (archive_name now (label_of (read_marker sys.rereads_marker d))) false,
                h.0.1,
              ),
            ),
            refl,
          )))
        (λ u.
          Runs-bind (IsMarked bs) (λ f g. (IsCleared bs) g × (f ≡ g)) _ _
            (Runs-gets (IsMarked bs) (λ d. d))
            (λ f. record { at = λ g h. (archive_stamp-Runs f).at g h.0 }))

  cleared : (x : Dir) → has_entry x ≡ false → x ≡ record { marker = none; files = [] }
  cleared x h = no_entry x.marker x.files refl refl (ground arith) (ground arith)
    where
      no_entry :
          (m : Option Text) (fs : List File)
          → x.marker ≡ m
          → x.files ≡ fs
          → is_some m ≡ false
          → is_empty fs ≡ true
          → x ≡ record { marker = none; files = [] }
      no_entry none [] p q a b = λ i. record { marker = p i; files = q i }
      no_entry none (f ∷ fs) p q a b = cc
      no_entry (some m) fs p q a b = cc

  archive_place-Runs :
      (d : Disk) (now : ℕ) (l : Place Dir)
      → d.log ≡ l
      → Runs
          (IsMarked bs)
          (IsSame l)
          (archive_place sys now (label_of (read_marker sys.rereads_marker d)) l)
          (λ u. (IsCleared bs))
  archive_place-Runs d now absent e = Runs-pure (IsMarked bs) tt (λ f h. (h.0, rw (h.1) refl))
  archive_place-Runs d now not_dir e = Runs-pure (IsMarked bs) tt (λ f h. (h.0, rw (h.1) refl))
  archive_place-Runs d now (dir x) e =
      Runs-bind (IsMarked bs) (λ u. IsSame (dir x)) _ _
        (Runs-check (IsMarked bs) sys.list_log Error.io (λ f h. h.0))
        (λ u. elim (Bool-cases (has_entry x)) [
          | inl full ↦ rw full (archive_dir-Runs d now x e)
          | inr bare ↦
              rw bare (Runs-pure (IsMarked bs) tt (λ f h. (h.0, rw (h.1) (cleared x bare))))
        ])

  pub archive_log-Runs :
      (d : Disk) (now : ℕ)
      → Runs
          (IsMarked bs)
          (IsSame d.log)
          (archive_log sys now (label_of (read_marker sys.rereads_marker d)))
          (λ u. (IsCleared bs))
  unfolding archive_log
  archive_log-Runs d now =
      Runs-bind (IsMarked bs) (λ l f. IsSame d.log f × (l ≡ f.log)) _ _
        (Runs-gets (IsMarked bs) (λ f. f.log))
        (λ l. record {
          at = λ f h. (archive_place-Runs d now l (sym h.0.1 ∙ sym h.1)).at f (h.0.0, sym h.1);
        })
