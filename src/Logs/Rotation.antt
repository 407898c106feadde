-- ===== src/Logs/Rotation.antt =====
-- `prepare` (native/smbctl/src/logs.rs) step by step: what each of its steps does to the labels.
use android_smb_for_ksu.Common.{
  Option-cases, ℕ, ◌≡◌, refl, sym, ap, subst, inl, inr, arith, Bool, true, false, ◌&&◌, List, [],
  ◌∷◌, ◌++◌, leb, Error, Bool-cases, ◌-◌,
}
use android_smb_for_ksu.Text.{Text, chars, is_one_of, trim}
use android_smb_for_ksu.Text.Lemmas.{str_eq_iff, str_eq_refl}
use android_smb_for_ksu.Logs.{Entry, max_archives, max_archive_bytes, changed, is_id}
use android_smb_for_ksu.Logs.Id.{trim-marker}
use android_smb_for_ksu.Logs.Disk.{
  File, Dir, Place, dir, Disk, change, check, lift, gets, Runs, Runs-bind, Runs-change, Runs-pure,
  Runs-check, Runs-lift, Runs-gets, Runs-read,
}
use android_smb_for_ksu.Logs.Prepare.{
  Sys, marker_of, read_marker, archives_of, with_history, made, with_log, add_file, set_marker,
  begin_log, drop_archive, prune_loop, entries, prune, mark, rotate, prepare,
}
use android_smb_for_ksu.Logs.Marked.{
  IsMarked, HasBoot, IsCleared, IsBegun, IsDone, without-IsLabelled, AreFrom-trim, IsBegun-IsMarked,
}
use android_smb_for_ksu.Logs.Archiving.{IsSame, archive_log-Runs}

module _ (bs : List Text) (sys : Sys) where
  with_file : File → Dir → Place Dir
  with_file f x = dir (record x { files = f ∷ x.files })

  first : (boot : Text) → is_one_of (boot ∷ sys.earlier) boot ≡ true
  unfolding is_one_of
  first boot = rw (str_eq_refl boot) refl

  add_file-IsBegun :
      (boot : Text) (d : Disk)
      → IsBegun boot d
      → IsBegun boot (add_file (chars "module.log") (boot ∷ sys.earlier) d)
  unfolding with_file
  add_file-IsBegun boot d h =
      let f : File = record { name = chars "module.log"; boots = boot ∷ sys.earlier } in
      (f ∷ h.0, ap (with_file f) (ap made h.1), (first boot, h.2), h.3)

  begin_log-Runs :
      (boot : Text) → Runs (IsMarked bs) (IsCleared bs) (begin_log sys boot) (λ u. IsBegun boot)
  unfolding begin_log
  begin_log-Runs boot =
      Runs-bind (IsMarked bs) (λ u. IsBegun boot) _ _
        (Runs-change (IsMarked bs) sys.make_log with_log (λ d h. h.0)
          (λ d h. ([], ap dir h.1, tt, h.0.1)))
        (λ u.
          Runs-bind (IsMarked bs) (λ u. IsBegun boot) _ _
            (Runs-check (IsMarked bs) sys.protect_log Error.io ((IsBegun-IsMarked bs) boot))
            (λ u.
              Runs-bind (IsMarked bs) (λ u. IsBegun boot) _ _
                (Runs-change (IsMarked bs) sys.open_log _ ((IsBegun-IsMarked bs) boot)
                  (add_file-IsBegun boot))
                (λ u.
                  Runs-check (IsMarked bs) sys.write_log Error.io ((IsBegun-IsMarked bs) boot))))

  prune_loop-Runs :
      (boot : Text) (es : List Entry) (total count : ℕ)
      → Runs (IsMarked bs) (IsBegun boot) (prune_loop sys es total count) (λ u. IsBegun boot)
  unfolding prune_loop
  prune_loop-Runs boot [] total count = Runs-pure (IsMarked bs) tt (λ d h. h)
  prune_loop-Runs boot (e ∷ es) total count =
      elim (Bool-cases (leb count max_archives && leb total max_archive_bytes)) [
        | inl fits ↦ rw (fits, prune_loop) (Runs-pure (IsMarked bs) tt (λ d h. h))
        | inr over ↦
            rw (over, prune_loop)
              (Runs-bind (IsMarked bs) (λ u. IsBegun boot) _ _
                (Runs-change (IsMarked bs) (sys.remove e.name) (drop_archive e.name)
                  ((IsBegun-IsMarked bs) boot)
                  (λ d h. (h.0, h.1, h.2, without-IsLabelled e.name (archives_of d.history) h.3)))
                (λ u. prune_loop-Runs boot es (total - e.size) (count - 1)))
      ]

  prune-Runs : (boot : Text) → Runs (IsMarked bs) (IsBegun boot) (prune sys) (λ u. IsBegun boot)
  unfolding prune
  prune-Runs boot =
      let fine = (IsBegun-IsMarked bs) boot in
      Runs-bind (IsMarked bs) (λ u. IsBegun boot) (check sys.list_history Error.io) _
        (Runs-check (IsMarked bs) sys.list_history Error.io fine)
        (λ u.
          Runs-bind (IsMarked bs) (λ olds. IsBegun boot) (gets (λ d. archives_of d.history)) _
            (Runs-read (IsMarked bs) (λ d. archives_of d.history))
            (λ olds.
              Runs-bind (IsMarked bs) (λ es. IsBegun boot) (lift (entries sys olds)) _
                (Runs-lift (IsMarked bs) (entries sys olds) fine)
                (λ es. prune_loop-Runs boot _ _ _)))

  set_marker-IsMarked :
      (boot : Text) (d : Disk)
      → is_id boot ≡ true
      → is_one_of bs boot ≡ true
      → IsBegun boot d
      → (IsMarked bs) (set_marker boot d)
  set_marker-IsMarked boot d good known h =
      let same : (made d.log).files ≡ h.0 = ap (λ l. (made l).files) h.1 in
      (rw same (rw (trim-marker boot good) known, AreFrom-trim boot h.0 good h.2), h.3)

  set_marker-IsDone :
      (boot : Text) (d : Disk)
      → is_id boot ≡ true
      → is_one_of bs boot ≡ true
      → IsBegun boot d
      → (IsDone bs) boot (set_marker boot d)
  set_marker-IsDone boot d good known h =
      (set_marker-IsMarked boot d good known h, (boot ++ b'\n' ∷ [], refl, trim-marker boot good))

  mark-Runs :
      (boot : Text)
      → is_id boot ≡ true
      → is_one_of bs boot ≡ true
      → Runs (IsMarked bs) (IsBegun boot) (mark sys boot) (λ u. (IsDone bs) boot)
  unfolding mark change
  mark-Runs boot good known = record {
    at = λ d h. elim (Bool-cases sys.mark) [
      | inl done ↦
          rw done (((IsBegun-IsMarked bs) boot d h, tt), set_marker-IsDone boot d good known h)
      | inr not_done ↦ elim (Bool-cases sys.mark_lands) [
        | inl lands ↦
            rw (not_done, lands)
              (((IsBegun-IsMarked bs) boot d h, tt), set_marker-IsMarked boot d good known h)
        | inr lost ↦ rw (not_done, lost) (tt, (IsBegun-IsMarked bs) boot d h)
      ]
    ];
  }

  rotate-Runs :
      (boot : Text) (d : Disk)
      → is_id boot ≡ true
      → is_one_of bs boot ≡ true
      → Runs (IsMarked bs) (IsSame bs sys d.log) (rotate sys boot d) (λ b. (IsDone bs) boot)
  unfolding rotate
  rotate-Runs boot d good known =
      let same : Disk → Type 0 = IsSame bs sys d.log in
      let fine : (e : Disk) → IsSame bs sys d.log e → (IsMarked bs) e = λ e h. h.0 in
      Runs-bind (IsMarked bs) (λ u. IsSame bs sys d.log) (check _ Error.log_not_directory) _
        (Runs-check (IsMarked bs) _ Error.log_not_directory fine)
        (λ u₁.
          Runs-bind (IsMarked bs) (λ u. IsSame bs sys d.log) (change sys.make_history with_history)
            _ (Runs-change (IsMarked bs) sys.make_history with_history fine (λ e h. h))
            (λ u₂.
              Runs-bind (IsMarked bs) (λ u. IsSame bs sys d.log)
                (check sys.protect_history Error.io) _
                (Runs-check (IsMarked bs) sys.protect_history Error.io fine)
                (λ u₃.
                  Runs-bind (IsMarked bs) (λ n. IsSame bs sys d.log) (lift sys.now) _
                    (Runs-lift (IsMarked bs) sys.now fine)
                    (λ now.
                      Runs-bind (IsMarked bs) (λ u. (IsCleared bs)) _ _
                        (archive_log-Runs bs sys d now)
                        (λ u₄.
                          Runs-bind (IsMarked bs) (λ u. IsBegun boot) (begin_log sys boot) _
                            (begin_log-Runs boot)
                            (λ u₅.
                              Runs-bind (IsMarked bs) (λ u. IsBegun boot) (prune sys) _
                                (prune-Runs boot)
                                (λ u₆.
                                  Runs-bind (IsMarked bs) (λ u. (IsDone bs) boot) (mark sys boot) _
                                    (mark-Runs boot good known)
                                    (λ u₇. Runs-pure (IsMarked bs) true (λ e h. h)))))))))

  unchanged :
      (boot : Text) (d : Disk) (reads : Bool)
      → changed (read_marker reads d) boot ≡ false
      → HasBoot boot d
  unfolding changed
  unchanged boot d false h = absurd (ground arith)
  unchanged boot d true h = elim (Option-cases (marker_of d.log)) [
    | inl gone ↦ absurd (changed_none (rw gone at h))
    | inr (m, there) ↦ (m, there, (str_eq_iff (trim m) boot).0 (ground arith))
  ]
    where
      changed_none : Path Bool true false → ⊥
      changed_none q = cc

  pub prepare-Runs :
      (boot : Text)
      → is_id boot ≡ true
      → is_one_of bs boot ≡ true
      → Runs (IsMarked bs) (IsMarked bs) (prepare sys boot) (λ b. (IsDone bs) boot)
  unfolding prepare
  prepare-Runs boot good known =
      Runs-bind (IsMarked bs) (λ d e. (IsMarked bs) e × (d ≡ e)) (gets (λ d. d)) _
        (Runs-gets (IsMarked bs) (λ d. d))
        (λ d. elim (Bool-cases (changed (read_marker sys.reads_marker d) boot)) [
          | inl new ↦ rw new (record {
            at = λ e h. (rotate-Runs boot d good known).at e (h.0, sym (ap (λ f. f.log) h.1));
          })
          | inr old ↦ rw old (
              Runs-pure (IsMarked bs) false
                (λ e h. (h.0, subst (HasBoot boot) h.1 (unchanged boot d sys.reads_marker old))))
        ])
