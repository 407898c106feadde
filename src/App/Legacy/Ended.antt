-- ===== src/App/Legacy/Ended.antt =====
-- Which processes `retire_legacy` (native/smbctl/src/main.rs) ends.
use android_smb_for_ksu.Common.{
  ℕ, ◌+◌, ◌≡◌, refl, sym, ap, ◌∙◌, inl, inr, arith, ℤ, pos, Bool, true, false, List, [], ◌∷◌,
  Option, none, some, All, All-map, get_elem?, suc, Result, ok, err, Bool-cases, Option-cases,
  Result-cases, and_left, and_right, int_eq, int_eq-≡, int_leb, unwrap_or,
}
use mathlib.Core.Bool.{false≢true}
use android_smb_for_ksu.Text.{Text}
use android_smb_for_ksu.Os.Processes.{Proc, Process, processes}
use android_smb_for_ksu.Os.Owner.{IsKernel, IsOwned, processes-IsOwned, is_text-≡}
use android_smb_for_ksu.Watch.Stop.{recorded, has_argument, keep_ok, keep_ok-All}
use android_smb_for_ksu.App.Legacy.{
  Old, is_recorded, some_ok, legacy_targets, retire, records, retire_legacy,
}

some_ok-≡ :
    (proc : Proc) (r : Result (List Process)) {ps : List Process}
    → some_ok proc r ≡ ok (some ps)
    → r ≡ ok ps
some_ok-≡ proc (err e) h = cc
some_ok-≡ proc (ok qs) h = cc

module _ (proc : Proc) (owner : ℤ → ℕ → Option ℕ) (kernel : IsKernel proc owner) where
  -- a process that may be ended for a record
  abbrev pub IsOld : Old → Process → Type 0
  IsOld old p =
      (int_leb (recorded old.file) (pos 1) ≡ false)
      × (p.pid ≡ recorded old.file)
      × ((cmd : List ℕ) × (proc.cmdline p.pid old.second ≡ some cmd)
          × (has_argument cmd old.argument ≡ true))
      × ((exe : Text) × IsOwned proc owner (exe ∷ []) p)

  is_recorded-IsOld :
      (old : Old) (exe : Text) (p : Process)
      → int_leb (recorded old.file) (pos 1) ≡ false
      → has_argument (unwrap_or (proc.cmdline (recorded old.file) old.first) []) old.argument ≡ true
      → IsOwned proc owner (exe ∷ []) p
      → is_recorded proc
          (recorded old.file)
          (unwrap_or (proc.cmdline (recorded old.file) old.first) [])
          old.second
          p
        ≡ true
      → IsOld old p
  unfolding is_recorded
  is_recorded-IsOld old exe p big arg own same =
      let pid = recorded old.file in
      let cmd = unwrap_or (proc.cmdline pid old.first) [] in
      let is_pid = int_eq-≡ p.pid pid (and_left _ _ same) in
      let read =
        is_text-≡ (proc.cmdline pid old.second) cmd (and_right (int_eq p.pid pid) _ same) in
      (big, is_pid, (cmd, ap (λ n. proc.cmdline n old.second) is_pid ∙ read, arg), (exe, own))

  legacy_targets-IsOld :
      (old : Old) {ps : List Process} → legacy_targets proc old ≡ ok (some ps) → All (IsOld old) ps
  unfolding legacy_targets
  legacy_targets-IsOld old {ps = ps} run =
      let pid = recorded old.file in
      let cmd = unwrap_or (proc.cmdline pid old.first) [] in
      elim (Bool-cases (int_leb pid (pos 1))) [
        | inl small ↦ absurd (ground arith)
        | inr big ↦ elim (Bool-cases (has_argument cmd old.argument)) [
          | inr other_program ↦ absurd (ground arith)
          | inl arg ↦ elim (Option-cases (proc.exe pid (old.first + 1))) [
            | inl gone ↦ absurd (ground arith)
            | inr (exe, link) ↦
                let found = processes proc (exe ∷ []) (old.first + 2) in
                let chosen : legacy_targets proc old
                    ≡ some_ok proc (keep_ok (is_recorded proc pid cmd old.second) found) =
                  rw (big, arg, link, legacy_targets) refl in
                let run' : keep_ok (is_recorded proc pid cmd old.second) found ≡ ok ps =
                  some_ok-≡ proc _ (sym chosen ∙ run) in
                let kept =
                  keep_ok-All (IsOwned proc owner (exe ∷ [])) (is_recorded proc pid cmd old.second)
                    found (λ qs e. processes-IsOwned proc owner kernel (exe ∷ []) (old.first + 2) e)
                    run' in
                All-map ps (λ p h. is_recorded-IsOld old exe p big arg h.0 h.1) kept
          ]
        ]
      ]

  -- what is ended for the records, each call for its own record
  abbrev pub EndsOld : List Old → List (List Process) → Type 0
  EndsOld olds calls =
      All (λ ps. (i : ℕ) × (old : Old) × (get_elem? olds i ≡ some old) × All (IsOld old) ps) calls

  retire-EndsOld :
      (terminate : List Process → Result (Unit {0})) (olds : List Old) (there : Bool)
      (r : Result (Unit {0}))
      → EndsOld olds (retire proc terminate olds there r).ended
  unfolding retire
  retire-EndsOld terminate [] false r = tt
  retire-EndsOld terminate [] true (ok u) = tt
  retire-EndsOld terminate [] true (err e) = tt
  retire-EndsOld terminate (old ∷ olds) there r =
      let later : EndsOld (old ∷ olds) (retire proc terminate olds there r).ended =
        All-map (retire proc terminate olds there r).ended (λ ps h. (suc h.0, h.1, h.2, h.3))
          (retire-EndsOld terminate olds there r) in
      elim (Result-cases (legacy_targets proc old)) [
        | inr (e, bad) ↦ rw (bad, retire) tt
        | inl (none, none_old) ↦ rw (none_old, retire) later
        | inl (some ps, found) ↦ elim (Result-cases (terminate ps)) [
          | inr (e, bad) ↦
              rw (found, bad, retire) ((0, old, refl, legacy_targets-IsOld old found), tt)
          | inl (u, good) ↦
              rw (found, good, retire) ((0, old, refl, legacy_targets-IsOld old found), later)
        ]
      ]

  retire-removed :
      (terminate : List Process → Result (Unit {0})) (olds : List Old) (there : Bool)
      (r : Result (Unit {0}))
      → (retire proc terminate olds there r).removed ≡ true
      → All (λ ps. terminate ps ≡ ok tt) (retire proc terminate olds there r).ended
  unfolding retire
  retire-removed terminate [] false r h = tt
  retire-removed terminate [] true (ok u) h = tt
  retire-removed terminate [] true (err e) h = tt
  retire-removed terminate (old ∷ olds) there r h = elim (Result-cases (legacy_targets proc old)) [
    | inr (e, bad) ↦ rw (bad, retire) tt
    | inl (none, none_old) ↦
        rw (none_old, retire) (retire-removed terminate olds there r (rw (none_old, retire) at h))
    | inl (some ps, found) ↦ elim (Result-cases (terminate ps)) [
      | inr (e, bad) ↦ absurd (false≢true (rw (found, bad, retire) at h))
      | inl (u, good) ↦
          rw (found, good, retire)
            (good, retire-removed terminate olds there r (rw (found, good, retire) at h))
    ]
  ]

  -- `retire_legacy` ends only what is left of the old watcher: a process that it hands to `terminate`
  -- has the number that one of the two records holds, more than 1, its command line holds the argument
  -- of that record, and it has run the program found, under the handle that is signalled. The
  -- directory is removed only if each `terminate` has succeeded.
  pub retire_legacy_lem :
      (terminate : List Process → Result (Unit {0})) (old_module : Text) (netwatch shell : Old)
      (there : Bool) (r : Result (Unit {0}))
      → let done = retire_legacy proc terminate old_module netwatch shell there r in
        EndsOld (records old_module netwatch shell) done.ended
        × (done.removed ≡ true → All (λ ps. terminate ps ≡ ok tt) done.ended)
  unfolding retire_legacy
  retire_legacy_lem terminate old_module netwatch shell there r =
      let olds = records old_module netwatch shell in
      (retire-EndsOld terminate olds there r, retire-removed terminate olds there r)
