-- ===== src/Os/Owner.antt =====
-- Whom the handles that `processes` (native/smbctl/src/os.rs) returns refer to.
use android_smb_for_ksu.Common.{
  ok-injective, some-injective, ℕ, ◌+◌, ◌≤◌, ◌≡◌, sym, ap, subst, ◌∙◌, inl, inr, arith, ℤ, true,
  ◌&&◌, List, [], ◌∷◌, Option, none, some, All, ok, Bool-cases, Option-cases, Result-cases,
  and_left,
}
use android_smb_for_ksu.Text.{Text, is_one_of}
use android_smb_for_ksu.Text.Lemmas.{str_eq_iff}
use android_smb_for_ksu.Os.Process.{start}
use android_smb_for_ksu.Os.Processes.{
  Proc, Process, is_text, pid_of, recheck, acquire, inspect, inspect_entry, push, scan, processes,
}

-- The process behind a number at a time. A handle is that of the process at its opening; a number with
-- the same start at two times has been the same process's in between.
pub record IsKernel (proc : Proc) (owner : ℤ → ℕ → Option ℕ) : Type 0 where
  pub opened : (pid : ℤ) (t h : ℕ) → proc.pidfd_open pid t ≡ ok h → owner pid t ≡ some h
  pub starts :
      (pid : ℤ) (t u v : ℕ) (s : Text)
      → start (proc.stat pid t) ≡ some s
      → start (proc.stat pid v) ≡ some s
      → t ≤ u
      → u ≤ v
      → owner pid u ≡ owner pid t

-- at some time the process behind the handle had the number, and ran the program, one of the list
abbrev pub IsOwned : Proc → (ℤ → ℕ → Option ℕ) → List Text → Process → Type 0
IsOwned proc owner exes p =
    (is_one_of exes p.exe ≡ true)
    × ((u : ℕ) × (owner p.pid u ≡ some p.handle) × (proc.exe p.pid u ≡ some p.exe))

pub is_text-≡ : (o : Option Text) (s : Text) → is_text o s ≡ true → o ≡ some s
is_text-≡ none s h = cc
is_text-≡ (some t) s h = ap some ((str_eq_iff t s).0 h)

module _ (proc : Proc) (owner : ℤ → ℕ → Option ℕ) (kernel : IsKernel proc owner) where
  recheck-IsOwned :
      (exes : List Text) (pid : ℤ) (before exe : Text) (h t : ℕ) {p : Process}
      → start (proc.stat pid t) ≡ some before
      → proc.exe pid (t + 1) ≡ some exe
      → is_one_of exes exe ≡ true
      → proc.pidfd_open pid (t + 2) ≡ ok h
      → recheck proc pid before exe h (t + 3) ≡ some p
      → IsOwned proc owner exes p
  unfolding recheck
  recheck-IsOwned exes pid before exe h t {p = p} old prog good op run =
      elim (Bool-cases
        (is_text (start (proc.stat pid (t + 3))) before && is_text (proc.exe pid (t + 4)) exe)) [
          | inr changed ↦ absurd (ground arith)
          | inl kept ↦
              let p' : Process = record { pid = pid; start = before; exe = exe; handle = h } in
              let again = is_text-≡ (start (proc.stat pid (t + 3))) before (and_left _ _ kept) in
              let own : (u : ℕ) → t ≤ u → u ≤ t + 3 → owner pid u ≡ owner pid t =
                λ u le le'. kernel.starts pid t u (t + 3) before old again le le' in
              let same =
                own (t + 1) (omega arith) (omega arith)
                ∙ sym (own (t + 2) (omega arith) (omega arith)) in
              let owned : IsOwned proc owner exes p' =
                (good, (t + 1, same ∙ kernel.opened pid (t + 2) h op, prog)) in
              let same_process : p' ≡ p = some-injective (ground arith) in
              subst (IsOwned proc owner exes) same_process owned
        ]

  inspect-IsOwned :
      (exes : List Text) (pid : ℤ) (t : ℕ) {p : Process}
      → inspect proc exes pid t ≡ ok (some p)
      → IsOwned proc owner exes p
  unfolding inspect acquire
  inspect-IsOwned exes pid t {p = p} run = elim (Option-cases (start (proc.stat pid t))) [
    | inl gone ↦ absurd (ground arith)
    | inr (before, old) ↦ elim (Option-cases (proc.exe pid (t + 1))) [
      | inl gone ↦ absurd (ground arith)
      | inr (exe, prog) ↦ elim (Bool-cases (is_one_of exes exe)) [
        | inr bad ↦ absurd (ground arith)
        | inl good ↦ elim (Result-cases (proc.pidfd_open pid (t + 2))) [
          | inl (h, op) ↦
              recheck-IsOwned exes pid before exe h t {p = p} old prog good op (ground arith)
          | inr (e, bad) ↦ absurd (ground arith)
        ]
      ]
    ]
  ]

  -- what an entry of /proc gives
  IsFound : List Text → Option Process → Type 0
  IsFound exes none = Unit
  IsFound exes (some p) = IsOwned proc owner exes p

  entry-IsFound :
      (exes : List Text) (o : Option ℤ) (t : ℕ) (found : Option Process)
      → inspect_entry proc exes o t ≡ ok found
      → IsFound exes found
  unfolding IsFound
  entry-IsFound exes o t none run = tt
  entry-IsFound exes none t (some p) run = absurd (ground arith)
  entry-IsFound exes (some pid) t (some p) run = inspect-IsOwned exes pid t run

  push-IsOwned :
      (exes : List Text) (found : Option Process) (ps : List Process)
      → IsFound exes found
      → All (IsOwned proc owner exes) ps
      → All (IsOwned proc owner exes) (push proc found ps)
  unfolding IsFound
  push-IsOwned exes none ps f all = all
  push-IsOwned exes (some p) ps f all = (f, all)

  scan-IsOwned :
      (exes : List Text) (names : List (Option Text)) (t : ℕ) {ps : List Process}
      → scan proc exes names t ≡ ok ps
      → All (IsOwned proc owner exes) ps
  unfolding scan
  scan-IsOwned exes [] t run = subst (All (IsOwned proc owner exes)) (ok-injective run) tt
  scan-IsOwned exes (name ∷ names) t run =
      elim (Result-cases (inspect_entry proc exes (pid_of name) t)) [
        | inr (e, bad) ↦ absurd (ground arith)
        | inl (found, one) ↦ elim (Result-cases (scan proc exes names (t + 5))) [
          | inr (e, bad) ↦ absurd (ground arith)
          | inl (qs, rest) ↦
              let all = scan-IsOwned exes names (t + 5) rest in
              subst (All (IsOwned proc owner exes)) (ok-injective (ground arith))
                (push-IsOwned exes found qs (entry-IsFound exes (pid_of name) t found one) all)
        ]
      ]

  -- Whatever exits and whatever numbers are used again between its reads, a process that `processes`
  -- returns has been seen as it is: the process behind its handle, which `terminate` signals, has had
  -- the number and run the program, and the program is one of those that were asked for.
  pub processes-IsOwned :
      (exes : List Text) (t : ℕ) {ps : List Process}
      → processes proc exes t ≡ ok ps
      → All (IsOwned proc owner exes) ps
  unfolding processes
  processes-IsOwned exes t run = elim (Result-cases (proc.names t)) [
    | inr (e, bad) ↦ absurd (ground arith)
    | inl (names, one) ↦ scan-IsOwned exes names (t + 1) (rw (one, processes) at run)
  ]
