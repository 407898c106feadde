-- ===== src/Os/Found.antt =====
-- Which processes `processes` (native/smbctl/src/os.rs) finds.
use android_smb_for_ksu.Common.{
  ok-injective, ℕ, ◌+◌, ◌≡◌, refl, sym, ap, subst, ◌∙◌, inl, inr, arith, ℤ, Bool, true, false, List,
  [], ◌∷◌, Option, none, some, any, Result, Error, ok, err, Bool-cases, Result-cases, int_eq,
  int_eq_refl, int_eq-≡,
}
use android_smb_for_ksu.Text.{Text, is_one_of}
use android_smb_for_ksu.Text.Lemmas.{str_eq_refl}
use android_smb_for_ksu.Os.Process.{start}
use android_smb_for_ksu.Os.Processes.{
  Proc, Process, pid_of, recheck, acquire, inspect, inspect_entry, push, scan, processes,
}

module _ (proc : Proc) where
  -- a process that keeps its number, its start and its program
  abbrev pub IsSteady : ℤ → Text → Text → Type 0
  IsSteady pid s x =
      ((t : ℕ) → start (proc.stat pid t) ≡ some s) × ((t : ℕ) → proc.exe pid t ≡ some x)

  has_pid : ℤ → List Process → Bool
  has_pid pid ps = any (λ p. int_eq p.pid pid) ps

  inspect-acquire :
      (exes : List Text) (pid : ℤ) (s x : Text) (t : ℕ)
      → IsSteady pid s x
      → is_one_of exes x ≡ true
      → inspect proc exes pid t ≡ acquire proc pid s x (t + 2)
  unfolding inspect
  inspect-acquire exes pid s x t steady good = rw (steady.0 t, steady.1 (t + 1), good, inspect) refl

  acquire-finds :
      (pid : ℤ) (s x : Text) (t : ℕ) {found : Option Process}
      → IsSteady pid s x
      → acquire proc pid s x t ≡ ok found
      → (h : ℕ) × (found ≡ some (record { pid = pid; start = s; exe = x; handle = h }))
  unfolding acquire recheck
  acquire-finds pid s x t {found = found} steady run = elim (Result-cases (proc.pidfd_open pid t)) [
    | inl (h, op) ↦
        let p : Process = record { pid = pid; start = s; exe = x; handle = h } in
        let kept : acquire proc pid s x t ≡ ok (some p) =
          rw
            (
              op,
              steady.0 (t + 1),
              steady.1 (t + 1 + 1),
              str_eq_refl s,
              str_eq_refl x,
              acquire,
              recheck,
            )
            refl in
        (h, ok-injective (sym run ∙ kept))
    | inr (e, bad) ↦
        let fails : acquire proc pid s x t ≡ err e = rw (bad, steady.0 (t + 1), acquire) refl in
        absurd (err-ne-ok (sym fails ∙ run))
  ]
    where
      err-ne-ok :
          {e : Error} {f : Option Process} → Path (Result (Option Process)) (err e) (ok f) → ⊥
      err-ne-ok q = cc

  abbrev pub is_pid : Option ℤ → ℤ → Bool
  is_pid none pid = false
  is_pid (some n) pid = int_eq n pid

  is_pid-≡ : (o : Option ℤ) (pid : ℤ) → is_pid o pid ≡ true → o ≡ some pid
  is_pid-≡ none pid h = cc
  is_pid-≡ (some n) pid h = ap some (int_eq-≡ n pid h)

  push-keeps :
      (pid : ℤ) (found : Option Process) (ps : List Process)
      → has_pid pid ps ≡ true
      → has_pid pid (push proc found ps) ≡ true
  unfolding has_pid
  push-keeps pid none ps h = h
  push-keeps pid (some p) ps h = ground arith

  entry-finds :
      (exes : List Text) (pid : ℤ) (s x : Text) (o : Option ℤ) (t : ℕ) (found : Option Process)
      (ps : List Process)
      → IsSteady pid s x
      → is_one_of exes x ≡ true
      → o ≡ some pid
      → inspect_entry proc exes o t ≡ ok found
      → has_pid pid (push proc found ps) ≡ true
  unfolding has_pid
  entry-finds exes pid s x o t found ps steady good this run =
      let run' : inspect proc exes pid t ≡ ok found =
        subst (λ q. inspect_entry proc exes q t ≡ ok found) this run in
      let (h, e) =
        acquire-finds pid s x (t + 2) steady
          (sym (inspect-acquire exes pid s x t steady good) ∙ run') in
      rw (e, int_eq_refl pid) refl

  scan-finds :
      (exes : List Text) (pid : ℤ) (s x : Text) (names : List (Option Text)) (t : ℕ)
      {ps : List Process}
      → IsSteady pid s x
      → is_one_of exes x ≡ true
      → any (λ n. is_pid (pid_of n) pid) names ≡ true
      → scan proc exes names t ≡ ok ps
      → has_pid pid ps ≡ true
  unfolding scan
  scan-finds exes pid s x [] t steady good there run = cc
  scan-finds exes pid s x (name ∷ names) t {ps = ps} steady good there run =
      elim (Result-cases (inspect_entry proc exes (pid_of name) t)) [
        | inr (e, bad) ↦ absurd (ground arith)
        | inl (found, one) ↦ elim (Result-cases (scan proc exes names (t + 5))) [
          | inr (e, bad) ↦ absurd (ground arith)
          | inl (qs, rest) ↦
              let all : push proc found qs ≡ ps = ok-injective (ground arith) in
              elim (Bool-cases (is_pid (pid_of name) pid)) [
                | inl this ↦
                    subst (λ l. has_pid pid l ≡ true) all
                      (entry-finds exes pid s x (pid_of name) t found qs steady good
                        (is_pid-≡ (pid_of name) pid this) one)
                | inr not_this ↦
                    subst (λ l. has_pid pid l ≡ true) all
                      (push-keeps pid found qs
                        (scan-finds exes pid s x names (t + 5) steady good (ground arith) rest))
              ]
        ]
      ]

  -- No server is missed: a process that keeps its number, its start and its program, one of those that
  -- are asked for, and that the listing of /proc names, is among those that `processes` returns.
  pub processes-finds :
      (exes : List Text) (pid : ℤ) (s x : Text) (t : ℕ) {names : List (Option Text)}
      {ps : List Process}
      → IsSteady pid s x
      → is_one_of exes x ≡ true
      → proc.names t ≡ ok names
      → any (λ n. is_pid (pid_of n) pid) names ≡ true
      → processes proc exes t ≡ ok ps
      → any (λ p. int_eq p.pid pid) ps ≡ true
  unfolding has_pid processes
  processes-finds exes pid s x t {names = names} steady good listed there run =
      scan-finds exes pid s x names (t + 1) steady good there (rw (listed, processes) at run)
