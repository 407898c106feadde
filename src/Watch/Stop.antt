-- ===== src/Watch/Stop.antt =====
-- `stop` of native/smbctl/src/watch.rs: which processes are handed to `terminate`. Their number is read
-- from a file that may be stale.
use android_smb_for_ksu.Common.{
  ok-injective, ℕ, ◌≡◌, refl, subst, inl, inr, arith, ℤ, pos, Bool, true, false, ◌&&◌, List, [],
  ◌∷◌, Option, none, some, if◌then◌else◌, All, All-map, Option-cases, and_left, and_right, int_eq-≡,
  any, Result, ok, err, Bool-cases, int_eq, unwrap_or,
}
use android_smb_for_ksu.Text.{Text, chars, str_eq, parse_int, trim, split, utf8}
use android_smb_for_ksu.Os.Processes.{Proc, Process, processes}
use android_smb_for_ksu.Os.Owner.{IsKernel, IsOwned, processes-IsOwned}

-- the number in a file, 0 if it cannot be read or is none
abbrev pub as_pid : Option ℤ → ℤ
as_pid none = pos 0
as_pid (some pid) = pid

unfoldable pub recorded : Option Text → ℤ
recorded file = as_pid (parse_int (trim (unwrap_or file [])))

-- an argument of a command line, in which each ends with a zero byte
unfoldable pub has_argument : List ℕ → Text → Bool
has_argument cmdline arg = any (λ v. str_eq v (utf8 arg)) (split cmdline 0)

unfoldable pub keep_if : (Process → Bool) → List Process → List Process
keep_if p [] = []
keep_if p (x ∷ xs) = let rest = keep_if p xs in if p x then x ∷ rest else rest

abbrev pub keep_ok : (Process → Bool) → Result (List Process) → Result (List Process)
keep_ok p (err e) = err e
keep_ok p (ok ps) = ok (keep_if p ps)

module _ (proc : Proc) where
  unfoldable pub is_watcher : ℤ → ℕ → Process → Bool
  is_watcher pid u p =
      int_eq p.pid pid
      && elim (proc.cmdline p.pid u) [ none ↦ false | some b ↦ has_argument b (chars "watch") ]

  -- `stop`: what is handed to `terminate`, from the file watch.pid, the own program, and the times
  -- of `processes` and of the reading of the command lines
  unfoldable pub stop : Option Text → Result Text → ℕ → ℕ → Result (List Process)
  unfolding is_watcher
  stop file (err e) t u = err e
  stop file (ok exe) t u = keep_ok (is_watcher (recorded file) u) (processes proc (exe ∷ []) t)

pub keep_if-All {κ} :
    (P : Process → Type κ) (p : Process → Bool) (ps : List Process)
    → All P ps
    → All (λ x. P x × (p x ≡ true)) (keep_if p ps)
unfolding keep_if
keep_if-All P p [] h = tt
keep_if-All P p (x ∷ xs) h = elim (Bool-cases (p x)) [
  | inl kept ↦ rw (kept, keep_if) ((h.0, kept), keep_if-All P p xs h.1)
  | inr out ↦ rw (out, keep_if) (keep_if-All P p xs h.1)
]

-- What is kept of the processes found.
pub keep_ok-All {κ} :
    (P : Process → Type κ) (p : Process → Bool) (found : Result (List Process)) {ps : List Process}
    → ((qs : List Process) → found ≡ ok qs → All P qs)
    → keep_ok p found ≡ ok ps
    → All (λ x. P x × (p x ≡ true)) ps
keep_ok-All P p (err e) h run = absurd (ground arith)
keep_ok-All P p (ok qs) h run =
    subst (All (λ x. P x × (p x ≡ true))) (ok-injective run) (keep_if-All P p qs (h qs refl))

-- a watcher by its number and its command line, as they are read at the time `u`
abbrev pub IsWatcher : Proc → ℤ → ℕ → Process → Type 0
IsWatcher proc pid u p =
    (p.pid ≡ pid)
    × ((line : List ℕ) × (proc.cmdline p.pid u ≡ some line)
        × (any (λ v. str_eq v (utf8 (chars "watch"))) (split line 0) ≡ true))

is_watcher-IsWatcher :
    (proc : Proc) (pid : ℤ) (u : ℕ) (p : Process)
    → is_watcher proc pid u p ≡ true
    → IsWatcher proc pid u p
unfolding is_watcher has_argument
is_watcher-IsWatcher proc pid u p h =
    let number : int_eq p.pid pid ≡ true = and_left _ _ h in
    let rest = and_right (int_eq p.pid pid) _ h in
    elim (Option-cases (proc.cmdline p.pid u)) [
      | inl unread ↦ absurd (ground arith)
      | inr (line, read) ↦ (int_eq-≡ p.pid pid number, (line, read, ground arith))
    ]

-- `stop` hands only watchers to `terminate`: each process has the number that watch.pid holds, 0 if it
-- holds none, and has run the own program under the handle that is signalled, and one of the arguments
-- in its command line is `watch`.
pub stop-targets :
    (proc : Proc) (owner : ℤ → ℕ → Option ℕ)
    → IsKernel proc owner
    → (file : Option Text) (exe : Text) (t u : ℕ) {ps : List Process}
    → stop proc file (ok exe) t u ≡ ok ps
    → All
        (λ p.
          IsOwned proc owner (exe ∷ []) p
          × IsWatcher proc (as_pid (parse_int (trim (unwrap_or file [])))) u p)
        ps
unfolding stop recorded
stop-targets proc owner kernel file exe t u {ps} run =
    All-map ps (λ p h. (h.0, is_watcher-IsWatcher proc (recorded file) u p h.1))
      (keep_ok-All (IsOwned proc owner (exe ∷ [])) (is_watcher proc (recorded file) u)
        (processes proc (exe ∷ []) t)
        (λ qs found. processes-IsOwned proc owner kernel (exe ∷ []) t found) run)
