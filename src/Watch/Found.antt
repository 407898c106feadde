-- ===== src/Watch/Found.antt =====
-- `stop` and the watcher that runs (native/smbctl/src/watch.rs).
use android_smb_for_ksu.Common.{
  ℕ, ◌-◌, ◌^◌, ◌≤◌, ◌≡◌, refl, subst, ℤ, pos, Bool, true, List, [], ◌∷◌, Option, some, any, Result,
  ok, err, int_eq, int_eq-≡, inl, inr, Bool-cases, ok-injective,
}
use android_smb_for_ksu.Text.{Text, chars, is_one_of}
use android_smb_for_ksu.Text.Lemmas.{str_eq_refl}
use android_smb_for_ksu.Os.Processes.{Proc, Process, processes, pid_of}
use android_smb_for_ksu.Os.Found.{IsSteady, is_pid, processes-finds}
use android_smb_for_ksu.App.World.{Env, World}
use android_smb_for_ksu.Watch.Run.{Watcher, Answers}
use android_smb_for_ksu.Watch.Setup.{Setup, running, run, watch_pid}
use android_smb_for_ksu.Watch.Stop.{recorded, has_argument, keep_if, keep_ok, is_watcher, stop}
use android_smb_for_ksu.Watch.Recorded.{run-recorded}

abbrev has_pid : ℤ → List Process → Bool
has_pid pid ps = any (λ p. int_eq p.pid pid) ps

-- what passes the test is kept
any-keep_if :
    (pid : ℤ) (test : Process → Bool) (ps : List Process)
    → ((p : Process) → int_eq p.pid pid ≡ true → test p ≡ true)
    → has_pid pid ps ≡ true
    → has_pid pid (keep_if test ps) ≡ true
unfolding keep_if
any-keep_if pid test [] h there = cc
any-keep_if pid test (p ∷ ps) h there = elim (Bool-cases (int_eq p.pid pid)) [
  | inl this ↦ rw (h p this, keep_if) (rw this refl)
  | inr not_this ↦
      let rest = any-keep_if pid test ps h (rw not_this at there) in
      elim (Bool-cases (test p)) [
        | inl kept ↦ rw (kept, keep_if, not_this) rest
        | inr out ↦ rw (out, keep_if) rest
      ]
]

is_watcher-running :
    (proc : Proc) (pid : ℤ) (u : ℕ) (b : List ℕ) (p : Process)
    → proc.cmdline pid u ≡ some b
    → has_argument b (chars "watch") ≡ true
    → int_eq p.pid pid ≡ true
    → is_watcher proc pid u p ≡ true
unfolding is_watcher
is_watcher-running proc pid u b p line argument this =
    rw (this, int_eq-≡ p.pid pid this, line, argument, is_watcher) refl

keep_ok-finds :
    (pid : ℤ) (test : Process → Bool) (found : Result (List Process)) {ps : List Process}
    → ((p : Process) → int_eq p.pid pid ≡ true → test p ≡ true)
    → ((qs : List Process) → found ≡ ok qs → has_pid pid qs ≡ true)
    → keep_ok test found ≡ ok ps
    → has_pid pid ps ≡ true
keep_ok-finds pid test (err e) h there run = cc
keep_ok-finds pid test (ok qs) h there run =
    subst (λ l. has_pid pid l ≡ true) (ok-injective run) (any-keep_if pid test qs h (there qs refl))

itself : (exe : Text) → is_one_of (exe ∷ []) exe ≡ true
unfolding is_one_of
itself exe = rw (str_eq_refl exe) refl

-- The watcher that runs is among the processes that `stop` ends: after any turns of `run`, `stop` reads
-- watch.pid and, if it succeeds in looking for processes, hands to `terminate` one with the number of the
-- watcher. The watcher keeps its number, at most the largest `i32`, and its program, the listing of
-- /proc names it, and its command line has the argument `watch`.
pub stop-finds :
    (env : Env) (runtime : Text) (s : Setup) (answers : List Answers) (w : World) {k : Watcher}
    {v : World} (proc : Proc) (exe seen : Text) (t u : ℕ) {names : List (Option Text)} {b : List ℕ}
    {ps : List Process}
    → s.pid ≤ 2 ^ 31 - 1
    → run env runtime s answers w ≡ (ok (running k), v)
    → IsSteady proc (pos s.pid) seen exe
    → proc.names t ≡ ok names
    → any (λ n. is_pid proc (pid_of n) (pos s.pid)) names ≡ true
    → proc.cmdline (pos s.pid) u ≡ some b
    → has_argument b (chars "watch") ≡ true
    → stop proc (v.files watch_pid) (ok exe) t u ≡ ok ps
    → any (λ p. int_eq p.pid (pos s.pid)) ps ≡ true
unfolding stop
stop-finds env runtime s answers w {v = v} proc exe seen t u {b = b} fits runs steady listed there
      line argument stops =
    let read : recorded (v.files watch_pid) ≡ pos s.pid =
      run-recorded env runtime s answers w fits runs in
    keep_ok-finds (pos s.pid) (is_watcher proc (recorded (v.files watch_pid)) u)
      (processes proc (exe ∷ []) t)
      (λ p this. rw read (is_watcher-running proc (pos s.pid) u b p line argument this))
      (λ qs found.
        processes-finds proc (exe ∷ []) (pos s.pid) seen exe t steady (itself exe) listed there
          found)
      stops
