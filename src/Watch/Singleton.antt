-- ===== src/Watch/Singleton.antt =====
-- The watcher gives way to another one only (watch.rs, os.rs).
use android_smb_for_ksu.Common.{ℕ, ◌≡◌, refl, true, List, some, ok, ◌≢◌}
use android_smb_for_ksu.Text.{Text}
use android_smb_for_ksu.App.World.{Env, World, pure, raise, remove_file}
use android_smb_for_ksu.App.Rules.{Ensures, Ensures-bind, Ensures-any, Ensures-pure, Ensures-run}
use android_smb_for_ksu.Os.Lock.Exclusive.{State, Reach, IsFlock, new-would_block}
use android_smb_for_ksu.Os.Lock.{Acquired, acquired, failed, would_block, other}
use android_smb_for_ksu.Watch.Run.{Answers}
use android_smb_for_ksu.Watch.Setup.{
  watch_pid, Setup, Ending, another, running, ended, reborn, prepare, loop, finish, start, begin,
  run,
}
use android_smb_for_ksu.Watch.Recorded.{Written, InLoop, prepare-Ensures, loop-Ensures}

module _ (env : Env) (runtime : Text) (s : Setup) where
  finish-another :
      (e : Ending) → e ≢ another → Ensures (λ v. Unit) (finish env runtime e) (λ d v. d ≢ another)
  finish-another another h = absurd (h refl)
  finish-another (running k) h = Ensures-pure (running k) (λ v u. h)
  finish-another reborn h = Ensures-pure reborn (λ v u. h)
  finish-another ended h =
      Ensures-bind (λ u v. Unit) (remove_file env watch_pid) _ (Ensures-any _)
        (λ u. Ensures-pure ended (λ v k. h))

  start-another :
      (answers : List Answers)
      → Ensures (λ v. Unit) (start env runtime s answers) (λ e v. e ≢ another)
  unfolding start
  start-another answers =
      Ensures-bind (λ u. Written env runtime s) (prepare env runtime s) _
        (prepare-Ensures env runtime s)
        (λ u.
          Ensures-bind (InLoop env runtime s) (loop env runtime answers _) _
            (loop-Ensures env runtime s answers _)
            (λ e. record { post = λ v h. (finish-another e h.1).post v tt }))

  begin-another :
      (a : Acquired) (answers : List Answers) (w : World) {v : World}
      → begin env runtime a s answers w ≡ (ok another, v)
      → (a ≡ failed would_block) × (v ≡ w)
  unfolding begin raise pure
  begin-another (failed would_block) answers w h = (refl, cc)
  begin-another (failed other) answers w h = cc
  begin-another acquired answers w h = absurd (Ensures-run (start-another answers) tt h refl)

-- A watcher gives up without an error only if another one runs, and does nothing: where processes take
-- and drop watch.lock in any order, `run` of the process `i` returns so early only if another process is
-- inside then, and leaves files and servers as they are. `open` does not fail with EWOULDBLOCK.
pub run-another :
    (env : Env) (runtime : Text) (s : Setup) (answers : List Answers) (w : World) {v : World}
    {processes : State} (i : ℕ)
    → Reach true processes
    → IsFlock processes.held i s.lock_singleton
    → s.open_singleton ≢ some would_block
    → run env runtime s answers w ≡ (ok another, v)
    → (v ≡ w) × ((j : ℕ) × (j ≢ i) × (processes.inside j ≡ true))
unfolding run
run-another env runtime s answers w i r law opens h =
    let (refused, same) = begin-another env runtime s _ answers w h in
    (same, new-would_block i s.open_singleton s.lock_singleton r law opens refused)
