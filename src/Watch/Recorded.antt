-- ===== src/Watch/Recorded.antt =====
-- The file watch.pid over the run of a watcher (native/smbctl/src/watch.rs): `stop` reads in it the number
-- of the watcher that runs.
use android_smb_for_ksu.Common.{
  ℕ, ◌^◌, ◌-◌, ◌≤◌, ◌≡◌, refl, ◌∙◌, ap, pos, false, List, [], ◌∷◌, none, some, Result, ok, err,
  Bool-cases, inl, inr, ◌⊎◌, ◌≢◌,
}
use android_smb_for_ksu.Text.{Text, str_eq}
use android_smb_for_ksu.Text.Lemmas.{str_eq_refl}
use android_smb_for_ksu.App.World.{Env, World, raise, write_file, remove_file}
use android_smb_for_ksu.App.Rules.{
  Keeps, Ensures, Ensures-bind, Ensures-any, Ensures-pure, Ensures-run, keeps_rules,
}
use android_smb_for_ksu.App.Steps.{Ensures-then}
use android_smb_for_ksu.Os.Lock.{Acquired, acquired, failed, would_block, other}
use android_smb_for_ksu.App.Untouched.{IsOther, Holds}
use android_smb_for_ksu.App.Untouched.Kept.{reconcile-Holds}
use android_smb_for_ksu.Watch.Run.{Watcher, Answers, Turn, next, returned, replaced}
use android_smb_for_ksu.Watch.Setup.{
  watch_pid, Setup, Ending, another, running, ended, reborn, prepare, attempt, turn_with,
  after_turn, loop, finish, start, begin, run,
}
use android_smb_for_ksu.Watch.Stop.{recorded, as_pid}
use android_smb_for_ksu.Storage.Decimal.{show_u32, parse_int-show_u32}

recorded-show_u32 : (n : ℕ) → n ≤ 2 ^ 31 - 1 → recorded (some (show_u32 n)) ≡ pos n
unfolding recorded
recorded-show_u32 n fits = ap as_pid (parse_int-show_u32 n fits)

watch_pid-IsOther : IsOther watch_pid
unfolding str_eq
watch_pid-IsOther = (refl, (refl, (refl, (refl, (refl, (refl, (refl, (refl, (refl, tt)))))))))

module _ (env : Env) (runtime : Text) (s : Setup) where
  abbrev pub Written : World → Type 0
  Written = Holds watch_pid (some (show_u32 s.pid))

  write_pid-Ensures : Ensures (λ w. Unit) (write_file env watch_pid (show_u32 s.pid)) (λ u. Written)
  unfolding write_file
  write_pid-Ensures = record {
    post = λ w h. elim (Bool-cases (env.write_ok w.now)) [
      | inl there ↦ rw (there, str_eq_refl watch_pid) refl
      | inr lost ↦ rw (lost) tt
    ];
  }

  pub prepare-Ensures : Ensures (λ w. Unit) (prepare env runtime s) (λ u. Written)
  unfolding prepare
  prepare-Ensures =
      Ensures-bind (λ a w. Unit) _ _ (Ensures-any _)
        (λ a.
          Ensures-bind (λ b w. Unit) _ _ (Ensures-any _)
            (λ b.
              Ensures-bind (λ c w. Unit) _ _ (Ensures-any _)
                (λ c.
                  Ensures-bind (λ d w. Unit) _ _ (Ensures-any _)
                    (λ d.
                      Ensures-bind (λ e w. Unit) _ _ (Ensures-any _)
                        (λ e.
                          Ensures-bind (λ f w. Unit) _ _ (Ensures-any _)
                            (λ f.
                              Ensures-bind (λ g w. Unit) _ _ (Ensures-any _)
                                (λ g. write_pid-Ensures)))))))

  attempt-Written : Keeps Written (attempt env runtime)
  unfolding attempt
  attempt-Written = record {
    at = λ w h. (reconcile-Holds env runtime watch_pid _ watch_pid-IsOther).at w h;
  }

  turn_with-Written : (k : Watcher) (a : Answers) → Keeps Written (turn_with env runtime k a)
  unfolding turn_with
  turn_with-Written k a = search (keeps_rules, attempt-Written) depth 10

  -- the loop keeps the file, and is not left as if another watcher ran
  abbrev pub InLoop : Ending → World → Type 0
  InLoop e v = Written v × (e ≢ another)

  after_turn-Ensures :
      (t : Turn) (on : Watcher → World → Result Ending × World)
      → ((k : Watcher) → Ensures Written (on k) InLoop)
      → Ensures Written (after_turn env runtime t on) InLoop
  unfolding raise
  after_turn-Ensures (next k) on h = h k
  after_turn-Ensures (returned (ok u)) on h = Ensures-pure ended (λ v k. (k, λ e. cc))
  after_turn-Ensures (returned (err e)) on h = record { post = λ v k. tt }
  after_turn-Ensures replaced on h = Ensures-pure reborn (λ v k. (k, λ e. cc))

  pub loop-Ensures :
      (answers : List Answers) (k : Watcher) → Ensures Written (loop env runtime answers k) InLoop
  unfolding loop
  loop-Ensures [] k = Ensures-pure (running k) (λ v h. (h, λ e. cc))
  loop-Ensures (a ∷ later) k =
      Ensures-then (turn_with env runtime k a) _ (turn_with-Written k a)
        (λ t. after_turn-Ensures t (loop env runtime later) (loop-Ensures later))

  -- what is in watch.pid at the end of `run`, which has begun in the state `w`
  abbrev pub IsRecorded : World → Ending → World → Type 0
  IsRecorded w another v = v ≡ w
  IsRecorded w (running k) v = recorded (v.files watch_pid) ≡ pos s.pid
  IsRecorded w reborn v = recorded (v.files watch_pid) ≡ pos s.pid
  IsRecorded w ended v = (v.files watch_pid ≡ none) ⊎ ((t : ℕ) × (env.remove_ok t ≡ false))

  module _ (fits : s.pid ≤ 2 ^ 31 - 1) (w : World) where
    Written-recorded : (v : World) → Written v → recorded (v.files watch_pid) ≡ pos s.pid
    Written-recorded v h = ap recorded h ∙ recorded-show_u32 s.pid fits

    removed : Ensures (λ v. Unit) (remove_file env watch_pid) (λ u. IsRecorded w ended)
    unfolding remove_file
    removed = record {
      post = λ v h. elim (Bool-cases (env.remove_ok v.now)) [
        | inl there ↦ rw (there, str_eq_refl watch_pid) (inl refl)
        | inr lost ↦ rw (lost) (inr (v.now, lost))
      ];
    }

    finish-Ensures :
        (e : Ending) → e ≢ another → Ensures Written (finish env runtime e) (IsRecorded w)
    finish-Ensures another h = absurd (h refl)
    finish-Ensures (running k) h = Ensures-pure (running k) Written-recorded
    finish-Ensures reborn h = Ensures-pure reborn Written-recorded
    finish-Ensures ended h =
        Ensures-bind (λ u. IsRecorded w ended) (remove_file env watch_pid) _
          (record { post = λ v k. removed.post v tt }) (λ u. Ensures-pure ended (λ v k. k))

    start-Ensures :
        (answers : List Answers) → Ensures (λ v. Unit) (start env runtime s answers) (IsRecorded w)
    unfolding start
    start-Ensures answers =
        Ensures-bind (λ u. Written) (prepare env runtime s) _ prepare-Ensures
          (λ u.
            Ensures-bind InLoop (loop env runtime answers _) _ (loop-Ensures answers _)
              (λ e. record { post = λ v h. (finish-Ensures e h.1).post v h.0 }))

    begin-Ensures :
        (a : Acquired) (answers : List Answers)
        → Ensures (λ v. v ≡ w) (begin env runtime a s answers) (IsRecorded w)
    unfolding begin raise
    begin-Ensures acquired answers = record { post = λ v h. (start-Ensures answers).post v tt }
    begin-Ensures (failed would_block) answers = Ensures-pure another (λ v h. h)
    begin-Ensures (failed other) answers = record { post = λ v h. tt }

-- When another watcher holds watch.lock, `run` changes nothing. Else, as long as the loop runs, and when
-- it is replaced by a new watcher, `stop` reads in watch.pid the number of this one, whatever its passes
-- have done; and once the loop has been left by a signal the file is gone, unless it could not be
-- removed. The number is at most the largest `i32`.
pub run-recorded :
    (env : Env) (runtime : Text) (s : Setup) (answers : List Answers) (w : World) {e : Ending}
    {v : World}
    → s.pid ≤ 2 ^ 31 - 1
    → run env runtime s answers w ≡ (ok e, v)
    → IsRecorded env runtime s w e v
unfolding run
run-recorded env runtime s answers w fits h =
    Ensures-run (begin-Ensures env runtime s fits w _ answers) refl h
