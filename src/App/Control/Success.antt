-- ===== src/App/Control/Success.antt =====
-- When `start` (native/smbctl/src/main.rs) reports success.
use android_smb_for_ksu.Common.{
  ℕ, zero, suc, ◌≡◌, refl, sym, ap, ◌∙◌, ◌⊎◌, Bool, true, false, not, Result, Error, ok, err, inl,
  inr, Bool-cases,
}
use android_smb_for_ksu.Text.{Text, chars}
use android_smb_for_ksu.Config.Map
use android_smb_for_ksu.Config.Map.{Config}
use android_smb_for_ksu.App.World.{
  try_ask, log, open_log, Env, World, M, raise, ask, fail_if, when, write_file, remove_file,
}
use android_smb_for_ksu.App.Rules.{
  Keeps-log, Keeps, Ensures, Post, Ensures-any, Ensures-bind, Ensures-pure, Ensures-if, Ensures-run,
  Keeps-Ensures, keeps_rules, IsTimeless, Ensures-weaken, Ensures-lift,
}
use android_smb_for_ksu.App.Server.{helpers, setting, halt, save, ready}
use android_smb_for_ksu.App.Conf.{conf}
use android_smb_for_ksu.App.Card.{card}
use android_smb_for_ksu.App.Control.{
  prepare_logs, check_helpers, spawn, halt_with, await_ready, record_start, launch, defer, relaunch,
  start_unlocked, start, enabled_key, one,
}
use android_smb_for_ksu.App.Control.Halt.{NoneOf, halt-Ensures, save-NoneOf, card-NoneOf}

-- `ready` has answered that the listeners are owned, and the server processes that it has found are
-- those that are running now
abbrev pub IsConfirmed : Env → Config → World → Type 0
IsConfirmed env c w =
    (v : World) × (v' : World) × (ready env c v ≡ (ok true, v')) × (v'.servers ≡ w.servers)

Post-self :
    {A : Type 0} (m : World → Result A × World) (v : World) (r : Result A) (w : World)
    → m v ≡ (r, w)
    → Post
        (λ a u. (v : World) × (v' : World) × (m v ≡ (ok a, v')) × (v'.servers ≡ u.servers))
        (r, w)
Post-self m v (ok a) w e = (v, w, e, refl)
Post-self m v (err x) w e = tt

Ensures-raise {ℓ} :
    {A : Type ℓ} {P : World → Type 0} {Q : A → World → Type 0} (e : Error)
    → Ensures P (raise {A = A} e) Q
unfolding raise
Ensures-raise e = record { post = λ w h. tt }

Ensures-unless :
    {X : World → Type 0} (b : Bool) (m : M (Unit {0}))
    → Ensures (λ w. Unit) m (λ u. X)
    → Ensures (λ w. b ≡ true → X w) (when (not b) m) (λ u. X)
Ensures-unless true m e = Ensures-pure tt (λ w h. h refl)
Ensures-unless false m e = record { post = λ w h. e.post w tt }

module _ (env : Env) (runtime : Text) (c : Config) where
  -- what `ready` has answered
  ready-IsConfirmed : Ensures (λ w. Unit) (ready env c) (λ b w. b ≡ true → IsConfirmed env c w)
  ready-IsConfirmed =
      let m = ready env c in
      let answered : Bool → World → Type 0 = λ b u.
        (v : World) × (v' : World) × (ready env c v ≡ (ok b, v')) × (v'.servers ≡ u.servers) in
      Ensures-weaken answered (λ b w. b ≡ true → IsConfirmed env c w) m
        (record { post = λ w h. Post-self m w (m w).0 (m w).1 refl })
        (λ b w h e. (h.0, h.1, h.2 ∙ ap (λ x. (ok x, h.1)) e, h.3))

  halt_with-fails :
      {P : World → Type 0} {X : World → Type 0} (e : Error)
      → Ensures P (halt_with env runtime e) (λ u. X)
  unfolding halt_with
  halt_with-fails e =
      Ensures-bind (λ u w. Unit) (halt env) _ (Ensures-any (halt env)) (λ u. Ensures-raise e)

  await_ready-IsConfirmed :
      (n : ℕ) → Ensures (λ w. Unit) (await_ready env runtime c n) (λ u w. IsConfirmed env c w)
  unfolding await_ready
  await_ready-IsConfirmed zero =
      Ensures-bind (λ b w. b ≡ true → IsConfirmed env c w) (ready env c) _ ready-IsConfirmed
        (λ b. Ensures-unless b _ (halt_with-fails Error.listeners_not_owned))
  await_ready-IsConfirmed (suc n) =
      Ensures-bind (λ b w. b ≡ true → IsConfirmed env c w) (ready env c) _ ready-IsConfirmed
        (λ b. Ensures-unless b _ (
          Ensures-bind (λ u w. Unit) (ask env.poll_ok) _ (Ensures-any (ask env.poll_ok))
            (λ polled.
              Ensures-bind (λ u w. Unit) (fail_if (not polled) Error.io) _
                (Ensures-any (fail_if (not polled) Error.io)) (λ u. await_ready-IsConfirmed n))))

  write_file-Keeps : (p t : Text) → Keeps (IsConfirmed env c) (write_file env p t)
  unfolding write_file
  write_file-Keeps p t = record {
    at = λ w h. elim (Bool-cases (env.write_ok w.now)) [
      | inl there ↦ rw (there) h
      | inr left ↦ rw (left) h
    ];
  }

  remove_file-Keeps : (p : Text) → Keeps (IsConfirmed env c) (remove_file env p)
  unfolding remove_file
  remove_file-Keeps p = record {
    at = λ w h. elim (Bool-cases (env.remove_ok w.now)) [
      | inl there ↦ rw (there) h
      | inr left ↦ rw (left) h
    ];
  }

  save-Keeps : (c' : Config) → Keeps (IsConfirmed env c) (save env c')
  unfolding save
  save-Keeps c' = search (keeps_rules, write_file-Keeps)

  record_start-Keeps : (c' : Config) → Keeps (IsConfirmed env c) (record_start env runtime c')
  unfolding record_start
  record_start-Keeps c' =
      let timeless : IsTimeless (IsConfirmed env c) = λ w x t h. h in
      search (keeps_rules, timeless, save-Keeps, write_file-Keeps, remove_file-Keeps) depth 20

  launch-IsConfirmed : Ensures (λ w. Unit) (launch env runtime c) (λ c' w. IsConfirmed env c w)
  unfolding launch
  launch-IsConfirmed =
      Ensures-bind (λ u w. Unit) (conf env runtime c) _ (Ensures-any _)
        (λ u₁.
          Ensures-bind (λ u w. Unit) (try_ask env.inotify) _ (Ensures-any _)
            (λ u₆.
              Ensures-bind (λ u w. Unit) (open_log env (chars "smbd.stdout.log")) _ (Ensures-any _)
                (λ u₂.
                  Ensures-bind (λ u w. Unit) (open_log env (chars "smbd.stderr.log")) _
                    (Ensures-any _)
                    (λ u₇.
                      Ensures-bind (λ u w. Unit) (spawn env runtime) _ (Ensures-any _)
                        (λ success.
                          Ensures-bind (λ u w. Unit)
                            (when (not success) (halt_with env runtime Error.launch_failed)) _
                            (Ensures-any _)
                            (λ u₃.
                              Ensures-bind (λ u w. Unit) (ask env.rounds) _ (Ensures-any _)
                                (λ rounds.
                                  Ensures-bind (λ u w. IsConfirmed env c w)
                                    (await_ready env runtime c rounds) _
                                    (await_ready-IsConfirmed rounds)
                                    (λ u₄.
                                      Ensures-bind (λ u w. IsConfirmed env c w)
                                        (record_start env runtime (Map.insert enabled_key one c)) _
                                        (Keeps-Ensures
                                          (record_start-Keeps (Map.insert enabled_key one c)))
                                        (λ u₅.
                                          Ensures-bind (λ u w. IsConfirmed env c w) (log env _) _
                                            (Keeps-Ensures (Keeps-log (λ w x t h. h) env _))
                                            (λ u₈. Ensures-pure _ (λ w h. h)))))))))))

  -- the storage is locked, and no helper is left
  abbrev pub IsDeferred : World → Type 0
  IsDeferred w =
      ((t : ℕ) × (env.storage_ready t (Map.value c (chars "SHARE_PATH")) ≡ false))
      × NoneOf env helpers w

  start_unlocked-IsConfirmed :
      Ensures (λ w. Unit) (start_unlocked env runtime c) (λ c' w. IsConfirmed env c w)
  unfolding start_unlocked relaunch
  start_unlocked-IsConfirmed =
      Ensures-bind (λ b w. b ≡ true → IsConfirmed env c w) (ready env c) _ ready-IsConfirmed
        (λ b.
          Ensures-if b _ _ (λ e. Ensures-pure c (λ w h. h e))
            (λ e. record { post = λ w h. again.post w tt }))
    where
      again : Ensures (λ w. Unit) (relaunch env runtime c) (λ c' w. IsConfirmed env c w)
      again =
          Ensures-bind (λ u w. Unit) (halt env) _ (Ensures-any (halt env)) (λ u. launch-IsConfirmed)

  defer-NoneOf : Ensures (λ w. Unit) (defer env runtime c) (λ c' w. NoneOf env helpers w)
  unfolding defer
  defer-NoneOf =
      let c' = Map.insert enabled_key one c in
      Ensures-bind (λ u. NoneOf env helpers) (halt env) _ (halt-Ensures env)
        (λ u₁.
          Ensures-bind (λ u. NoneOf env helpers) (save env c') _
            (Keeps-Ensures (save-NoneOf env helpers c'))
            (λ u₂.
              Ensures-bind (λ u. NoneOf env helpers) (card env) _
                (Keeps-Ensures (card-NoneOf env helpers)) (λ u₃. Ensures-pure c' (λ w h. h))))

  ask-storage :
      (path : Text)
      → Ensures
          (λ w. Map.index c (chars "SHARE_PATH") ≡ ok path)
          (ask (λ t. env.storage_ready t path))
          (λ b w. (t : ℕ) × (b ≡ env.storage_ready t (Map.value c (chars "SHARE_PATH"))))
  unfolding ask
  ask-storage path = record {
    post = λ w h. (w.now, ap (env.storage_ready w.now) (Map.index-value c (chars "SHARE_PATH") h));
  }

  deferred :
      (t : ℕ)
      → env.storage_ready t (Map.value c (chars "SHARE_PATH")) ≡ false
      → Ensures (λ w. Unit) (defer env runtime c) (λ c' w. IsConfirmed env c w ⊎ IsDeferred w)
  deferred t e =
      Ensures-weaken (λ c' w. NoneOf env helpers w) (λ c' w. IsConfirmed env c w ⊎ IsDeferred w)
        (defer env runtime c) defer-NoneOf (λ c' w h. inr ((t, e), h))

  start-Ensures :
      Ensures (λ w. Unit) (start env runtime c) (λ c' w. IsConfirmed env c w ⊎ IsDeferred w)
  unfolding start
  start-Ensures =
      Ensures-bind (λ u w. Unit) (prepare_logs env runtime) _ (Ensures-any _)
        (λ u₁.
          Ensures-bind (λ u w. Unit) (check_helpers env runtime helpers) _ (Ensures-any _)
            (λ u₂.
              Ensures-bind (λ path w. Map.index c (chars "SHARE_PATH") ≡ ok path)
                (setting c (chars "SHARE_PATH")) _ (Ensures-lift _)
                (λ path.
                  Ensures-bind _ (ask (λ t. env.storage_ready t path)) _ (ask-storage path)
                    (λ unlocked.
                      Ensures-if unlocked _ _
                        (λ e.
                          Ensures-weaken (λ c' w. IsConfirmed env c w) _ _
                            start_unlocked-IsConfirmed (λ c' w h. inl h))
                        (λ e. record { post = λ w h. (deferred h.0 (sym h.1 ∙ e)).post w tt })))))

  -- `start` reports success only if the server processes that it leaves are those that `ready` has
  -- found to own the listeners, or if the share's storage was locked and it leaves no server program.
  pub start-IsConfirmed :
      {c' : Config} (w : World) {w' : World}
      → start env runtime c w ≡ (ok c', w')
      → IsConfirmed env c w' ⊎ IsDeferred w'
  start-IsConfirmed w run = Ensures-run start-Ensures tt run
