-- ===== src/App/History/Starting.antt =====
-- The invariant of App/History over `launch` and `start` of main.rs.
use android_smb_for_ksu.Common.{
  ℕ, ◌≡◌, refl, Bool, true, false, not, inl, inr, if◌then◌else◌, Bool-cases, ok, Error,
}
use android_smb_for_ksu.Text.{Text, chars}
use android_smb_for_ksu.Config.Map
use android_smb_for_ksu.Config.Map.{Config}
use android_smb_for_ksu.Config.Shape.{HasKeys}
use android_smb_for_ksu.App.World.{try_ask, log, open_log, Env, pure, ask, ◌>>=◌, ◌>>◌, when}
use android_smb_for_ksu.App.Rules.{Keeps, Ensures, Keeps-bind, Keeps-lift, Keeps-ask, keeps_rules}
use android_smb_for_ksu.App.Steps.{Keeps-given, Keeps-narrow, lift-given}
use android_smb_for_ksu.App.Frame.{
  effective-Keeps, ready-Keeps, prepare_logs-Keeps, check_helpers-Keeps, halt_with-Keeps,
  await_ready-Keeps,
}
use android_smb_for_ksu.App.Server.{setting, helpers}
use android_smb_for_ksu.App.Conf.{conf_ifaces, conf}
use android_smb_for_ksu.App.Control.{
  spawn, halt_with, await_ready, record_start, launch, defer, relaunch, start_unlocked, start,
  prepare_logs, check_helpers, enabled_key, one,
}
use android_smb_for_ksu.App.History.{IsAccepted, IsUnlocked, IsMade, IsSound, Anything}
use android_smb_for_ksu.App.History.Saving.{Sound-IsFramed}
use android_smb_for_ksu.App.History.Launching.{
  usermap-Keeps, settings-Keeps, Known, write_conf-Keeps, write_mode-Keeps, conf-Ensures,
}
use android_smb_for_ksu.App.History.Records.{
  record_enabled-Keeps, halt_all-Keeps, password_all-Keeps, defer-Keeps,
}

module _ (env : Env) (runtime : Text) where
  -- the smb.conf that smbd reads is the one that `conf` has just written
  spawn-Keeps : Keeps (Known env runtime) (spawn env runtime)
  unfolding spawn
  spawn-Keeps = record {
    at = λ w h. elim (Bool-cases (env.launch w.now).spawned) [
      | inl there ↦
          rw (there) (record { loads = h.loads; made = (h.known, h.made); known = h.known })
      | inr left ↦ rw (left) (record { loads = h.loads; made = h.made; known = h.known })
    ];
  }

  conf_ifaces-Keeps : (c : Config) → Keeps (IsSound env runtime) (conf_ifaces env runtime c)
  unfolding conf_ifaces
  conf_ifaces-Keeps c =
      let timeless = (Sound-IsFramed env runtime Anything).timeless in
      search (keeps_rules, timeless, password_all-Keeps) depth 30

  conf-Keeps : (c : Config) → Keeps (IsSound env runtime) (conf env runtime c)
  unfolding conf
  conf-Keeps c =
      let f = Sound-IsFramed env runtime Anything in
      let timeless = f.timeless in
      search
        (
          keeps_rules,
          timeless,
          conf_ifaces-Keeps,
          effective-Keeps f env,
          usermap-Keeps env runtime Anything,
          settings-Keeps env runtime Anything,
          write_mode-Keeps env runtime Anything,
          write_conf-Keeps env runtime,
        )
        depth 40

  module _ (c : Config) (accepted : IsAccepted c) (unlocked : IsUnlocked env c) where
    launched-Keeps : Keeps (Known env runtime) (do
      try_ask env.inotify
      open_log env (chars "smbd.stdout.log")
      open_log env (chars "smbd.stderr.log")
      success ← spawn env runtime
      when (not success) (halt_with env runtime Error.launch_failed)
      rounds ← ask env.rounds
      await_ready env runtime c rounds
      record_start env runtime (Map.insert enabled_key one c)
      log env (chars "START ready: owned listeners verified")
      pure (Map.insert enabled_key one c))
    launched-Keeps =
        let f = Sound-IsFramed env runtime (IsMade env runtime) in
        let timeless = f.timeless in
        let halted = halt_with-Keeps f env runtime in
        let waited = await_ready-Keeps f env runtime c in
        let shape : HasKeys c = accepted.0 in
        search
          (
            keeps_rules,
            timeless,
            halted,
            waited,
            record_enabled-Keeps env runtime (IsMade env runtime),
            spawn-Keeps,
            shape,
          )
          depth 30

    launch-Keeps : Keeps (IsSound env runtime) (launch env runtime c)
    unfolding launch
    launch-Keeps =
        Keeps-narrow (λ u. Known env runtime) (conf env runtime c) _
          (λ u w h. record { loads = h.loads; made = h.made; known = tt }) (conf-Keeps c)
          (conf-Ensures env runtime c accepted unlocked) (λ u. launched-Keeps)

    relaunch-Keeps : Keeps (IsSound env runtime) (relaunch env runtime c)
    unfolding relaunch
    relaunch-Keeps = search (keeps_rules, halt_all-Keeps env runtime Anything, launch-Keeps)

    start_unlocked-Keeps : Keeps (IsSound env runtime) (start_unlocked env runtime c)
    unfolding start_unlocked
    start_unlocked-Keeps =
        let found = ready-Keeps (Sound-IsFramed env runtime Anything) env in
        search (keeps_rules, found, relaunch-Keeps) depth 10

  storage-given :
      (path : Text)
      → Ensures
          (IsSound env runtime)
          (ask (λ t. env.storage_ready t path))
          (λ unlocked w. IsSound env runtime w × ((t : ℕ) × (env.storage_ready t path ≡ unlocked)))
  unfolding ask
  storage-given path = record {
    post = λ w h. (record { loads = h.loads; made = h.made; known = h.known }, (w.now, refl));
  }

  pub start-Keeps : (c : Config) → IsAccepted c → Keeps (IsSound env runtime) (start env runtime c)
  unfolding start
  start-Keeps c accepted =
      let f = Sound-IsFramed env runtime Anything in
      Keeps-bind (prepare_logs env runtime) _ (prepare_logs-Keeps f env runtime) (λ u.
        Keeps-bind (check_helpers env runtime helpers) _ (check_helpers-Keeps f env runtime helpers)
          (λ v.
            Keeps-given (λ path. Map.index c (chars "SHARE_PATH") ≡ ok path)
              (setting c (chars "SHARE_PATH")) _ (Keeps-lift _) (lift-given _)
              (λ path named.
                Keeps-given (λ unlocked. (t : ℕ) × (env.storage_ready t path ≡ unlocked))
                  (ask (λ t. env.storage_ready t path)) _ (Keeps-ask f.timeless _)
                  (storage-given path) (λ unlocked found. decide path named unlocked found))))
    where
      decide :
          (path : Text)
          → Map.index c (chars "SHARE_PATH") ≡ ok path
          → (unlocked : Bool) → (t : ℕ) × (env.storage_ready t path ≡ unlocked)
          → Keeps
              (IsSound env runtime)
              (if unlocked then start_unlocked env runtime c else defer env runtime c)
      decide path named true found = start_unlocked-Keeps c accepted (found.0, path, named, found.1)
      decide path named false found = defer-Keeps env runtime Anything c accepted.0
