-- ===== src/App/Untouched.antt =====
-- The files that the actions of `App` (native/smbctl/src/main.rs) and the watcher (watch.rs) leave as they
-- are.
pub mod Kept
use android_smb_for_ksu.Common.{
  ℕ, zero, suc, ◌≡◌, refl, Bool, true, false, not, ◌&&◌, List, [], ◌∷◌, Option, none, some, inl,
  inr, Bool-cases, All, Error, if◌then◌else◌, Result, is_empty, ok_or,
}
use android_smb_for_ksu.Text.{Text, chars, str_eq}
use android_smb_for_ksu.Config.Map
use android_smb_for_ksu.Config.Map.{Config}
use android_smb_for_ksu.Os.Network.{Address}
use android_smb_for_ksu.App.World.{
  Env, World, pure, lift, ask, try_ask, fail_if, write_file, remove_file, exists, ◌>>=◌, ◌>>◌, when,
}
use android_smb_for_ksu.App.Rules.{
  IsTimeless, Keeps, Keeps-bind, Keeps-pure, Keeps-lift, keeps_rules,
}
use android_smb_for_ksu.App.Frame.{
  IsFramed, write_file-Keeps, remove_file-Keeps, password-Keeps, effective-Keeps, halt-Keeps,
  card-Keeps, ready-Keeps, prepare_logs-Keeps, check_helpers-Keeps, halt_with-Keeps,
  await_ready-Keeps, pids-Keeps, load-Keeps, exists-Keeps, read_or_empty-Keeps,
}
use android_smb_for_ksu.App.Server.{
  config_file, passwd_file, load, save, halt, pids, password, ready,
}
use android_smb_for_ksu.App.Card.{prop_file, card}
use android_smb_for_ksu.App.Conf.{conf_file, conf_ifaces, conf, usermap, settings}
use android_smb_for_ksu.App.Control.{
  spawn, record_start, launch, defer, relaunch, start_unlocked, start, stop, stop_flags,
  prepare_logs, waiting_file, pending_file, key_file, applied_file, one,
}
use android_smb_for_ksu.Watch.{
  halt_running, wait_network, is_stale, refresh, reconcile_enabled, reconcile,
}

-- the files that `start`, `stop`, `card` and `reconcile` write or remove
abbrev pub written : List Text
written =
    config_file
    ∷ conf_file
    ∷ chars "auth_mode"
    ∷ chars "private/username.map"
    ∷ waiting_file
    ∷ pending_file
    ∷ key_file
    ∷ applied_file
    ∷ prop_file
    ∷ []

-- a file that is none of these
abbrev pub IsOther : Text → Type 0
IsOther p = All (λ f. str_eq f p ≡ false) written

abbrev pub Holds : Text → Option Text → World → Type 0
Holds p v w = w.files p ≡ v

Holds-IsFramed : (p : Text) (v : Option Text) → IsFramed (λ q. str_eq q p) (Holds p v)
Holds-IsFramed p v = record {
  timeless = λ w x t h. h;
  exits = λ w k h. h;
  writes = λ w q x g h. rw g h;
}

module _ (env : Env) (runtime : Text) (p : Text) (v : Option Text) (others : IsOther p) where
  pub frame : IsFramed (λ q. str_eq q p) (Holds p v)
  frame = Holds-IsFramed p v

  pub timeless : IsTimeless (Holds p v)
  timeless = frame.timeless

  write_config-Holds : (s : Text) → Keeps (Holds p v) (write_file env config_file s)
  write_config-Holds s = write_file-Keeps frame env config_file s others.0

  write_conf-Holds : (s : Text) → Keeps (Holds p v) (write_file env conf_file s)
  write_conf-Holds s = write_file-Keeps frame env conf_file s others.1.0

  write_mode-Holds : (s : Text) → Keeps (Holds p v) (write_file env (chars "auth_mode") s)
  write_mode-Holds s = write_file-Keeps frame env (chars "auth_mode") s others.1.1.0

  write_usermap-Holds :
      (s : Text) → Keeps (Holds p v) (write_file env (chars "private/username.map") s)
  write_usermap-Holds s = write_file-Keeps frame env (chars "private/username.map") s others.1.1.1.0

  pub write_waiting-Holds : (s : Text) → Keeps (Holds p v) (write_file env waiting_file s)
  write_waiting-Holds s = write_file-Keeps frame env waiting_file s others.1.1.1.1.0

  pub write_pending-Holds : (s : Text) → Keeps (Holds p v) (write_file env pending_file s)
  write_pending-Holds s = write_file-Keeps frame env pending_file s others.1.1.1.1.1.0

  write_key-Holds : (s : Text) → Keeps (Holds p v) (write_file env key_file s)
  write_key-Holds s = write_file-Keeps frame env key_file s others.1.1.1.1.1.1.0

  write_applied-Holds : (s : Text) → Keeps (Holds p v) (write_file env applied_file s)
  write_applied-Holds s = write_file-Keeps frame env applied_file s others.1.1.1.1.1.1.1.0

  remove_waiting-Holds : Keeps (Holds p v) (remove_file env waiting_file)
  remove_waiting-Holds = remove_file-Keeps frame env waiting_file others.1.1.1.1.0

  remove_pending-Holds : Keeps (Holds p v) (remove_file env pending_file)
  remove_pending-Holds = remove_file-Keeps frame env pending_file others.1.1.1.1.1.0

  remove_key-Holds : Keeps (Holds p v) (remove_file env key_file)
  remove_key-Holds = remove_file-Keeps frame env key_file others.1.1.1.1.1.1.0

  pub card-Holds : Keeps (Holds p v) (card env)
  card-Holds = card-Keeps frame env others.1.1.1.1.1.1.1.1.0

  pub halt-Holds : Keeps (Holds p v) (halt env)
  halt-Holds = halt-Keeps frame env

  pub pids-Holds : Keeps (Holds p v) (pids env)
  pids-Holds = pids-Keeps frame env

  pub password-Holds : Keeps (Holds p v) (password env)
  password-Holds = password-Keeps frame env

  pub save-Holds : (c : Config) → Keeps (Holds p v) (save env c)
  unfolding save
  save-Holds c = search (keeps_rules, write_config-Holds)

  pub usermap-Holds : (c : Config) → Keeps (Holds p v) (usermap env runtime c)
  unfolding usermap
  usermap-Holds c = search (keeps_rules, write_usermap-Holds)

  settings-Holds :
      (c : Config) (ifaces : List Text) (path : Text)
      → Keeps (Holds p v) (settings c ifaces runtime path)
  unfolding settings
  settings-Holds c ifaces path = search keeps_rules depth 40

  conf_ifaces-Holds : (c : Config) → Keeps (Holds p v) (conf_ifaces env runtime c)
  unfolding conf_ifaces
  conf_ifaces-Holds c = search (keeps_rules, timeless, password-Holds) depth 30

  conf-Holds : (c : Config) → Keeps (Holds p v) (conf env runtime c)
  unfolding conf
  conf-Holds c =
      let path = effective-Keeps frame env in
      search
        (
          keeps_rules, timeless, conf_ifaces-Holds, path, usermap-Holds, settings-Holds,
          write_mode-Holds, write_conf-Holds,
        )
        depth 40

  spawn-Holds : Keeps (Holds p v) (spawn env runtime)
  unfolding spawn
  spawn-Holds = record {
    at = λ w h. elim (Bool-cases (env.launch w.now).spawned) [
      | inl there ↦ rw (there) h
      | inr left ↦ rw (left) h
    ];
  }

  record_start-Holds : (c : Config) → Keeps (Holds p v) (record_start env runtime c)
  unfolding record_start
  record_start-Holds c =
      search
        (
          keeps_rules, timeless, save-Holds, remove_waiting-Holds, remove_pending-Holds,
          write_key-Holds, write_applied-Holds,
        )
        depth 20

  launch-Holds : (c : Config) → Keeps (Holds p v) (launch env runtime c)
  unfolding launch
  launch-Holds c =
      let halted = halt_with-Keeps frame env runtime in
      let waited = await_ready-Keeps frame env runtime in
      search (keeps_rules, timeless, conf-Holds, halted, waited, record_start-Holds, spawn-Holds)
        depth 40

  relaunch-Holds : (c : Config) → Keeps (Holds p v) (relaunch env runtime c)
  unfolding relaunch
  relaunch-Holds c = search (keeps_rules, halt-Holds, launch-Holds)

  start_unlocked-Holds : (c : Config) → Keeps (Holds p v) (start_unlocked env runtime c)
  unfolding start_unlocked
  start_unlocked-Holds c =
      let found = ready-Keeps frame env in search (keeps_rules, found, relaunch-Holds) depth 10

  defer-Holds : (c : Config) → Keeps (Holds p v) (defer env runtime c)
  unfolding defer
  defer-Holds c = search (keeps_rules, halt-Holds, save-Holds, card-Holds) depth 20

  pub prepare_logs-Holds : Keeps (Holds p v) (prepare_logs env runtime)
  prepare_logs-Holds = prepare_logs-Keeps frame env runtime

  pub start-Holds : (c : Config) → Keeps (Holds p v) (start env runtime c)
  unfolding start
  start-Holds c =
      let checked = check_helpers-Keeps frame env runtime in
      search (keeps_rules, timeless, prepare_logs-Holds, checked, start_unlocked-Holds, defer-Holds)
        depth 30

  stop_flags-Holds : (suspend : Bool) → Keeps (Holds p v) (stop_flags env runtime suspend)
  unfolding stop_flags
  stop_flags-Holds true = write_waiting-Holds one
  stop_flags-Holds false = search (keeps_rules, remove_waiting-Holds, remove_pending-Holds)

  pub stop-Holds : (c : Config) (suspend : Bool) → Keeps (Holds p v) (stop env runtime c suspend)
  unfolding stop
  stop-Holds c suspend =
      search (keeps_rules, halt-Holds, save-Holds, remove_key-Holds, stop_flags-Holds) depth 20
