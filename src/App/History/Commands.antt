-- ===== src/App/History/Commands.antt =====
-- The invariant of App/History over the commands of `dispatch` (main.rs).
use android_smb_for_ksu.Common.{
  inl, inr, Bool-cases, ℕ, ◌≡◌, refl, Bool, true, false, List, Option, Result, ok, err,
  ok-injective, subst,
}
use android_smb_for_ksu.Text.{Text, chars, str_eq}
use android_smb_for_ksu.Config
use android_smb_for_ksu.Config.Map.{Config}
use android_smb_for_ksu.Config.Shape.{HasKeys, update-HasKeys}
use android_smb_for_ksu.App.World.{Env, World, pure, lift, write_file, ◌>>◌}
use android_smb_for_ksu.App.Rules.{
  IsTimeless, Keeps, Ensures, Post-weaken, Keeps-bind, Keeps-lift, Ensures-pure, keeps_rules,
}
use android_smb_for_ksu.App.Steps.{Keeps-given, Ensures-given, Ensures-then, lift-given}
use android_smb_for_ksu.App.Frame.{IsFramed, exists-Keeps}
use android_smb_for_ksu.App.Server.{save, passwd_file, setting_is}
use android_smb_for_ksu.App.Conf.{usermap}
use android_smb_for_ksu.App.Control.{one}
use android_smb_for_ksu.App.Commands.{
  Command, start_server, stop_server, suspend_network, restart, set_config, save_restart,
  set_password_hex, map_of, updated, change_config, await_password, halt_and_start, restart_saved,
  set_password, execute, run_command, enable_at_boot, enable_if,
}
use android_smb_for_ksu.App.History.{IsAccepted, IsSound, Anything}
use android_smb_for_ksu.App.History.Saving.{guarded, Sound-IsFramed, save-Keeps}
use android_smb_for_ksu.App.History.Launching.{usermap-Keeps}
use android_smb_for_ksu.App.History.Records.{
  load-then, enabled-HasKeys, save_enabled-Keeps, halt_all-Keeps, pids_all-Keeps,
  password_all-Keeps, card_all-Keeps, stop-Keeps, write_pending-Keeps,
}
use android_smb_for_ksu.App.History.Starting.{start-Keeps}

map_of-eq-ok :
    (r : Result (Unit {0})) (c : Config) {c' : Config}
    → map_of (r, c) ≡ ok c'
    → (r ≡ ok tt) × (c ≡ c')
map_of-eq-ok (ok u) c e = (refl, ok-injective e)
map_of-eq-ok (err x) c e = cc

updated-IsAccepted :
    (c : Config) (args : List Text) {c' : Config}
    → HasKeys c
    → updated c args ≡ ok c'
    → IsAccepted c'
updated-IsAccepted c args shape e =
    let (done, same) = map_of-eq-ok (Config.update c args).0 (Config.update c args).1 e in
    let (keys, valid) = update-HasKeys c args shape in subst IsAccepted same (keys, valid done)

module _ (env : Env) (runtime : Text) (md4 : List ℕ → List ℕ) where
  abbrev pub Sound : World → Type 0
  Sound = IsSound env runtime

  pub timeless : IsTimeless Sound
  timeless = (Sound-IsFramed env runtime Anything).timeless

  pub frame : IsFramed guarded Sound
  frame = Sound-IsFramed env runtime Anything

  updated-given :
      (c : Config) (args : List Text)
      → HasKeys c
      → Ensures Sound (lift (updated c args)) (λ c' w. Sound w × IsAccepted c')
  unfolding lift
  updated-given c args shape = record {
    post = λ w h.
        Post-weaken _ _ (lift (updated c args) w).0 w
          (λ c' v k. (k.0, updated-IsAccepted c args shape k.1))
          ((lift-given (updated c args)).post w h);
  }

  settle-Keeps :
      (c : Config) → HasKeys c → Keeps Sound (save env c >> (usermap env runtime c >> pure c))
  settle-Keeps c shape =
      search (keeps_rules, save-Keeps env runtime Anything, usermap-Keeps env runtime Anything)

  change_config-Keeps :
      (c : Config) (args : List Text)
      → HasKeys c
      → Keeps Sound (change_config env runtime md4 c args)
  unfolding change_config
  change_config-Keeps c args shape =
      Keeps-given IsAccepted (lift (updated c args)) _ (Keeps-lift _) (updated-given c args shape)
        (λ c' accepted. settle-Keeps c' accepted.0)

  change_config-given :
      (c : Config) (args : List Text)
      → HasKeys c
      → Ensures Sound (change_config env runtime md4 c args) (λ c' w. Sound w × IsAccepted c')
  unfolding change_config
  change_config-given c args shape =
      Ensures-given IsAccepted (lift (updated c args)) _ (updated-given c args shape)
        (λ c' accepted.
          Ensures-then (save env c') _ (save-Keeps env runtime Anything c' accepted.0) (λ u.
            Ensures-then (usermap env runtime c') _ (usermap-Keeps env runtime Anything c')
              (λ v. Ensures-pure c' (λ w h. (h, accepted)))))

  await_password-Keeps : (c : Config) → HasKeys c → Keeps Sound (await_password env runtime md4 c)
  unfolding await_password
  await_password-Keeps c shape =
      search (keeps_rules, halt_all-Keeps, write_pending-Keeps, save_enabled-Keeps) depth 20

  halt_and_start-Keeps :
      (c : Config) → IsAccepted c → Keeps Sound (halt_and_start env runtime md4 c)
  unfolding halt_and_start
  halt_and_start-Keeps c accepted = search (keeps_rules, halt_all-Keeps, start-Keeps) depth 20

  restart_saved-Keeps : (c : Config) → IsAccepted c → Keeps Sound (restart_saved env runtime md4 c)
  unfolding restart_saved
  restart_saved-Keeps c accepted =
      let shape : HasKeys c = accepted.0 in
      search (keeps_rules, password_all-Keeps, await_password-Keeps, halt_and_start-Keeps) depth 20

  write_passwd-Keeps : (s : Text) → Keeps Sound (write_file env passwd_file s)
  unfolding write_file str_eq
  write_passwd-Keeps s = record {
    at = λ w h. elim (Bool-cases (env.write_ok w.now)) [
      | inl there ↦ rw (there) (record { loads = h.loads; made = h.made; known = h.known })
      | inr left ↦ elim (Bool-cases (env.write_lands w.now)) [
        | inl lands ↦ rw (left, lands) (record { loads = h.loads; made = h.made; known = h.known })
        | inr lost ↦ rw (left, lost) (record { loads = h.loads; made = h.made; known = h.known })
      ]
    ];
  }

  set_password-Keeps :
      (c : Config) (arg : Option Text)
      → IsAccepted c
      → Keeps Sound (set_password env runtime md4 c arg)
  unfolding set_password
  set_password-Keeps c arg accepted =
      let found = exists-Keeps frame env in
      search
        (
          keeps_rules, timeless, write_passwd-Keeps, usermap-Keeps, found, pids_all-Keeps,
          halt_and_start-Keeps,
        )
        depth 40

  execute-Keeps :
      (cmd : Command) (c : Config) → IsAccepted c → Keeps Sound (execute env runtime md4 cmd c)
  unfolding execute
  execute-Keeps start_server c accepted = search (keeps_rules, start-Keeps)
  execute-Keeps stop_server c accepted =
      let stopped = stop-Keeps env runtime Anything c false accepted.0 in
      search (keeps_rules, stopped)
  execute-Keeps suspend_network c accepted =
      let stopped = stop-Keeps env runtime Anything c true accepted.0 in
      search (keeps_rules, stopped)
  execute-Keeps restart c accepted = halt_and_start-Keeps c accepted
  execute-Keeps (set_config args) c accepted =
      let changed = change_config-Keeps c args accepted.0 in search (keeps_rules, changed)
  execute-Keeps (save_restart args) c accepted =
      Keeps-given IsAccepted (change_config env runtime md4 c args) _
        (change_config-Keeps c args accepted.0) (change_config-given c args accepted.0)
        restart_saved-Keeps
  execute-Keeps (set_password_hex arg) c accepted = set_password-Keeps c arg accepted

  pub run_command-Keeps : (cmd : Command) → Keeps Sound (run_command env runtime md4 cmd)
  unfolding run_command
  run_command-Keeps cmd = load-then env runtime Anything _ (λ c accepted.
      Keeps-bind (execute env runtime md4 cmd c) _ (execute-Keeps cmd c accepted)
        (λ u. card_all-Keeps env runtime Anything))

  enable_if-HasKeys : (b : Bool) (c : Config) → HasKeys c → HasKeys (enable_if env runtime md4 b c)
  enable_if-HasKeys true c shape = enabled-HasKeys c one shape
  enable_if-HasKeys false c shape = shape

  pub enable_at_boot-Keeps : Keeps Sound (enable_at_boot env runtime md4)
  unfolding enable_at_boot
  enable_at_boot-Keeps = load-then env runtime Anything _ (λ c accepted.
      Keeps-bind (setting_is c (chars "AUTO_START") (chars "1")) _ (search keeps_rules)
        (λ auto. save-Keeps env runtime Anything _ (enable_if-HasKeys auto c accepted.0)))
