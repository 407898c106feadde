-- ===== src/App/Untouched/Kept.antt =====
-- What the commands (main.rs) and the passes of the watcher (watch.rs) leave as it is: in particular the
-- passwords, which only `set_password_hex` writes.
use android_smb_for_ksu.Common.{Bool, true, false, List, Option}
use android_smb_for_ksu.Text.{Text}
use android_smb_for_ksu.Config.Map.{Config}
use android_smb_for_ksu.Os.Network.{Address}
use android_smb_for_ksu.App.World.{Env, World}
use android_smb_for_ksu.App.Rules.{Keeps, keeps_rules}
use android_smb_for_ksu.App.Frame.{ready-Keeps, load-Keeps, exists-Keeps, read_or_empty-Keeps}
use android_smb_for_ksu.App.Server.{load}
use android_smb_for_ksu.App.Control.{prepare_logs}
use android_smb_for_ksu.Watch.{
  halt_running, wait_network, is_stale, refresh, reconcile_enabled, reconcile,
}
use android_smb_for_ksu.App.Control.{prepare_logs}
use android_smb_for_ksu.App.Commands.{Command, set_password_hex}
use android_smb_for_ksu.App.Untouched.{
  IsOther, Holds, frame, timeless, write_waiting-Holds, card-Holds, halt-Holds, pids-Holds,
  password-Holds, start-Holds, stop-Holds,
}

-- whether the command may write the passwords
abbrev pub sets_password : Command → Bool
sets_password (set_password_hex arg) = true
sets_password cmd = false

module _ (env : Env) (runtime : Text) (p : Text) (v : Option Text) (others : IsOther p) where
  abbrev Same : World → Type 0
  Same = Holds p v

  halt_running-Holds : Keeps Same (halt_running env runtime)
  unfolding halt_running
  halt_running-Holds = search (keeps_rules, pids-Holds, halt-Holds) depth 20

  wait_network-Holds : (c : Config) → Keeps Same (wait_network env runtime c)
  unfolding wait_network
  wait_network-Holds c =
      let found = exists-Keeps (frame env runtime p v others) env in
      search (keeps_rules, pids-Holds, found, write_waiting-Holds, stop-Holds) depth 20

  is_stale-Holds : (c : Config) (n : List Address) → Keeps Same (is_stale env runtime c n)
  unfolding is_stale
  is_stale-Holds c n =
      let read = read_or_empty-Keeps (frame env runtime p v others) env in
      let there = ready-Keeps (frame env runtime p v others) env in
      search (keeps_rules, read, there) depth 20

  refresh-Holds : (c : Config) (n : List Address) → Keeps Same (refresh env runtime c n)
  unfolding refresh
  refresh-Holds c n = search (keeps_rules, is_stale-Holds, halt-Holds, start-Holds) depth 20

  reconcile_enabled-Holds :
      (c : Config) (n : List Address) → Keeps Same (reconcile_enabled env runtime c n)
  unfolding reconcile_enabled
  reconcile_enabled-Holds c n =
      let found = exists-Keeps (frame env runtime p v others) env in
      search
        (
          keeps_rules, timeless, found, password-Holds, halt_running-Holds, wait_network-Holds,
          refresh-Holds, card-Holds,
        )
        depth 40

  load-Holds : Keeps Same (load env)
  load-Holds = load-Keeps (frame env runtime p v others) env

  pub reconcile-Holds : Keeps Same (reconcile env runtime)
  unfolding reconcile
  reconcile-Holds =
      search
        (keeps_rules, timeless, load-Holds, reconcile_enabled-Holds, halt_running-Holds, card-Holds)
        depth 40
