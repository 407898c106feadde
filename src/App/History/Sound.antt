-- ===== src/App/History/Sound.antt =====
-- The invariant of App/History over the passes of the watcher (watch.rs), and in every state that can be
-- reached.
use android_smb_for_ksu.Common.{ℕ, ◌≡◌, List, [], All}
use android_smb_for_ksu.Text.{Text}
use android_smb_for_ksu.Config.Map.{Config}
use android_smb_for_ksu.Config.Shape.{HasKeys}
use android_smb_for_ksu.Os.Network.{Address}
use android_smb_for_ksu.App.World.{Env, World}
use android_smb_for_ksu.App.Rules.{IsTimeless, Keeps, keeps_rules}
use android_smb_for_ksu.App.Frame.{
  IsFramed, ready-Keeps, prepare_logs-Keeps, exists-Keeps, read_or_empty-Keeps,
}
use android_smb_for_ksu.App.Server.{config_file}
use android_smb_for_ksu.Watch.{
  halt_running, wait_network, is_stale, refresh, reconcile_enabled, reconcile,
}
use android_smb_for_ksu.App.History.{
  IsLoadable, IsAccepted, IsMade, IsSound, Anything, Step, Reach, command, enabled, reconciled,
  prepared, processes, edited, begun, later,
}
use android_smb_for_ksu.App.History.Saving.{guarded, Sound-IsFramed}
use android_smb_for_ksu.App.History.Records.{
  load-then, halt_all-Keeps, pids_all-Keeps, password_all-Keeps, card_all-Keeps, stop-Keeps,
  write_waiting-Keeps,
}
use android_smb_for_ksu.App.History.Starting.{start-Keeps}
use android_smb_for_ksu.App.History.Commands.{run_command-Keeps, enable_at_boot-Keeps}

module _ (env : Env) (runtime : Text) where
  abbrev Sound : World → Type 0
  Sound = IsSound env runtime

  timeless : IsTimeless Sound
  timeless = (Sound-IsFramed env runtime Anything).timeless

  frame : IsFramed guarded Sound
  frame = Sound-IsFramed env runtime Anything

  halt_running-Keeps : Keeps Sound (halt_running env runtime)
  unfolding halt_running
  halt_running-Keeps = search (keeps_rules, pids_all-Keeps, halt_all-Keeps) depth 20

  wait_network-Keeps : (c : Config) → HasKeys c → Keeps Sound (wait_network env runtime c)
  unfolding wait_network
  wait_network-Keeps c shape =
      let found = exists-Keeps frame env in
      search (keeps_rules, pids_all-Keeps, found, write_waiting-Keeps, stop-Keeps) depth 20

  is_stale-Keeps : (c : Config) (n : List Address) → Keeps Sound (is_stale env runtime c n)
  unfolding is_stale
  is_stale-Keeps c n =
      let read = read_or_empty-Keeps frame env in
      let there = ready-Keeps frame env in search (keeps_rules, read, there) depth 20

  refresh-Keeps :
      (c : Config) (n : List Address) → IsAccepted c → Keeps Sound (refresh env runtime c n)
  unfolding refresh
  refresh-Keeps c n accepted =
      search (keeps_rules, is_stale-Keeps, halt_all-Keeps, start-Keeps) depth 20

  reconcile_enabled-Keeps :
      (c : Config) (n : List Address)
      → IsAccepted c
      → Keeps Sound (reconcile_enabled env runtime c n)
  unfolding reconcile_enabled
  reconcile_enabled-Keeps c n accepted =
      let found = exists-Keeps frame env in
      let shape : HasKeys c = accepted.0 in
      search
        (
          keeps_rules, timeless, found, password_all-Keeps, halt_running-Keeps, wait_network-Keeps,
          refresh-Keeps, card_all-Keeps,
        )
        depth 40

  reconcile-Keeps : Keeps Sound (reconcile env runtime)
  unfolding reconcile
  reconcile-Keeps = load-then env runtime Anything _ (λ c accepted.
      search (keeps_rules, timeless, reconcile_enabled-Keeps, halt_running-Keeps, card_all-Keeps)
        depth 30)

Step-IsSound :
    {env : Env} {runtime : Text} {md4 : List ℕ → List ℕ} {w v : World}
    → IsSound env runtime w
    → Step env runtime md4 w v
    → IsSound env runtime v
Step-IsSound {env} {runtime} {md4} {w} h (command c) = (run_command-Keeps env runtime md4 c).at w h
Step-IsSound {env} {runtime} {md4} {w} h enabled = (enable_at_boot-Keeps env runtime md4).at w h
Step-IsSound {env} {runtime} {w = w} h reconciled = (reconcile-Keeps env runtime).at w h
Step-IsSound {env} {runtime} {w = w} h prepared =
    (prepare_logs-Keeps (Sound-IsFramed env runtime Anything) env runtime).at w h
Step-IsSound h (processes ss) = record { loads = h.loads; made = h.made; known = tt }
Step-IsSound h (edited files good) = record { loads = good; made = h.made; known = tt }

-- Whatever commands, ends of boots, passes of the watcher and preparations of the logs have run, in any
-- order and with any outcome, with processes of others that come and go and edits that leave a
-- config.conf that can be loaded: if config.conf can be loaded or is absent at the start and no smbd has
-- been launched, then config.conf is absent or can be loaded, and every smb.conf that an smbd was
-- launched with is the template of its mode, filled in by `conf` from settings that `load` or `update`
-- accepted, whose share's storage was ready, with the path that `effective` gave for the share, with at
-- least two addresses that `interfaces` selects from what `network` had answered, and in user mode after
-- `password` had found one.
pub Reach-IsSound :
    {env : Env} {runtime : Text} {md4 : List ℕ → List ℕ} {w v : World}
    → IsLoadable (w.files config_file)
    → w.launches ≡ []
    → Reach env runtime md4 w v
    → IsLoadable (v.files config_file) × All (IsMade env runtime) v.launches
Reach-IsSound {env} {runtime} {md4} {w} loads none_yet r = let h = sound r in (h.loads, h.made)
  where
    sound : {v : World} → Reach env runtime md4 w v → IsSound env runtime v
    sound begun = record { loads = loads; made = rw none_yet tt; known = tt }
    sound (later r s) = Step-IsSound (sound r) s
