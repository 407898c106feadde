-- ===== src/App/History/Records.antt =====
-- The invariant of App/History over what main.rs writes beside the server: the flags, the records of a
-- start, and `stop`.
use android_smb_for_ksu.Common.{Result, refl, Bool, true, false}
use android_smb_for_ksu.Text.{Text, str_eq}
use android_smb_for_ksu.Config.Map
use android_smb_for_ksu.Config.Map.{Config}
use android_smb_for_ksu.Config.Shape.{HasKeys, HasKeys-insert}
use android_smb_for_ksu.App.World.{Read, World, ◌>>=◌, Env, write_file, remove_file}
use android_smb_for_ksu.App.Rules.{Keeps, keeps_rules}
use android_smb_for_ksu.App.Steps.{Keeps-given}
use android_smb_for_ksu.App.Frame.{
  load-Keeps, write_file-Keeps, remove_file-Keeps, password-Keeps, halt-Keeps, pids-Keeps,
  card-Keeps,
}
use android_smb_for_ksu.App.Server.{load, halt, pids, password, save}
use android_smb_for_ksu.App.Card.{card}
use android_smb_for_ksu.App.Control.{
  record_start, defer, stop, stop_flags, enabled_key, one, waiting_file, pending_file, key_file,
  applied_file,
}
use android_smb_for_ksu.App.Control.Stop.{enabled_key-known}
use android_smb_for_ksu.App.History.{IsAccepted, IsSoundWith}
use android_smb_for_ksu.App.History.Saving.{load-Ensures, Sound-IsFramed, save-Keeps}

pub enabled-HasKeys : (c : Config) (v : Text) → HasKeys c → HasKeys (Map.insert enabled_key v c)
enabled-HasKeys c v shape = HasKeys-insert c enabled_key v (enabled_key-known c shape) shape

module _ (env : Env) (runtime : Text) (X : Read → Type 0) where
  pub write_waiting-Keeps :
      (s : Text) → Keeps (IsSoundWith env runtime X) (write_file env waiting_file s)
  unfolding str_eq
  write_waiting-Keeps s = write_file-Keeps (Sound-IsFramed env runtime X) env waiting_file s refl

  pub write_pending-Keeps :
      (s : Text) → Keeps (IsSoundWith env runtime X) (write_file env pending_file s)
  unfolding str_eq
  write_pending-Keeps s = write_file-Keeps (Sound-IsFramed env runtime X) env pending_file s refl

  pub write_key-Keeps : (s : Text) → Keeps (IsSoundWith env runtime X) (write_file env key_file s)
  unfolding str_eq
  write_key-Keeps s = write_file-Keeps (Sound-IsFramed env runtime X) env key_file s refl

  pub write_applied-Keeps :
      (s : Text) → Keeps (IsSoundWith env runtime X) (write_file env applied_file s)
  unfolding str_eq
  write_applied-Keeps s = write_file-Keeps (Sound-IsFramed env runtime X) env applied_file s refl

  pub remove_waiting-Keeps : Keeps (IsSoundWith env runtime X) (remove_file env waiting_file)
  unfolding str_eq
  remove_waiting-Keeps = remove_file-Keeps (Sound-IsFramed env runtime X) env waiting_file refl

  pub remove_pending-Keeps : Keeps (IsSoundWith env runtime X) (remove_file env pending_file)
  unfolding str_eq
  remove_pending-Keeps = remove_file-Keeps (Sound-IsFramed env runtime X) env pending_file refl

  pub remove_key-Keeps : Keeps (IsSoundWith env runtime X) (remove_file env key_file)
  unfolding str_eq
  remove_key-Keeps = remove_file-Keeps (Sound-IsFramed env runtime X) env key_file refl

  pub record_start-Keeps :
      (c : Config) → HasKeys c → Keeps (IsSoundWith env runtime X) (record_start env runtime c)
  unfolding record_start
  record_start-Keeps c shape =
      let timeless = (Sound-IsFramed env runtime X).timeless in
      search
        (
          keeps_rules,
          timeless,
          save-Keeps env runtime X,
          remove_waiting-Keeps,
          remove_pending-Keeps,
          write_key-Keeps,
          write_applied-Keeps,
        )
        depth 20

  -- a changed ENABLED is saved
  pub save_enabled-Keeps :
      (c : Config) (v : Text)
      → HasKeys c
      → Keeps (IsSoundWith env runtime X) (save env (Map.insert enabled_key v c))
  save_enabled-Keeps c v shape = save-Keeps env runtime X _ (enabled-HasKeys c v shape)

  pub record_enabled-Keeps :
      (c : Config)
      → HasKeys c
      → Keeps (IsSoundWith env runtime X) (record_start env runtime (Map.insert enabled_key one c))
  record_enabled-Keeps c shape = record_start-Keeps _ (enabled-HasKeys c one shape)

  pub halt_all-Keeps : Keeps (IsSoundWith env runtime X) (halt env)
  halt_all-Keeps = halt-Keeps (Sound-IsFramed env runtime X) env

  pub pids_all-Keeps : Keeps (IsSoundWith env runtime X) (pids env)
  pids_all-Keeps = pids-Keeps (Sound-IsFramed env runtime X) env

  pub password_all-Keeps : Keeps (IsSoundWith env runtime X) (password env)
  password_all-Keeps = password-Keeps (Sound-IsFramed env runtime X) env

  pub stop_flags-Keeps :
      (suspend : Bool) → Keeps (IsSoundWith env runtime X) (stop_flags env runtime suspend)
  unfolding stop_flags
  stop_flags-Keeps true = write_waiting-Keeps one
  stop_flags-Keeps false = search (keeps_rules, remove_waiting-Keeps, remove_pending-Keeps)

  pub stop-Keeps :
      (c : Config) (suspend : Bool)
      → HasKeys c
      → Keeps (IsSoundWith env runtime X) (stop env runtime c suspend)
  unfolding stop
  stop-Keeps c suspend shape =
      search (keeps_rules, halt_all-Keeps, save_enabled-Keeps, remove_key-Keeps, stop_flags-Keeps)
        depth 20

  pub card_all-Keeps : Keeps (IsSoundWith env runtime X) (card env)
  unfolding str_eq
  card_all-Keeps = card-Keeps (Sound-IsFramed env runtime X) env refl

  pub defer-Keeps :
      (c : Config) → HasKeys c → Keeps (IsSoundWith env runtime X) (defer env runtime c)
  unfolding defer
  defer-Keeps c shape =
      search (keeps_rules, halt_all-Keeps, save_enabled-Keeps, card_all-Keeps) depth 20

  -- what relies on the result of `load`
  pub load-then :
      {A : Type 0} (next : Config → World → Result A × World)
      → ((c : Config) → IsAccepted c → Keeps (IsSoundWith env runtime X) (next c))
      → Keeps (IsSoundWith env runtime X) (load env >>= next)
  load-then next k =
      let loaded = load-Keeps (Sound-IsFramed env runtime X) env in
      Keeps-given IsAccepted (load env) next loaded (load-Ensures env loaded) k
