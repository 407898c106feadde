-- ===== src/App/Control.antt =====
-- `prepare_logs`, `card`, `start`, `stop` and the commands of `App` (native/smbctl/src/main.rs) that
-- change the state.
pub mod Halt
pub mod Stop
pub mod Auth
pub mod Success
use android_smb_for_ksu.Common.{
  ℕ, zero, suc, ◌+◌, Bool, true, false, not, ◌&&◌, ◌||◌, List, [], ◌∷◌, ◌++◌, Option, none, some,
  ltb, ◌==◌, if◌then◌else◌, is_empty, Result, Error, ok, err, head?, is_some, map,
}
use android_smb_for_ksu.Text.{Text, chars, str_eq, before_char}
use android_smb_for_ksu.Config
use android_smb_for_ksu.Config.Map
use android_smb_for_ksu.Config.Map.{Config}
use android_smb_for_ksu.Os.Network.{Address, key}
use android_smb_for_ksu.Logs.{changed}
use android_smb_for_ksu.Logs.Disk.{Disk}
use android_smb_for_ksu.Logs.Prepare.{read_marker, prepare}
use android_smb_for_ksu.App.World.{
  Server, Launch, Env, World, M, pure, raise, lift, ask, try_ask, gets, ◌>>=◌, ◌>>◌, fail_if, when,
  recorded, log, open_log, set_file, exists, read_or_empty, write_file, remove_file,
}
use android_smb_for_ksu.App.Server.{
  passwd_file, setting, setting_is, helpers, load, save, pids, halt, password, ready_with, ready,
}
use android_smb_for_ksu.App.Card.{card}
use android_smb_for_ksu.App.Conf.{conf_file, usermap, conf}

abbrev pub waiting_file : Text
waiting_file = chars "waiting_network"

abbrev pub pending_file : Text
pending_file = chars "pending_auth_start"

abbrev pub key_file : Text
key_file = chars "interface_key"

abbrev pub applied_file : Text
applied_file = chars "applied_config.json"

abbrev pub enabled_key : Text
enabled_key = chars "ENABLED"

abbrev pub one : Text
one = chars "1"

module _ (env : Env) (runtime : Text) where
  unfoldable pub logs_changed : Text → M Bool
  logs_changed boot =
      recorded (λ t x. (ok (changed (read_marker (env.reads_marker t) x.disk) boot), x))

  unfoldable pub logs_prepare : Text → M Bool
  logs_prepare boot =
      recorded
        (λ t x. let o = prepare (env.logs t) boot x.disk in (o.result, record x { disk = o.disk }))

  unfoldable pub rotate_logs : Text → M (Unit {0})
  rotate_logs boot = do
    ps ← pids env
    when (not (is_empty ps)) (halt env)
    logs_prepare boot
    pure tt

  unfoldable pub prepare_logs : M (Unit {0})
  prepare_logs = do
    boot ← try_ask env.boot_id
    other_boot ← logs_changed boot
    when other_boot (rotate_logs boot)

  -- the programs that `start` needs
  unfoldable pub check_helpers : List Text → M (Unit {0})
  check_helpers [] = pure tt
  check_helpers (name ∷ names) = do
    there ← try_ask (λ t. env.helper t name)
    fail_if (not there) Error.helper_missing
    check_helpers names

  -- the launch of smbd: what it leaves behind is running, whatever its exit status
  unfoldable pub spawn : M Bool
  spawn w =
      let l = env.launch w.now in
      if l.spawned
      then (
        ok l.success,
        record w {
          servers = l.started ++ w.servers;
          launches = (w.files conf_file, w.files passwd_file) ∷ w.launches;
          now = w.now + 1;
        },
      )
      else (err Error.io, record w { now = w.now + 1 })

  -- `self.halt()?; return Err(e)`
  unfoldable pub halt_with : Error → M (Unit {0})
  halt_with e = do halt env; raise e

  -- The loop that waits for the listeners. The count is of the rounds before the deadline.
  unfoldable pub await_ready : Config → ℕ → M (Unit {0})
  await_ready c zero = do
    there ← ready env c
    when (not there) (halt_with Error.listeners_not_owned)
  await_ready c (suc n) = do
    there ← ready env c
    when (not there) (do polled ← ask env.poll_ok; fail_if (not polled) Error.io; await_ready c n)

  -- what `start` writes once the server is ready
  unfoldable pub record_start : Config → M (Unit {0})
  record_start c = do
    save env c
    remove_file env waiting_file
    remove_file env pending_file
    n ← try_ask env.network
    write_file env key_file (key n)
    write_file env applied_file (env.to_json c)

  -- `start` from `conf` on
  unfoldable pub launch : Config → M Config
  launch c = do
    conf env runtime c
    try_ask env.inotify
    open_log env (chars "smbd.stdout.log")
    open_log env (chars "smbd.stderr.log")
    success ← spawn
    when (not success) (halt_with Error.launch_failed)
    rounds ← ask env.rounds
    await_ready c rounds
    let c' = Map.insert enabled_key one c
    record_start c'
    log env (chars "START ready: owned listeners verified")
    pure c'

  -- `c: &mut Config` is returned as the caller finds it after a success

  -- the branch of `start` for locked storage
  unfoldable pub defer : Config → M Config
  defer c = do halt env; let c' = Map.insert enabled_key one c; save env c'; card env; pure c'

  unfoldable pub relaunch : Config → M Config
  relaunch c = do halt env; launch c

  unfoldable pub start_unlocked : Config → M Config
  start_unlocked c = do there ← ready env c; if there then pure c else relaunch c

  unfoldable pub start : Config → M Config
  start c = do
    prepare_logs
    check_helpers helpers
    path ← setting c (chars "SHARE_PATH")
    unlocked ← ask (λ t. env.storage_ready t path)
    if unlocked then start_unlocked c else defer c

  -- the flags that `stop` leaves
  unfoldable pub stop_flags : Bool → M (Unit {0})
  stop_flags true = write_file env waiting_file one
  stop_flags false = do remove_file env waiting_file; remove_file env pending_file

  unfoldable pub stop : Config → Bool → M Config
  stop c suspend = do
    halt env
    let c' = Map.insert enabled_key (if suspend then one else chars "0") c
    save env c'
    remove_file env key_file
    stop_flags suspend
    pure c'
