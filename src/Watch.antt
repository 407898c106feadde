-- ===== src/Watch.antt =====
-- native/smbctl/src/watch.rs: the watcher. `reconcile` brings the server in line with the settings,
-- the network and the storage; `Watch.Loop` decides when it is called.
pub mod Loop
pub mod Backoff
pub mod Crashes
pub mod Run
pub mod Stop
pub mod Setup
pub mod Recorded
pub mod Found
pub mod Singleton
pub mod Wakeups
pub mod Choice
pub mod Disabled
pub mod Unsafe
pub mod Tests
use android_smb_for_ksu.Common.{
  ℕ, Bool, true, false, not, ◌&&◌, ◌||◌, List, [], ◌∷◌, Option, none, some, if◌then◌else◌, is_empty,
  Result, ok, err,
}
use android_smb_for_ksu.Text.{Text, chars, str_eq}
use android_smb_for_ksu.Config.Map.{Config}
use android_smb_for_ksu.Os.Network.{Address, key}
use android_smb_for_ksu.App.World.{
  Env, World, M, pure, ask, try_ask, gets, ◌>>=◌, ◌>>◌, when, exists, read_or_empty, write_file,
}
use android_smb_for_ksu.App.Server.{setting, setting_is, load, pids, halt, password, ready}
use android_smb_for_ksu.App.Card.{card}
use android_smb_for_ksu.App.Control.{
  start, stop, waiting_file, pending_file, key_file, applied_file, one,
}

-- The notifications are messages to the user and change nothing.
module _ (env : Env) (runtime : Text) where
  -- `if !a.pids()?.is_empty() { a.halt()? }`
  unfoldable pub halt_running : M (Unit {0})
  halt_running = do ps ← pids env; when (not (is_empty ps)) (halt env)

  abbrev pub done : M Config → M (Unit {0})
  done m = m >>= λ c. pure tt

  -- no trusted network: the server is suspended, or the flag is set
  unfoldable pub wait_network : Config → M (Unit {0})
  wait_network c = do
    ps ← pids env
    waiting ← exists waiting_file
    if is_empty ps
        then when (not waiting) (write_file env waiting_file one)
        else done (stop env runtime c true)

  -- `old != key || applied != json || !ready`
  unfoldable pub is_stale : Config → List Address → M Bool
  is_stale c n = do
    old ← read_or_empty env key_file
    if not (str_eq old (key n)) then pure true else (do
      applied ← read_or_empty env applied_file
      if not (str_eq applied (env.to_json c))
          then pure true
          else (do there ← ready env c; pure (not there)))

  unfoldable pub refresh : Config → List Address → M (Unit {0})
  refresh c n = do stale ← is_stale c n; when stale (do halt env; done (start env runtime c))

  -- `reconcile` from the password check on, for an enabled server
  unfoldable pub reconcile_enabled : Config → List Address → M (Unit {0})
  reconcile_enabled c n = do
    pending ← exists pending_file
    user ← setting_is c (chars "AUTH_MODE") (chars "user")
    known ← password env
    if pending && (user && not known) then pure tt else (do
      path ← setting c (chars "SHARE_PATH")
      unlocked ← ask (λ t. env.storage_ready t path)
      if not unlocked then halt_running else if is_empty n then wait_network c else refresh c n
      card env)

  unfoldable pub reconcile : M (Unit {0})
  reconcile = do
    c ← load env
    n ← try_ask env.network
    enabled ← setting_is c (chars "ENABLED") one
    if enabled then reconcile_enabled c n else (do halt_running; card env)
