-- ===== src/Watch/Setup.antt =====
-- `run` of native/smbctl/src/watch.rs as a whole: what it sets up, its loop, and what it removes. The
-- lines that it logs are not part of the state.
pub mod Tests
use android_smb_for_ksu.Common.{
  ℕ, Bool, true, false, not, ◌&&◌, List, [], ◌∷◌, Option, if◌then◌else◌, Result, Error, ok, err,
  is_ok,
}
use android_smb_for_ksu.Text.{Text, chars}
use android_smb_for_ksu.Storage.Decimal.{show_u32}
use android_smb_for_ksu.Os.Lock
use android_smb_for_ksu.Os.Lock.{Errno, Acquired, acquired, failed, would_block, other}
use android_smb_for_ksu.App.World.{Env, M, pure, raise, lift, ◌>>=◌, ◌>>◌, write_file, remove_file}
use android_smb_for_ksu.App.Server.{setting, load}
use android_smb_for_ksu.App.Control.{prepare_logs}
use android_smb_for_ksu.Watch.{reconcile}
use android_smb_for_ksu.Watch.Loop.{init}
use android_smb_for_ksu.Watch.Run.{
  Watcher, Answers, Turn, next, returned, replaced, reconciles, turn,
}

abbrev pub watch_pid : Text
watch_pid = chars "watch.pid"

-- what the system answers before the loop begins
pub record Setup : Type 0 where
  pub open_singleton : Option Errno  -- watch.lock
  pub lock_singleton : Bool → Option Errno
  pub open_lock : Option Errno  -- control.lock
  pub lock : Bool → Option Errno
  pub events : Text → Result (Unit {0})  -- `storage::Events::new`
  pub netlink : Result (Unit {0})
  pub inotify : Result (Unit {0})
  pub pid : ℕ

pub data Ending : Type 0 where
  another : Ending  -- another watcher holds watch.lock
  running : Watcher → Ending  -- after the turns that were given
  ended : Ending  -- the loop was left by a signal
  reborn : Ending  -- `exec` of a new watcher

abbrev pub locked : Acquired → M (Unit {0})
locked acquired = pure tt
locked (failed e) = raise Error.io

module _ (env : Env) (runtime : Text) where
  -- from the lock control.lock on; the signal handlers, which only set a flag, are the answer `stopped`
  unfoldable pub prepare : Setup → M (Unit {0})
  unfolding Lock.new
  prepare s = do
    locked (Lock.new s.open_lock s.lock false)
    prepare_logs env runtime
    c ← load env
    path ← setting c (chars "SHARE_PATH")
    lift (s.events path)
    lift s.netlink
    lift s.inotify
    write_file env watch_pid (show_u32 s.pid)

  -- `reconcile(a)`, whose error is not passed on
  unfoldable pub attempt : M Bool
  attempt w = let (r, v) = reconcile env runtime w in (ok (is_ok r), v)

  -- a turn of the loop, with the result of its own `reconcile`
  unfoldable pub turn_with : Watcher → Answers → M Turn
  unfolding reconciles turn
  turn_with w a =
      if not a.stopped && (not a.moved && reconciles w a.snapshot a.now)
      then (attempt >>= λ succeeds. pure (turn w (record a { succeeds = succeeds })))
      else pure (turn w a)

  abbrev pub after_turn : Turn → (Watcher → M Ending) → M Ending
  after_turn (next w) on = on w
  after_turn (returned (ok u)) on = pure ended
  after_turn (returned (err e)) on = raise e
  after_turn replaced on = pure reborn

  unfoldable pub loop : List Answers → Watcher → M Ending
  loop [] w = pure (running w)
  loop (a ∷ later) w = turn_with w a >>= λ t. after_turn t (loop later)

  -- what follows the loop
  abbrev pub finish : Ending → M Ending
  finish ended = do remove_file env watch_pid; pure ended
  finish e = pure e

  unfoldable pub start : Setup → List Answers → M Ending
  start s answers = do prepare s; e ← loop answers (record { loop = init; children = [] }); finish e

  -- the test of the singleton lock
  unfoldable pub begin : Acquired → Setup → List Answers → M Ending
  begin (failed would_block) s answers = pure another
  begin (failed other) s answers = raise Error.io
  begin acquired s answers = start s answers

  unfoldable pub run : Setup → List Answers → M Ending
  run s answers = begin (Lock.new s.open_singleton s.lock_singleton true) s answers
