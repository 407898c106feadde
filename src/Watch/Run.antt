-- ===== src/Watch/Run.antt =====
-- One turn of the loop in `run` (native/smbctl/src/watch.rs), from the answers of the system to the state
-- in which the next turn begins.
use android_smb_for_ksu.Common.{
  ℕ, Bool, true, false, not, ◌&&◌, ◌||◌, List, [], ◌∷◌, Option, none, some, ltb, ◌==◌, is_some,
  if◌then◌else◌, Result, Error, ok, err,
}
use android_smb_for_ksu.Text.{Text}
use android_smb_for_ksu.Watch.Loop.{Loop, observe, is_due, pass, pass_invalid, on_crash, on_storage}

-- a server process: its number, and its start time, the largest `u64` if that is no number
pub record Child : Type 0 where
  pub pid : ℕ
  pub started : ℕ

-- `min_by_key` of the start time and the number; the first of equal ones
abbrev pub is_older : Child → Child → Bool
is_older a b = ltb a.started b.started || a.started == b.started && ltb a.pid b.pid

unfoldable pub oldest : Child → List Child → Child
oldest a [] = a
oldest a (b ∷ bs) = if is_older b a then oldest b bs else oldest a bs

unfoldable pub master : List Child → Option Child
unfolding oldest
master [] = none
master (c ∷ cs) = some (oldest c cs)

pub record Watcher : Type 0 where
  pub loop : Loop
  pub children : List Child

-- which descriptors `poll` has found ready: the property's, the directories', the master's, and the
-- network's or the configuration's
pub record Events : Type 0 where
  pub property : Bool
  pub dirs : Bool
  pub exited : Bool
  pub changes : Bool

-- what the system answers in a turn; the times are those of the test for a retry, of the end of
-- `reconcile`, of the timeout of `poll` and of the exit
pub record Answers : Type 0 where
  pub stopped : Bool
  pub moved : Bool  -- the share is another user's
  pub execs : Bool  -- `exec` of a new watcher; it returns only if it fails
  pub snapshot : Result Text
  pub now : ℕ
  pub succeeds : Bool  -- `reconcile`
  pub later : ℕ
  pub pids : Result (List Child)
  pub dirs : Bool  -- the storage is locked and its directories can be watched
  pub unlocked : Bool  -- the storage has been unlocked meanwhile
  pub at_poll : ℕ
  pub events : Result Events
  pub stopped_late : Bool
  pub exit_time : ℕ
  pub window : Result (Unit {0})  -- `poll` in the coalescing window

pub data Turn : Type 0 where
  next : Watcher → Turn
  returned : Result (Unit {0}) → Turn
  replaced : Turn  -- `exec` of a new watcher

-- whether the turn calls `reconcile`
unfoldable pub reconciles : Watcher → Result Text → ℕ → Bool
unfolding observe is_due
reconciles w (ok s) now = is_due (observe w.loop s) s now
reconciles w (err e) now = false

-- the match on the snapshot
unfoldable pub look : Watcher → Answers → Result Text → Result Watcher
unfolding pass pass_invalid reconciles
look w a (err e) = ok (record { loop = pass_invalid w.loop; children = w.children })
look w a (ok s) =
    let loop = pass w.loop s a.now a.later a.succeeds in
    if reconciles w (ok s) a.now
    then (elim a.pids [ ok cs ↦ ok (record { loop = loop; children = cs }) | err e ↦ err e ])
    else ok (record { loop = loop; children = w.children })

-- what follows `poll`
abbrev pub wake : Bool → Loop → Loop
wake true l = on_storage l
wake false l = l

unfoldable pub polled : Watcher → Events → ℕ → Watcher
unfolding on_storage on_crash
polled w ev now =
    let l = wake (ev.property || ev.dirs) w.loop in
    if ev.exited && is_some (master w.children)
    then record { loop = on_crash l now; children = [] }
    else record { loop = l; children = w.children }

abbrev pub after_poll : Watcher → Answers → Result Events → Turn
after_poll w a (err e) = returned (err e)
after_poll w a (ok ev) =
    if a.stopped_late
    then returned (ok tt)
    else if ev.changes
    then elim a.window [ ok u ↦ next (polled w ev a.exit_time) | err e ↦ returned (err e) ]
    else next (polled w ev a.exit_time)

-- from the recheck of the storage on
abbrev pub after_look : Answers → Result Watcher → Turn
after_look a (err e) = returned (err e)
after_look a (ok w) =
    if a.dirs && a.unlocked
    then next (record w { loop = on_storage w.loop })
    else after_poll w a a.events

unfoldable pub turn : Watcher → Answers → Turn
unfolding look polled on_storage
turn w a =
    if a.stopped
    then returned (ok tt)
    else if a.moved
    then (if a.execs then replaced else returned (err Error.io))
    else after_look a (look w a a.snapshot)

-- The window that joins a burst of events: `poll` again and again until a time that is fixed at its
-- start. A round has the time of its test, whether the watcher is to stop, and the answer of `poll`;
-- the result is the rounds that were run.
unfoldable pub coalesce : ℕ → List (ℕ × Bool × Result (Unit {0})) → Result (List ℕ)
coalesce until [] = ok []
coalesce until ((now, stop, answer) ∷ rounds) = elim (ltb now until && not stop) [
  | false ↦ ok []
  | true ↦ elim answer [
    | err e ↦ err e
    | ok u ↦ elim (coalesce until rounds) [ err e ↦ err e | ok ts ↦ ok (now ∷ ts) ]
  ]
]
