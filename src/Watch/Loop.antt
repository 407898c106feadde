-- ===== src/Watch/Loop.antt =====
-- The state of the loop in `run` (native/smbctl/src/watch.rs): when it reconciles, when it retries
-- after a failure, and how it answers a crash of the server. Times are in milliseconds.
use android_smb_for_ksu.Common.{
  ℕ, ◌+◌, ◌-◌, ◌*◌, ◌%◌, ◌^◌, Bool, true, false, not, ◌||◌, List, [], ◌∷◌, ◌++◌, Option, none, some,
  ltb, leb, if◌then◌else◌, length,
}
use android_smb_for_ksu.Text.{Text, str_eq}

pub record Loop : Type 0 where
  pub signature : Text
  pub failures : ℕ
  pub retry : Option ℕ
  pub force : Bool
  pub crashes : List ℕ

abbrev pub init : Loop
init = record { signature = []; failures = 0; retry = none; force = true; crashes = [] }

abbrev pub passed : Option ℕ → ℕ → Bool
passed none now = false
passed (some t) now = leb t now

-- a new snapshot ends the backoff
unfoldable pub observe : Loop → Text → Loop
unfolding str_eq
observe l now_seen =
    if str_eq now_seen l.signature then l else record l { failures = 0; retry = none }

-- whether `reconcile` is called, for the loop after `observe`
unfoldable pub is_due : Loop → Text → ℕ → Bool
unfolding str_eq
is_due l now_seen now = not (str_eq now_seen l.signature) || l.force || passed l.retry now

-- what `reconcile` returned, at the time `now` behind it; `failures` is a `u32`
unfoldable pub after_reconcile : Loop → Bool → ℕ → Loop
after_reconcile l true now = record l { failures = 0; retry = none }
after_reconcile l false now =
    let f = (l.failures + 1) % 2 ^ 32 in
    record l { failures = f; retry = if leb f 3 then some (now + 1000 * 2 ^ f) else none }

-- One pass over a snapshot: `now_seen` is the snapshot, `now` the clock at the test, `later` the
-- clock behind `reconcile`, and `succeeds` its result.
unfoldable pub pass : Loop → Text → ℕ → ℕ → Bool → Loop
unfolding observe is_due after_reconcile
pass l now_seen now later succeeds =
    let o = observe l now_seen in
    if is_due o now_seen now
    then record (after_reconcile o succeeds later) { signature = now_seen; force = false }
    else o

-- the configuration cannot be read
unfoldable pub pass_invalid : Loop → Loop
pass_invalid l = record l { retry = none; force = false }

abbrev pub window : ℕ
window = 30000

-- `while crashes.front() is 30 s old or more { pop_front }`
unfoldable pub drop_old : ℕ → List ℕ → List ℕ
drop_old now [] = []
drop_old now (t ∷ ts) = let rest = drop_old now ts in if leb window (now - t) then rest else t ∷ ts

-- the exit of the master server
unfoldable pub on_crash : Loop → ℕ → Loop
unfolding drop_old
on_crash l now =
    let crashes = drop_old now l.crashes ++ now ∷ [] in
    if ltb 3 (length crashes)
    then record l { crashes = crashes; retry = some (now + window); force = false }
    else record l { crashes = crashes; force = true }

-- an event of the storage directories or of the CE property
unfoldable pub on_storage : Loop → Loop
on_storage l = record l { force = true }

-- the timeout of `poll`: -1 to wait for ever is `none`; at least a millisecond, at most `i32::MAX`
abbrev pub clamp : ℕ → ℕ
clamp ms = if ltb ms 1 then 1 else if ltb (2 ^ 31 - 1) ms then 2 ^ 31 - 1 else ms

unfoldable pub poll_timeout : Loop → ℕ → Option ℕ
poll_timeout l now = elim l.retry [ none ↦ none | some t ↦ some (clamp (t - now)) ]
