-- ===== src/Storage/Events.antt =====
-- The thread of `Events` in storage.rs, which tells the watcher of changes of the property that says
-- whether a user's storage is unlocked.
use android_smb_for_ksu.Common.{
  ℕ, ◌+◌, ◌≡◌, refl, sym, ap, subst, ◌∙◌, Bool, true, false, not, ◌||◌, Option, none, some, arith,
  if◌then◌else◌, is_empty, Result, Error, ok, err, Bool-cases, inl, inr,
}
use android_smb_for_ksu.Text.{Text, str_eq}
use android_smb_for_ksu.Text.Lemmas.{str_eq_iff}
use android_smb_for_ksu.Storage.{key_for}
use android_smb_for_ksu.Storage.Property.{
  Area, Follows, Round, start, has_global, has_info, has_serial, has_value, waiting, finished, look,
  Sleeps, Knows, Follows-Knows, look-Knows,
}

-- `Events`: whether the eventfd could be made and the thread be spawned are answers of the system; a
-- share outside the users' storage needs no thread
pub record Events : Type 0 where
  pub key : Text
  pub has_thread : Bool

unfoldable pub for_key : Text → Bool → Bool → Result Events
for_key key has_fd spawns =
    if not has_fd
    then err Error.io
    else if is_empty key
    then ok (record { key = key; has_thread = false })
    else if spawns
    then ok (record { key = key; has_thread = true })
    else err Error.io

-- `Events::new`
unfoldable pub new : Text → Bool → Bool → Result Events
unfolding for_key key_for
new path has_fd spawns = for_key (key_for path) has_fd spawns

-- `previous`, and the counter of the eventfd. `told` is not in the code: the value that the last write
-- to the eventfd stood for.
pub record Thread : Type 0 where
  pub round : Round
  pub previous : Option Text
  pub counter : ℕ
  pub told : Option Text

-- `previous.as_ref() != Some(&value)`
abbrev pub differs : Option Text → Text → Bool
differs none v = true
differs (some u) v = not (str_eq u v)

abbrev pub notify : Thread → Text → Thread
notify t v = record t { previous = some v; counter = t.counter + 1; told = some v }

-- one step of the loop
abbrev pub after_value : Thread → Bool → ℕ → Text → Thread
after_value t found serial v =
    let next = if differs t.previous v || not found then notify t v else t in
    record next { round = waiting found serial v }

abbrev pub advance_from : Thread → Area → Round → Thread
advance_from t a (has_value found serial v) = after_value t found serial v
advance_from t a (waiting found serial v) = record t { round = start }
advance_from t a start = record t { round = look a start }
advance_from t a (has_global g) = record t { round = look a (has_global g) }
advance_from t a (has_info g found) = record t { round = look a (has_info g found) }
advance_from t a (has_serial found s) = record t { round = look a (has_serial found s) }
advance_from t a (finished done) = t

unfoldable pub advance : Thread → Area → Thread
unfolding look str_eq
advance t a = advance_from t a t.round

-- `Events::drain`: a read of the eventfd sets its counter to 0
unfoldable pub drain : Thread → Thread
drain t = record t { counter = 0 }

pub record State : Type 0 where
  pub area : Area
  pub thread : Thread

-- the thread, the watcher's `drain` and the rest of the system, in any order
pub data Step (s : State) : State → Type 0 where
  other : {a : Area} → Follows s.area a → Step s (record s { area = a })
  turn : Step s (record s { thread = advance s.thread s.area })
  drained : Step s (record s { thread = drain s.thread })

abbrev pub fresh : Thread
fresh = record { round = start; previous = none; counter = 0; told = none }

pub data Reach (a : Area) : State → Type 0 where
  begun : Reach a (record { area = a; thread = fresh })
  later : {s t : State} → Reach a s → Step s t → Reach a t

-- a thread that waits has told of the value that its round has read
abbrev pub HasTold : Thread → Round → Type 0
HasTold t (waiting found serial v) = t.previous ≡ some v
HasTold t r = Unit

pub record Fits (a : Area) (t : Thread) : Type 0 where
  pub knows : Knows a t.round
  pub waits : HasTold t t.round
  pub honest : t.told ≡ t.previous

differs-false : (o : Option Text) (v : Text) → differs o v ≡ false → o ≡ some v
differs-false none v h = cc
differs-false (some u) v h = ap some ((str_eq_iff u v).0 (ground arith))

after_value-Fits :
    (a : Area) (t : Thread) (found : Bool) (serial : ℕ) (v : Text)
    → Knows a (has_value found serial v)
    → t.told ≡ t.previous
    → Fits a (after_value t found serial v)
after_value-Fits a t found serial v k h = elim (Bool-cases (differs t.previous v || not found)) [
  | inl write ↦ rw write (record { knows = k; waits = refl; honest = refl })
  | inr quiet ↦
      rw quiet (record { knows = k; waits = differs-false t.previous v (ground arith); honest = h })
]

look-Fits :
    (a : Area) (t : Thread) (r : Round)
    → Knows a r
    → t.told ≡ t.previous
    → HasTold t (look a r)
    → Fits a (record t { round = look a r })
look-Fits a t r k h w = record { knows = look-Knows a r k; waits = w; honest = h }

advance-Fits :
    (a : Area) (t : Thread) (r : Round)
    → t.round ≡ r
    → Knows a r
    → Fits a t
    → Fits a (advance_from t a r)
unfolding look
advance-Fits a t start e k f = look-Fits a t start k f.honest tt
advance-Fits a t (has_global g) e k f = look-Fits a t (has_global g) k f.honest tt
advance-Fits a t (has_info g b) e k f = look-Fits a t (has_info g b) k f.honest tt
advance-Fits a t (has_serial b n) e k f = look-Fits a t (has_serial b n) k f.honest tt
advance-Fits a t (has_value b n v) e k f = after_value-Fits a t b n v k f.honest
advance-Fits a t (waiting b n v) e k f = record { knows = tt; waits = tt; honest = f.honest }
advance-Fits a t (finished done) e k f = f

drain-HasTold : (t : Thread) (r : Round) → HasTold t r → HasTold (drain t) r
unfolding drain
drain-HasTold t start h = tt
drain-HasTold t (has_global g) h = tt
drain-HasTold t (has_info g b) h = tt
drain-HasTold t (has_serial b n) h = tt
drain-HasTold t (has_value b n v) h = tt
drain-HasTold t (waiting b n v) h = h
drain-HasTold t (finished done) h = tt

Step-Fits : {s t : State} → Step s t → Fits s.area s.thread → Fits t.area t.thread
unfolding advance drain
Step-Fits {s} (other {a} f) h = record {
  knows = Follows-Knows s.area a s.thread.round f h.knows;
  waits = h.waits;
  honest = h.honest;
}
Step-Fits {s} turn h = advance-Fits s.area s.thread s.thread.round refl h.knows h
Step-Fits {s} drained h = record {
  knows = h.knows;
  waits = drain-HasTold s.thread s.thread.round h.waits;
  honest = h.honest;
}

Reach-Fits : {a : Area} {s : State} → Reach a s → Fits s.area s.thread
Reach-Fits begun = record { knows = tt; waits = tt; honest = refl }
Reach-Fits (later r step) = Step-Fits step (Reach-Fits r)

-- While the thread sleeps with a number that is still the same, the last write to the eventfd stood
-- for the value that the property has: no change is left untold, in whatever order the thread, the
-- watcher and the writers of properties have run.
pub Events-told :
    {a : Area} {s : State} {found : Bool} {serial : ℕ} {v : Text}
    → Reach a s
    → s.thread.round ≡ waiting found serial v
    → Sleeps found serial s.area
    → s.thread.told ≡ some s.area.value
Events-told {s = s} {found} {serial} {v} r e sleeps =
    let f = Reach-Fits r in
    let k : Knows s.area (waiting found serial v) = subst (Knows s.area) e f.knows in
    let w : s.thread.previous ≡ some v = subst (HasTold s.thread) e f.waits in
    f.honest ∙ w ∙ ap some (sym (k.2 sleeps))
