-- ===== src/Storage/WaitEquals.antt =====
-- `wait_equals` of storage.rs: wait until a property has a value, or a deadline has passed.
use android_smb_for_ksu.Common.{
  ◌⊎◌, ℕ, ◌≡◌, ◌≢◌, refl, sym, subst, ◌∙◌, Bool, true, false, not, Option, none, some,
  if◌then◌else◌, is_empty, Result, Error, ok, err, reject_if, ◌>>◌, Bool-cases, inl, inr,
}
use android_smb_for_ksu.Text.{Text, str_eq, contains_char}
use android_smb_for_ksu.Text.Lemmas.{str_eq_iff}
use android_smb_for_ksu.Storage.Property.{
  Area, Follows, Round, start, has_global, has_info, has_serial, has_value, waiting, finished, look,
  Sleeps, Knows, Follows-Knows, look-Knows,
}

-- what comes before the loop: `CString::new`, the test of the name, and the deadline, which
-- `checked_add` may not be able to represent
unfoldable pub begin : Text → Bool → Result Round
begin key representable = do
  reject_if (contains_char key 0) Error.nul_in_name
  reject_if (is_empty key) Error.empty_property
  reject_if (not representable) Error.timeout_overflow
  ok start

-- One step of the loop. `late` is that the deadline has passed. The wait ends for whatever reason, a
-- timeout included, and nothing of how it ended is read. The time left fits a `timespec` of 64 bits.
unfoldable pub advance : Text → Area → Bool → Round → Round
unfolding look str_eq
advance expected a late (has_value found serial v) =
    if str_eq v expected
    then finished true
    else if late
    then finished false
    else waiting found serial v
advance expected a late (waiting found serial v) = start
advance expected a late start = look a start
advance expected a late (has_global g) = look a (has_global g)
advance expected a late (has_info g found) = look a (has_info g found)
advance expected a late (has_serial found s) = look a (has_serial found s)
advance expected a late (finished done) = finished done

-- what the function returns
abbrev pub returned : Round → Option (Result (Unit {0}))
returned (finished true) = some (ok tt)
returned (finished false) = some (err Error.wait_timeout)
returned r = none

pub record State : Type 0 where
  pub area : Area
  pub round : Round

-- the loop and the rest of the system, in any order
pub data Step (expected : Text) (s : State) : State → Type 0 where
  other : {a : Area} → Follows s.area a → Step expected s (record s { area = a })
  turn : (late : Bool) → Step expected s (record s { round = advance expected s.area late s.round })

pub data Reach (expected : Text) (a : Area) : State → Type 0 where
  begun : Reach expected a (record { area = a; round = start })
  later : {s t : State} → Reach expected a s → Step expected s t → Reach expected a t

-- a round waits only behind another value
abbrev pub WaitsFor : Text → Round → Type 0
WaitsFor expected (waiting found serial v) = v ≢ expected
WaitsFor expected r = Unit

advance-Knows :
    (expected : Text) (a : Area) (late : Bool) (r : Round)
    → Knows a r × WaitsFor expected r
    → Knows a (advance expected a late r) × WaitsFor expected (advance expected a late r)
unfolding advance look
advance-Knows expected a late start k = (look-Knows a start k.0, tt)
advance-Knows expected a late (has_global g) k = (look-Knows a (has_global g) k.0, tt)
advance-Knows expected a late (has_info g f) k = (look-Knows a (has_info g f) k.0, tt)
advance-Knows expected a late (has_serial f s) k = (look-Knows a (has_serial f s) k.0, tt)
advance-Knows expected a late (waiting f s v) k = (tt, tt)
advance-Knows expected a late (finished done) k = (tt, tt)
advance-Knows expected a late (has_value f s v) k = elim (Bool-cases (str_eq v expected)) [
  | inl same ↦ rw same (tt, tt)
  | inr differs ↦ elim (Bool-cases late) [
    | inl there ↦ rw (differs, there) (tt, tt)
    | inr left ↦ rw (differs, left) (k.0, λ e. cc ((str_eq_iff v expected).1 e))
  ]
]

Reach-Knows :
    {expected : Text} {a : Area} {s : State}
    → Reach expected a s
    → Knows s.area s.round × WaitsFor expected s.round
Reach-Knows begun = (tt, tt)
Reach-Knows {expected} (later {s} r (other f)) =
    let k = Reach-Knows r in (Follows-Knows s.area _ s.round f k.0, k.1)
Reach-Knows {expected} (later {s} r (turn late)) =
    advance-Knows expected s.area late s.round (Reach-Knows r)

-- No wakeup is lost: while `wait_equals` sleeps with the number of the property, or with that of the
-- area if the property was not there, and the number is still the same, the property does not have
-- the value that is waited for, whatever happened between the reads of the round.
pub wait_equals-awake :
    {expected : Text} {a : Area} {s : State} {found : Bool} {serial : ℕ} {v : Text}
    → Reach expected a s
    → s.round ≡ waiting found serial v
    → Sleeps found serial s.area
    → s.area.value ≢ expected
wait_equals-awake {expected} {s = s} {found} {serial} {v} r e sleeps h =
    let k = subst (λ q. Knows s.area q × WaitsFor expected q) e (Reach-Knows r) in
    k.1 (sym (k.0.2 sleeps) ∙ h)

-- the property has had the value in one of the states that the run has passed through
abbrev pub Saw : {expected : Text} {a : Area} {s : State} → Text → Reach expected a s → Type 0
Saw {a = a} v begun = a.value ≡ v
Saw v (later {t = t} r step) = Saw v r ⊎ (t.area.value ≡ v)

Saw-now :
    {expected : Text} {a : Area} {s : State} (r : Reach expected a s) {v : Text}
    → s.area.value ≡ v
    → Saw v r
Saw-now begun e = e
Saw-now (later r step) e = inr e

-- a value that the round has read, or has found to be the expected one, was there
abbrev WasThere : {expected : Text} {a : Area} {s : State} → Reach expected a s → Round → Type 0
WasThere r (has_value found serial v) = Saw v r
WasThere {expected} r (finished true) = Saw expected r
WasThere r q = Unit

WasThere-later :
    {expected : Text} {a : Area} {s t : State} (r : Reach expected a s) (step : Step expected s t)
    (q : Round)
    → WasThere r q
    → WasThere (later r step) q
WasThere-later r step start k = tt
WasThere-later r step (has_global g) k = tt
WasThere-later r step (has_info g f) k = tt
WasThere-later r step (has_serial f n) k = tt
WasThere-later r step (has_value f n v) k = inl k
WasThere-later r step (waiting f n v) k = tt
WasThere-later r step (finished true) k = inl k
WasThere-later r step (finished false) k = tt

turn-WasThere :
    {expected : Text} {a : Area} {s : State} (r : Reach expected a s) (late : Bool) (q : Round)
    → WasThere r q
    → WasThere r (advance expected s.area late q)
unfolding advance look
turn-WasThere r late start k = tt
turn-WasThere r late (has_global g) k = tt
turn-WasThere r late (has_info g f) k = tt
turn-WasThere r late (has_serial f n) k = Saw-now r refl
turn-WasThere r late (waiting f n v) k = tt
turn-WasThere r late (finished true) k = k
turn-WasThere r late (finished false) k = k
turn-WasThere {expected} r late (has_value f n v) k = elim (Bool-cases (str_eq v expected)) [
  | inl same ↦ rw same (subst (λ x. Saw x r) ((str_eq_iff v expected).0 same) k)
  | inr differs ↦ elim (Bool-cases late) [
    | inl past ↦ rw (differs, past) tt
    | inr left ↦ rw (differs, left) tt
  ]
]

Reach-WasThere :
    {expected : Text} {a : Area} {s : State} (r : Reach expected a s) → WasThere r s.round
Reach-WasThere begun = tt
Reach-WasThere (later {s} r (other f)) = WasThere-later r (other f) s.round (Reach-WasThere r)
Reach-WasThere {expected} (later {s} r (turn late)) =
    WasThere-later r (turn late) (advance expected s.area late s.round)
      (turn-WasThere r late s.round (Reach-WasThere r))

returned-ok : (r : Round) → returned r ≡ some (ok tt) → r ≡ finished true
returned-ok (finished true) e = refl
returned-ok (finished false) e = cc
returned-ok start e = cc
returned-ok (has_global g) e = cc
returned-ok (has_info g f) e = cc
returned-ok (has_serial f n) e = cc
returned-ok (has_value f n v) e = cc
returned-ok (waiting f n v) e = cc

-- When `wait_equals` returns with success, the property has had the value in a state that the run has
-- passed through.
pub wait_equals-ok :
    {expected : Text} {a : Area} {s : State} (r : Reach expected a s)
    → returned s.round ≡ some (ok tt)
    → Saw expected r
wait_equals-ok {expected} {a} {s} r e =
    subst (WasThere r) (returned-ok s.round e) (Reach-WasThere r)
