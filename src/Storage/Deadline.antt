-- ===== src/Storage/Deadline.antt =====
-- The end of `wait_equals` (storage.rs): once its deadline has passed, it returns within six steps of its
-- own.
use android_smb_for_ksu.Common.{
  ℕ, suc, ◌-◌, ◌≤◌, ◌≡◌, refl, ◌∙◌, arith, Bool, true, false, Bool-cases, inl, inr, Result, Error,
  ok, err, some, ap,
}
use android_smb_for_ksu.Text.{Text, str_eq}
use android_smb_for_ksu.Storage.Property.{
  Area, Follows, Round, start, has_global, has_info, has_serial, has_value, waiting, finished, look,
}
use android_smb_for_ksu.Storage.WaitEquals.{
  State, Reach, other, turn, later, advance, returned, wait_equals-ok, Saw,
}

-- the steps that are left, at most, once the deadline has passed
abbrev left : Round → ℕ
left (waiting f s v) = 6
left start = 5
left (has_global g) = 4
left (has_info g f) = 3
left (has_serial f s) = 2
left (has_value f s v) = 1
left (finished done) = 0

-- `n` steps of the function after its deadline, with whatever the rest of the system does between them
pub data LateRun (expected : Text) (s : State) : ℕ → State → Type 0 where
  here : LateRun expected s 0 s
  others :
      {n : ℕ} {t : State} {a : Area}
      → LateRun expected s n t
      → Follows t.area a
      → LateRun expected s n (record t { area = a })
  own :
      {n : ℕ} {t : State}
      → LateRun expected s n t
      → LateRun expected s (suc n) (record t { round = advance expected t.area true t.round })

advance-left :
    (expected : Text) (a : Area) (r : Round) → left (advance expected a true r) ≤ left r - 1
unfolding advance look
advance-left expected a start = omega arith
advance-left expected a (has_global g) = omega arith
advance-left expected a (has_info g f) = omega arith
advance-left expected a (has_serial f s) = omega arith
advance-left expected a (waiting f s v) = omega arith
advance-left expected a (finished done) = omega arith
advance-left expected a (has_value f s v) = elim (Bool-cases (str_eq v expected)) [
  | inl same ↦ rw same (omega arith)
  | inr differs ↦ rw differs (omega arith)
]

left-most : (r : Round) → left r ≤ 6
left-most start = omega arith
left-most (has_global g) = omega arith
left-most (has_info g f) = omega arith
left-most (has_serial f s) = omega arith
left-most (has_value f s v) = omega arith
left-most (waiting f s v) = omega arith
left-most (finished done) = omega arith

LateRun-left :
    {expected : Text} {s t : State} {n : ℕ}
    → LateRun expected s n t
    → left t.round ≤ left s.round - n
LateRun-left here = omega arith
LateRun-left (others run f) = LateRun-left run
LateRun-left {expected} (own {t = u} run) =
    omega (arith, LateRun-left run, advance-left expected u.area u.round)

pub LateRun-Reach :
    {expected : Text} {a : Area} {s t : State} {n : ℕ}
    → Reach expected a s
    → LateRun expected s n t
    → Reach expected a t
LateRun-Reach r here = r
LateRun-Reach r (others run f) = later (LateRun-Reach r run) (other f)
LateRun-Reach r (own run) = later (LateRun-Reach r run) (turn true)

none_left : (r : Round) → left r ≡ 0 → (done : Bool) × (r ≡ finished done)
none_left (finished done) e = (done, refl)
none_left start e = absurd (omega (arith, e))
none_left (has_global g) e = absurd (omega (arith, e))
none_left (has_info g f) e = absurd (omega (arith, e))
none_left (has_serial f s) e = absurd (omega (arith, e))
none_left (has_value f s v) e = absurd (omega (arith, e))
none_left (waiting f s v) e = absurd (omega (arith, e))

abbrev pub answer_of : Bool → Result (Unit {0})
answer_of true = ok tt
answer_of false = err Error.wait_timeout

returned-finished : (done : Bool) → returned (finished done) ≡ some (answer_of done)
returned-finished true = refl
returned-finished false = refl

-- `wait_equals` returns: from any state that it can reach, six of its steps after the deadline are
-- enough, whatever the rest of the system does between them. Then it has returned success or the
-- timeout, and success only if the property has had the value in a state that this run has passed through.
pub wait_equals-ends :
    {expected : Text} {a : Area} {s t : State} (r : Reach expected a s)
    (run : LateRun expected s 6 t)
    → (done : Bool) × (returned t.round ≡ some (answer_of done))
      × (done ≡ true → Saw expected (LateRun-Reach r run))
wait_equals-ends {s = s} {t} r run =
    let (done, e) = none_left t.round (omega (arith, LateRun-left run, left-most s.round)) in
    let back : returned t.round ≡ some (answer_of done) = ap returned e ∙ returned-finished done in
    (done, back, λ h. wait_equals-ok (LateRun-Reach r run) (back ∙ ap (λ d. some (answer_of d)) h))
