-- ===== src/Storage/Property.antt =====
-- How `wait_equals` and the thread of `Events` (storage.rs) read a system property. The property area
-- belongs to Android's libc: what its documentation promises of the serial numbers is `Follows`.
use android_smb_for_ksu.Common.{ℕ, ◌≤◌, ◌≡◌, Bool, true, false, arith, if◌then◌else◌}
use android_smb_for_ksu.Text.{Text}

-- one property, as `__system_property_find`, `_serial` and `_get` show it, and the serial number of
-- the whole area; a property that is not there has an empty value
pub record Area : Type 0 where
  pub global : ℕ
  pub present : Bool
  pub serial : ℕ
  pub value : Text

-- `b` is a later state of the area than `a`: a property stays once it is there, every change of its
-- value changes its serial number, and every change of the area, its creation too, that of the area.
-- Serial numbers are not bounded here.
pub record Follows (a b : Area) : Type 0 where
  pub stays : a.present ≡ true → b.present ≡ true
  pub counts : a.present ≡ true → a.serial ≤ b.serial
  pub tells : a.present ≡ true → a.serial ≡ b.serial → a.value ≡ b.value
  pub counts_all : a.global ≤ b.global
  pub tells_all : a.global ≡ b.global → a.value ≡ b.value

-- Where a round of either loop stands. `found` is that `pi` is not null, and `serial` the number that
-- is handed to the wait. The value that the round has read is kept for the statements.
pub data Round : Type 0 where
  start : Round
  has_global : ℕ → Round
  has_info : ℕ → Bool → Round
  has_serial : Bool → ℕ → Round
  has_value : Bool → ℕ → Text → Round
  waiting : Bool → ℕ → Text → Round
  finished : Bool → Round

-- the four reads at the head of a round, in their order
unfoldable pub look : Area → Round → Round
look a start = has_global a.global
look a (has_global g) = has_info g a.present
look a (has_info g found) = has_serial found (if found then a.serial else g)
look a (has_serial found serial) = has_value found serial a.value
look a r = r

-- the number on which the wait for a property sleeps: its own, or that of the area
abbrev pub watched : Bool → Area → ℕ
watched true a = a.serial
watched false a = a.global

-- the wait with this number has no reason to end
abbrev pub Sleeps : Bool → ℕ → Area → Type 0
Sleeps found serial a = serial ≡ watched found a

-- what was read is current as long as the number is
abbrev pub IsCurrent : Bool → ℕ → Text → Area → Type 0
IsCurrent found serial v a =
    (found ≡ true → a.present ≡ true)
    × (serial ≤ watched found a)
    × (serial ≡ watched found a → a.value ≡ v)

-- what a round knows
abbrev pub Knows : Area → Round → Type 0
Knows a start = Unit
Knows a (has_global g) = g ≤ a.global
Knows a (has_info g found) = (g ≤ a.global) × (found ≡ true → a.present ≡ true)
Knows a (has_serial found serial) = (found ≡ true → a.present ≡ true) × (serial ≤ watched found a)
Knows a (has_value found serial v) = IsCurrent found serial v a
Knows a (waiting found serial v) = IsCurrent found serial v a
Knows a (finished done) = Unit

-- The area may change between any two reads.
pub Follows-Knows : (a b : Area) (r : Round) → Follows a b → Knows a r → Knows b r
Follows-Knows a b start f k = tt
Follows-Knows a b (has_global g) f k = omega (arith, f.counts_all)
Follows-Knows a b (has_info g found) f k = ground arith
Follows-Knows a b (has_serial true s) f k = ground arith
Follows-Knows a b (has_serial false s) f k = ground arith
Follows-Knows a b (has_value true s v) f k = ground arith
Follows-Knows a b (has_value false s v) f k = ground arith
Follows-Knows a b (waiting true s v) f k = ground arith
Follows-Knows a b (waiting false s v) f k = ground arith
Follows-Knows a b (finished done) f k = tt

pub look-Knows : (a : Area) (r : Round) → Knows a r → Knows a (look a r)
unfolding look
look-Knows a start k = omega arith
look-Knows a (has_global g) k = (k, λ h. h)
look-Knows a (has_info g true) k = ground arith
look-Knows a (has_info g false) k = ground arith
look-Knows a (has_serial found s) k = ground arith
look-Knows a (has_value found s v) k = k
look-Knows a (waiting found s v) k = k
look-Knows a (finished done) k = tt
