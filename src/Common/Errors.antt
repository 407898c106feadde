-- ===== src/Common/Errors.antt =====
-- `crate::Result` (native/smbctl/src/main.rs): a boxed error is one of the errors below. The
-- messages that hold a name carry it; `panicked` is an index or an `unwrap` that aborts.
use Prim.Native.Nat.{ℕ}
use mathlib.Core.Path.{◌≡◌, refl}
use mathlib.Core.Logic.{◌⊎◌, inl, inr}
use mathlib.Core.Bool.{Bool, true, false}
use mathlib.Core.List.{List}
use mathlib.Core.Option.{Option, none, some}

pub data Error : Type 0 where
  config_too_long invalid_line invalid_port invalid_auth_mode invalid_username : Error
  invalid_share_path invalid_protocol protocol_order expected_key_value : Error
  unknown_key invalid_boolean invalid_value invalid_name : List ℕ → Error
  password_hex password_utf8 password_nul missing_password : Error
  missing_token : List ℕ → Error
  no_trusted_lan auth_password_required not_ready helper_missing launch_failed : Error
  listeners_not_owned process_survived wait_timeout empty_property invalid_boot_id : Error
  nul_in_name timeout_overflow : Error
  log_not_directory no_parent no_module_path usage expected_equals invalid_timeout : Error
  unknown_command : List ℕ → Error
  io panicked : Error

pub data Result {ℓ} (A : Type ℓ) : Type ℓ where
  ok : A → Result A
  err : Error → Result A

infixl 5 ◌>>=◌ ◌>>◌
abbrev pub ◌>>=◌ {ℓ κ} : {A : Type ℓ} {B : Type κ} → Result A → (A → Result B) → Result B
err e >>= rest = err e
ok value >>= rest = rest value

abbrev pub ◌>>◌ {ℓ} : {B : Type ℓ} → Result (Unit {0}) → Result B → Result B
first >> rest = first >>= λ done. rest

-- `if fails { return Err(e) }`
abbrev pub reject_if : Bool → Error → Result (Unit {0})
reject_if true e = err e
reject_if false e = ok tt

-- `option.ok_or(e)?`
abbrev pub ok_or {ℓ} : {A : Type ℓ} → Option A → Error → Result A
ok_or none e = err e
ok_or (some a) e = ok a

abbrev pub is_ok {ℓ} : {A : Type ℓ} → Result A → Bool
is_ok (ok a) = true
is_ok (err e) = false

-- a chain that succeeds has gone through its first step
pub >>=-eq-ok {ℓ κ} :
    {A : Type ℓ} {B : Type κ} (first : Result A) (rest : A → Result B) {out : B}
    → (first >>= rest) ≡ ok out
    → (a : A) × (first ≡ ok a) × (rest a ≡ ok out)
>>=-eq-ok (err e) rest run = cc
>>=-eq-ok (ok value) rest run = (value, refl, run)

pub reject_if-eq-ok : (b : Bool) (e : Error) → reject_if b e ≡ ok tt → b ≡ false
reject_if-eq-ok true e h = cc
reject_if-eq-ok false e h = refl

pub ok-injective {ℓ} : {A : Type ℓ} {a b : A} → ok a ≡ ok b → a ≡ b
ok-injective h = cc

pub Result-cases {ℓ} :
    {A : Type ℓ} (r : Result A) → ((a : A) × (r ≡ ok a)) ⊎ ((e : Error) × (r ≡ err e))
Result-cases (ok a) = inl (a, refl)
Result-cases (err e) = inr (e, refl)
