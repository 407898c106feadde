-- ===== src/App/Rules.antt =====
-- Reasoning about actions of the application: what an action keeps whatever its outcome, and what
-- holds when it succeeds.
use android_smb_for_ksu.Common.{
  ℕ, ◌≡◌, refl, Bool, true, false, if◌then◌else◌, Result, Error, ok, err, subst,
}
use android_smb_for_ksu.Text.{Text}
use android_smb_for_ksu.App.World.{
  Env, Records, World, M, recorded, log, open_log, version, pure, raise, lift, ask, try_ask, gets,
  continue, ◌>>=◌, fail_if, when,
}

-- `m` keeps `P`, whether it succeeds or not
pub record Keeps {ℓ} {A : Type ℓ} (P : World → Type 0) (m : World → Result A × World) : Type ℓ where
  pub at : (w : World) → P w → P (m w).1

-- a property that does not speak of the time, nor of the logs and the cache
abbrev pub IsTimeless : (World → Type 0) → Type 0
IsTimeless P = (w : World) (x : Records) (t : ℕ) → P w → P (record w { records = x; now = t })

abbrev pub Post {ℓ} : {A : Type ℓ} → (A → World → Type 0) → Result A × World → Type 0
Post Q (ok a, w) = Q a w
Post Q (err e, w) = Unit

-- from `P`, a success of `m` gives `Q`
pub record Ensures {ℓ} {A : Type ℓ} (P : World → Type 0) (m : World → Result A × World)
    (Q : A → World → Type 0) : Type ℓ where
  pub post : (w : World) → P w → Post Q (m w)

module _ {P : World → Type 0} where
  pub Keeps-pure {ℓ} : {A : Type ℓ} (a : A) → Keeps P (pure a)
  unfolding pure
  Keeps-pure a = record { at = λ w h. h }

  pub Keeps-raise {ℓ} : {A : Type ℓ} (e : Error) → Keeps P (raise {A = A} e)
  unfolding raise
  Keeps-raise e = record { at = λ w h. h }

  pub Keeps-lift {ℓ} : {A : Type ℓ} (r : Result A) → Keeps P (lift r)
  unfolding lift
  Keeps-lift r = record { at = λ w h. h }

  pub Keeps-gets {ℓ} : {A : Type ℓ} (f : World → A) → Keeps P (gets f)
  unfolding gets
  Keeps-gets f = record { at = λ w h. h }

  pub Keeps-ask {ℓ} : {A : Type ℓ} → IsTimeless P → (f : ℕ → A) → Keeps P (ask f)
  unfolding ask
  Keeps-ask t f = record { at = λ w h. t w _ _ h }

  pub Keeps-try_ask {ℓ} : {A : Type ℓ} → IsTimeless P → (f : ℕ → Result A) → Keeps P (try_ask f)
  unfolding try_ask
  Keeps-try_ask t f = record { at = λ w h. t w _ _ h }

  pub Keeps-recorded {ℓ} :
      {A : Type ℓ} → IsTimeless P → (f : ℕ → Records → Result A × Records) → Keeps P (recorded f)
  unfolding recorded
  Keeps-recorded t f = record { at = λ w h. t w _ _ h }

  pub Keeps-log : IsTimeless P → (env : Env) (s : Text) → Keeps P (log env s)
  unfolding log
  Keeps-log t env s = Keeps-recorded t _

  pub Keeps-open_log : IsTimeless P → (env : Env) (s : Text) → Keeps P (open_log env s)
  unfolding open_log
  Keeps-open_log t env s = Keeps-recorded t _

  pub Keeps-version : IsTimeless P → (env : Env) → Keeps P (version env)
  unfolding version
  Keeps-version t env = Keeps-recorded t _

  pub Keeps-if {ℓ} :
      {A : Type ℓ} (b : Bool) (m n : World → Result A × World)
      → Keeps P m
      → Keeps P n
      → Keeps P (if b then m else n)
  Keeps-if true m n km kn = km
  Keeps-if false m n km kn = kn

  pub Keeps-when : (b : Bool) (m : M (Unit {0})) → Keeps P m → Keeps P (when b m)
  Keeps-when true m k = k
  Keeps-when false m k = Keeps-pure tt

  pub Keeps-fail_if : (b : Bool) (e : Error) → Keeps P (fail_if b e)
  Keeps-fail_if true e = Keeps-raise e
  Keeps-fail_if false e = Keeps-pure tt

  Keeps-continue {ℓ κ} :
      {A : Type ℓ} {B : Type κ} (f : A → World → Result B × World)
      → ((a : A) → Keeps P (f a))
      → (r : Result A) (w : World) → P w
      → P (continue r f w).1
  Keeps-continue f kf (ok a) w h = (kf a).at w h
  Keeps-continue f kf (err e) w h = h

  pub Keeps-bind {ℓ κ} :
      {A : Type ℓ} {B : Type κ} (m : World → Result A × World) (next : A → World → Result B × World)
      → Keeps P m
      → ((a : A) → Keeps P (next a))
      → Keeps P (m >>= next)
  unfolding ◌>>=◌
  Keeps-bind m next km kf = record {
    at = λ w h. Keeps-continue next kf (m w).0 (m w).1 (km.at w h);
  }

pub ruleset keeps_rules = (
  Keeps-pure, Keeps-raise, Keeps-lift, Keeps-gets, Keeps-ask, Keeps-try_ask, Keeps-if, Keeps-when,
  Keeps-fail_if, Keeps-bind, Keeps-recorded, Keeps-log, Keeps-open_log, Keeps-version,
)

Post-continue {ℓ κ} :
    {A : Type ℓ} {B : Type κ} (Q : A → World → Type 0) (R : B → World → Type 0)
    (f : A → World → Result B × World)
    → ((a : A) → Ensures (Q a) (f a) R)
    → (r : Result A) (w : World) → Post Q (r, w)
    → Post R (continue r f w)
Post-continue Q R f ef (ok a) w h = (ef a).post w h
Post-continue Q R f ef (err e) w h = tt

Post-Keeps {ℓ} :
    {A : Type ℓ} (Q : World → Type 0) (r : Result A) (w : World) → Q w → Post (λ a. Q) (r, w)
Post-Keeps Q (ok a) w h = h
Post-Keeps Q (err e) w h = tt

Post-result : {A : Type 0} (r : Result A) (w : World) → Post (λ a v. r ≡ ok a) (r, w)
Post-result (ok a) w = refl
Post-result (err e) w = tt

Post-any {ℓ} : {A : Type ℓ} (r : Result A) (w : World) → Post (λ a v. Unit) (r, w)
Post-any (ok a) w = tt
Post-any (err e) w = tt

module _ {P : World → Type 0} where
  pub Ensures-bind {ℓ κ} :
      {A : Type ℓ} {B : Type κ} (Q : A → World → Type 0) {R : B → World → Type 0}
      (m : World → Result A × World) (f : A → World → Result B × World)
      → Ensures P m Q
      → ((a : A) → Ensures (Q a) (f a) R)
      → Ensures P (m >>= f) R
  unfolding ◌>>=◌
  Ensures-bind Q m f em ef = record {
    post = λ w h. Post-continue Q _ f ef (m w).0 (m w).1 (em.post w h);
  }

  pub Ensures-pure {ℓ} :
      {A : Type ℓ} {Q : A → World → Type 0} (a : A)
      → ((w : World) → P w → Q a w)
      → Ensures P (pure a) Q
  unfolding pure
  Ensures-pure a q = record { post = q }

  pub Ensures-if {ℓ} :
      {A : Type ℓ} {Q : A → World → Type 0} (b : Bool) (m n : World → Result A × World)
      → (b ≡ true → Ensures P m Q)
      → (b ≡ false → Ensures P n Q)
      → Ensures P (if b then m else n) Q
  Ensures-if true m n em en = em refl
  Ensures-if false m n em en = en refl

  -- what is kept holds after a success
  pub Keeps-Ensures {ℓ} :
      {A : Type ℓ} {m : World → Result A × World} → Keeps P m → Ensures P m (λ a. P)
  Keeps-Ensures {m = m} k = record { post = λ w h. Post-Keeps P (m w).0 (m w).1 (k.at w h) }

  pub Ensures-any {ℓ} : {A : Type ℓ} (m : World → Result A × World) → Ensures P m (λ a w. Unit)
  Ensures-any m = record { post = λ w h. Post-any (m w).0 (m w).1 }

pub Ensures-lift :
    {A : Type 0} {P : World → Type 0} (r : Result A) → Ensures P (lift r) (λ a w. r ≡ ok a)
unfolding lift
Ensures-lift r = record { post = λ w h. Post-result r w }

module _ {P Q : World → Type 0} where
  pub Keeps-both {ℓ} :
      {A : Type ℓ} (m : World → Result A × World) → Keeps P m → Keeps Q m → Keeps (λ w. P w × Q w) m
  Keeps-both m kp kq = record { at = λ w h. (kp.at w h.0, kq.at w h.1) }

Post-both {ℓ} :
    {A : Type ℓ} (Q : World → Type 0) (R : A → World → Type 0) (r : Result A) (w : World)
    → Q w
    → Post R (r, w)
    → Post (λ a v. Q v × R a v) (r, w)
Post-both Q R (ok a) w h k = (h, k)
Post-both Q R (err e) w h k = tt

pub Ensures-both {ℓ} :
    {A : Type ℓ} {P : World → Type 0} (R : A → World → Type 0) (m : World → Result A × World)
    → Keeps P m
    → Ensures (λ w. Unit) m R
    → Ensures P m (λ a w. P w × R a w)
Ensures-both {P = P} R m k e = record {
  post = λ w h. Post-both P R (m w).0 (m w).1 (k.at w h) (e.post w tt);
}

pub Post-weaken {ℓ} :
    {A : Type ℓ} (Q R : A → World → Type 0) (r : Result A) (w : World)
    → ((a : A) (v : World) → Q a v → R a v)
    → Post Q (r, w)
    → Post R (r, w)
Post-weaken Q R (ok a) w f h = f a w h
Post-weaken Q R (err e) w f h = tt

-- a weaker statement, from any state
pub Ensures-weaken {ℓ} :
    {A : Type ℓ} {P : World → Type 0} (Q R : A → World → Type 0) (m : World → Result A × World)
    → Ensures (λ w. Unit) m Q
    → ((a : A) (v : World) → Q a v → R a v)
    → Ensures P m R
Ensures-weaken Q R m e f = record { post = λ w h. Post-weaken Q R (m w).0 (m w).1 f (e.post w tt) }

-- a premise that is not about the state
pub Ensures-fact {ℓ} :
    {A : Type ℓ} {X : Type 0} {Q : A → World → Type 0} (m : World → Result A × World)
    → (X → Ensures (λ w. Unit) m Q)
    → Ensures (λ w. X) m Q
Ensures-fact m f = record { post = λ w x. (f x).post w tt }

-- a run that succeeds
pub Ensures-run {ℓ} :
    {A : Type ℓ} {P : World → Type 0} {Q : A → World → Type 0} {m : World → Result A × World}
    → Ensures P m Q
    → {w w' : World} {a : A} → P w
    → m w ≡ (ok a, w')
    → Q a w'
Ensures-run {Q = Q} e h run = subst (Post Q) run (e.post _ h)

continue-fails {ℓ κ} :
    {A : Type ℓ} {B : Type κ} (P : World → Type 0) (next : A → World → Result B × World)
    (r : Result A) (w : World)
    → Post (λ a v. ⊥) (r, w)
    → P w
    → P (continue r next w).1 × Post (λ b v. ⊥) (continue r next w)
continue-fails P next (ok a) w h p = absurd h
continue-fails P next (err e) w h p = (p, tt)

-- what follows an action that always fails is not run
pub Keeps-fails {ℓ κ} :
    {A : Type ℓ} {B : Type κ} {P : World → Type 0} (m : World → Result A × World)
    (next : A → World → Result B × World)
    → Keeps P m
    → Ensures P m (λ a w. ⊥)
    → Keeps P (m >>= next) × Ensures P (m >>= next) (λ b w. ⊥)
unfolding ◌>>=◌
Keeps-fails {P = P} m next k e = (
  record { at = λ w h. (continue-fails P next (m w).0 (m w).1 (e.post w h) (k.at w h)).0 },
  record { post = λ w h. (continue-fails P next (m w).0 (m w).1 (e.post w h) (k.at w h)).1 },
)
