-- ===== src/App/Steps.antt =====
-- More rules for actions of the application: what an action keeps when its later steps rely on what
-- its earlier ones have found.
use android_smb_for_ksu.Common.{◌≡◌, refl, Result, ok, err}
use android_smb_for_ksu.App.World.{World, lift, continue, ◌>>=◌}
use android_smb_for_ksu.App.Rules.{
  Keeps, Ensures, Post, Ensures-bind, Ensures-lift, Ensures-both, Keeps-Ensures, Keeps-lift,
}

continue-narrow {ℓ κ} :
    {A : Type ℓ} {B : Type κ} {P : World → Type 0} (Q : A → World → Type 0)
    (next : A → World → Result B × World)
    → ((a : A) (w : World) → Q a w → P w)
    → ((a : A) → Keeps (Q a) (next a))
    → (r : Result A) (w : World) → P w
    → Post Q (r, w)
    → P (continue r next w).1
continue-narrow Q next back kf (ok a) w h k = back a _ ((kf a).at w k)
continue-narrow Q next back kf (err e) w h k = h

module _ {P : World → Type 0} where
  -- what follows `m` may keep a stronger property that a success of `m` gives
  pub Keeps-narrow {ℓ κ} :
      {A : Type ℓ} {B : Type κ} (Q : A → World → Type 0) (m : World → Result A × World)
      (next : A → World → Result B × World)
      → ((a : A) (w : World) → Q a w → P w)
      → Keeps P m
      → Ensures P m Q
      → ((a : A) → Keeps (Q a) (next a))
      → Keeps P (m >>= next)
  unfolding ◌>>=◌
  Keeps-narrow Q m next back km em kf = record {
    at = λ w h. continue-narrow Q next back kf (m w).0 (m w).1 (km.at w h) (em.post w h);
  }

  -- a premise that is not about the state
  pub Keeps-fact {ℓ} :
      {A : Type ℓ} {X : Type 0} (m : World → Result A × World)
      → (X → Keeps P m)
      → Keeps (λ w. P w × X) m
  Keeps-fact m f = record { at = λ w h. ((f h.1).at w h.0, h.1) }

  -- what follows `m` may rely on a fact that a success of `m` gives
  pub Keeps-given {ℓ κ} :
      {A : Type ℓ} {B : Type κ} (X : A → Type 0) (m : World → Result A × World)
      (next : A → World → Result B × World)
      → Keeps P m
      → Ensures P m (λ a w. P w × X a)
      → ((a : A) → X a → Keeps P (next a))
      → Keeps P (m >>= next)
  Keeps-given X m next km em kf =
      Keeps-narrow (λ a w. P w × X a) m next (λ a w h. h.0) km em (λ a. Keeps-fact (next a) (kf a))

module _ {P : World → Type 0} where
  pub Ensures-then {ℓ κ} :
      {A : Type ℓ} {B : Type κ} {R : B → World → Type 0} (m : World → Result A × World)
      (next : A → World → Result B × World)
      → Keeps P m
      → ((a : A) → Ensures P (next a) R)
      → Ensures P (m >>= next) R
  Ensures-then m next k e = Ensures-bind (λ a. P) m next (Keeps-Ensures k) e

  pub Ensures-given {ℓ κ} :
      {A : Type ℓ} {B : Type κ} (X : A → Type 0) {R : B → World → Type 0}
      (m : World → Result A × World) (next : A → World → Result B × World)
      → Ensures P m (λ a w. P w × X a)
      → ((a : A) → X a → Ensures P (next a) R)
      → Ensures P (m >>= next) R
  Ensures-given X m next em ef =
      Ensures-bind (λ a w. P w × X a) m next em
        (λ a. record { post = λ w h. (ef a h.1).post w h.0 })

  pub lift-given : {A : Type 0} (r : Result A) → Ensures P (lift r) (λ a w. P w × (r ≡ ok a))
  lift-given r = Ensures-both (λ a w. r ≡ ok a) (lift r) (Keeps-lift r) (Ensures-lift r)

Post-ran :
    {A : Type 0} (P : World → Type 0) (m : World → Result A × World) (v : World)
    → P v
    → (r : Result A) (w : World) → m v ≡ (r, w)
    → Post (λ a u. (v : World) × P v × (m v ≡ (ok a, u))) (r, w)
Post-ran P m v h (ok a) w e = (v, h, e)
Post-ran P m v h (err x) w e = tt

-- the run itself, of a success
pub Ensures-ran :
    {A : Type 0} {P : World → Type 0} (m : World → Result A × World)
    → Ensures P m (λ a w. (v : World) × P v × (m v ≡ (ok a, w)))
Ensures-ran {P = P} m = record { post = λ w h. Post-ran P m w h (m w).0 (m w).1 refl }
