-- ===== src/Logs/Disk.antt =====
-- The log directories that `prepare` (logs.rs) works on, and actions on them. An action keeps the states
-- that the disk passes through, since a crash may leave any of them.
use android_smb_for_ksu.Common.{
  ◌≡◌, refl, Bool, true, false, List, [], ◌∷◌, ◌++◌, Option, All, All-append, Result, Error, ok,
  err,
}
use android_smb_for_ksu.Text.{Text}

-- A file of the log directory. `boots` is not in the code: the boots up to the one in which it was
-- written, the last one first.
pub record File : Type 0 where
  pub name : Text
  pub boots : List Text

-- a log directory: `.boot-id`, and the other files
pub record Dir : Type 0 where
  pub marker : Option Text
  pub files : List File

-- what `symlink_metadata` finds at the path of a directory
pub data Place {ℓ} (A : Type ℓ) : Type ℓ where
  absent : Place A
  not_dir : Place A
  dir : A → Place A

-- an archive: its name, the label in it, and whether it has the stamp of the diagnostics
pub record Archive : Type 0 where
  pub name : Text
  pub label : Text
  pub stamp : Bool
  pub content : Dir

-- log, log-history, and auto_diagnostic.stamp
pub record Disk : Type 0 where
  pub log : Place Dir
  pub history : Place (List Archive)
  pub stamp : Bool

-- the result, the disk at the end, and the states before it, the last one first
pub record Outcome {ℓ} (A : Type ℓ) : Type ℓ where
  pub result : Result A
  pub disk : Disk
  pub before : List Disk

abbrev pub Act {ℓ} : Type ℓ → Type ℓ
Act A = Disk → Outcome A

module _ {ℓ} {A : Type ℓ} where
  abbrev pub pure : A → Act A
  pure a d = record { result = ok a; disk = d; before = [] }

  abbrev pub lift : Result A → Act A
  lift r d = record { result = r; disk = d; before = [] }

  abbrev pub gets : (Disk → A) → Act A
  gets f d = record { result = ok (f d); disk = d; before = [] }

module _ {ℓ κ} {A : Type ℓ} {B : Type κ} where
  abbrev pub continue : (A → Disk → Outcome B) → Result A → Disk → List Disk → Outcome B
  continue f (ok a) d before =
      let o = f a d in record { result = o.result; disk = o.disk; before = o.before ++ before }
  continue f (err e) d before = record { result = err e; disk = d; before = before }

  infixl 5 ◌>>=◌
  unfoldable pub ◌>>=◌ : (Disk → Outcome A) → (A → Disk → Outcome B) → Disk → Outcome B
  ◌>>=◌ m f d = let o = m d in continue f o.result o.disk o.before

infixl 5 ◌>>◌
abbrev pub ◌>>◌ {ℓ κ} : {A : Type ℓ} {B : Type κ} → Act A → Act B → Act B
m >> k = m >>= λ _. k

-- a change of the disk, if the system lets it happen
unfoldable pub change : Bool → (Disk → Disk) → Act (Unit {0})
change true g d = record { result = ok tt; disk = g d; before = d ∷ [] }
change false g d = record { result = err Error.io; disk = d; before = [] }

-- a call that changes nothing here
abbrev pub check : Bool → Error → Act (Unit {0})
check true e = pure tt
check false e = lift (err e)

-- From `P`, the disk satisfies `I` at every moment, and a success gives `Q`.
module _ (I : Disk → Type 0) where
  abbrev pub Ends {ℓ} : {A : Type ℓ} → (A → Disk → Type 0) → Result A → Disk → Type 0
  Ends Q (ok a) d = Q a d
  Ends Q (err e) d = I d

  pub record Runs {ℓ} {A : Type ℓ} (P : Disk → Type 0) (m : Disk → Outcome A)
      (Q : A → Disk → Type 0) : Type ℓ where
    pub at : (d : Disk) → P d → All I (m d).before × Ends Q (m d).result (m d).disk

  continue-Runs {ℓ κ} :
      {A : Type ℓ} {B : Type κ} (Q : A → Disk → Type 0) (R : B → Disk → Type 0)
      (f : A → Disk → Outcome B)
      → ((a : A) → Runs (Q a) (f a) R)
      → (r : Result A) (d : Disk) (before : List Disk) → All I before
      → Ends Q r d
      → All I (continue f r d before).before
        × Ends R (continue f r d before).result (continue f r d before).disk
  continue-Runs Q R f h (ok a) d before past now =
      let (more, last) = (h a).at d now in (All-append I (f a d).before before more past, last)
  continue-Runs Q R f h (err e) d before past now = (past, now)

  pub Runs-bind {ℓ κ} :
      {A : Type ℓ} {B : Type κ} {P : Disk → Type 0} (Q : A → Disk → Type 0) {R : B → Disk → Type 0}
      (m : Disk → Outcome A) (f : A → Disk → Outcome B)
      → Runs P m Q
      → ((a : A) → Runs (Q a) (f a) R)
      → Runs P (m >>= f) R
  unfolding ◌>>=◌
  Runs-bind Q {R} m f hm hf = record {
    at = λ d h.
        let (past, now) = hm.at d h in
        continue-Runs Q R f hf (m d).result (m d).disk (m d).before past now;
  }

  pub Runs-change :
      {P : Disk → Type 0} {Q : Unit {0} → Disk → Type 0} (b : Bool) (g : Disk → Disk)
      → ((d : Disk) → P d → I d)
      → ((d : Disk) → P d → Q tt (g d))
      → Runs P (change b g) Q
  unfolding change
  Runs-change true g fine h = record { at = λ d p. ((fine d p, tt), h d p) }
  Runs-change false g fine h = record { at = λ d p. (tt, fine d p) }

  pub Runs-pure {ℓ} :
      {A : Type ℓ} {P : Disk → Type 0} {Q : A → Disk → Type 0} (a : A)
      → ((d : Disk) → P d → Q a d)
      → Runs P (pure a) Q
  Runs-pure a h = record { at = λ d p. (tt, h d p) }

  pub Runs-check :
      {P : Disk → Type 0} (b : Bool) (e : Error)
      → ((d : Disk) → P d → I d)
      → Runs P (check b e) (λ u. P)
  Runs-check true e fine = record { at = λ d p. (tt, p) }
  Runs-check false e fine = record { at = λ d p. (tt, fine d p) }

  pub Runs-lift {ℓ} :
      {A : Type ℓ} {P : Disk → Type 0} (r : Result A)
      → ((d : Disk) → P d → I d)
      → Runs P (lift r) (λ a. P)
  Runs-lift (ok a) fine = record { at = λ d p. (tt, p) }
  Runs-lift (err e) fine = record { at = λ d p. (tt, fine d p) }

  pub Runs-gets :
      {P : Disk → Type 0} {B : Type 0} (f : Disk → B) → Runs P (gets f) (λ a d. P d × (a ≡ f d))
  Runs-gets f = record { at = λ d p. (tt, (p, refl)) }

  pub Runs-read : {P : Disk → Type 0} {B : Type 0} (f : Disk → B) → Runs P (gets f) (λ b. P)
  Runs-read f = record { at = λ d p. (tt, p) }
