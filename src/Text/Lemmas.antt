-- ===== src/Text/Lemmas.antt =====
-- Laws of the text operations.
use mathlib.Core.Bool.{false≢true}
use android_smb_for_ksu.Common.{
  ℕ, ◌+◌, ◌≡◌, refl, sym, ◌∙◌, ◌↔◌, true, false, [], ◌∷◌, ◌++◌, some, arith, ◌==◌, ==_iff, All,
  Bool-cases, Option-cases, inl, inr,
}
use android_smb_for_ksu.Text.{Text, str_eq, str_lt, byte_len, split_once}

pub str_eq_iff : (s t : Text) → (str_eq s t ≡ true) ↔ (s ≡ t)
unfolding str_eq
str_eq_iff [] [] = (λ h. refl, λ h. refl)
str_eq_iff [] (b ∷ t) = (λ h. cc, λ h. cc)
str_eq_iff (a ∷ s) [] = (λ h. cc, λ h. cc)
str_eq_iff (a ∷ s) (b ∷ t) = ground (arith, str_eq_iff s t)

pub str_eq_refl : (s : Text) → str_eq s s ≡ true
str_eq_refl s = (str_eq_iff s s).1 refl

pub byte_len-append : (s t : Text) → byte_len (s ++ t) ≡ byte_len s + byte_len t
unfolding byte_len
byte_len-append [] t = omega arith
byte_len-append (c ∷ s) t = omega (arith, byte_len-append s t)

-- The first separator is the one that was put there, if the key has none.
pub split_once-append :
    (sep : ℕ) (k v : Text)
    → All (λ c. (c == sep) ≡ false) k
    → split_once (k ++ sep ∷ v) sep ≡ some (k, v)
unfolding split_once
split_once-append sep [] v h = ground arith
split_once-append sep (c ∷ k) v h = rw (h.0, split_once-append sep k v h.1)

-- What is before and behind the first separator spells the text, and no separator is before it.
pub split_once_sound :
    (s : Text) (sep : ℕ) (k v : Text) → split_once s sep ≡ some (k, v) → s ≡ k ++ sep ∷ v
unfolding split_once
split_once_sound [] sep k v h = cc
split_once_sound (c ∷ s) sep k v h = elim (Bool-cases (c == sep)) [
  | inl hit ↦ ground (arith, ==_iff c sep)
  | inr miss ↦ elim (Option-cases (split_once s sep)) [
    | inl fails ↦ cc
    | inr ((a, b), found) ↦ ground (arith, split_once_sound s sep a b found)
  ]
]

pub str_lt_irrefl : (s : Text) → str_lt s s ≡ false
unfolding str_lt
str_lt_irrefl [] = refl
str_lt_irrefl (a ∷ s) = ground (arith, str_lt_irrefl s)

pub str_lt_trans : (s t u : Text) → str_lt s t ≡ true → str_lt t u ≡ true → str_lt s u ≡ true
unfolding str_lt
str_lt_trans s t [] h k = cc
str_lt_trans s [] (c ∷ u) h k = cc
str_lt_trans [] (b ∷ t) (c ∷ u) h k = refl
str_lt_trans (a ∷ s) (b ∷ t) (c ∷ u) h k = ground (arith, str_lt_trans s t u)

pub str_lt_asymm : (s t : Text) → str_lt s t ≡ true → str_lt t s ≡ false
str_lt_asymm s t h = elim (Bool-cases (str_lt t s)) [
  | inr no_lt ↦ no_lt
  | inl back ↦ absurd (false≢true (sym (str_lt_irrefl s) ∙ str_lt_trans s t s h back))
]
