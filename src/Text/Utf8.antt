-- ===== src/Text/Utf8.antt =====
-- `std::str::from_utf8`: the decoder of UTF-8 with the byte ranges of the Unicode table 3-7, which
-- rule out overlong forms, surrogates and what lies above U+10FFFF.
use android_smb_for_ksu.Common.{
  ℕ, zero, suc, ◌+◌, ◌-◌, ◌*◌, ◌/◌, ◌%◌, ◌≤◌, ◌<◌, ◌≡◌, refl, true, false, ◌&&◌, List, [], ◌∷◌,
  ◌++◌, Option, none, some, arith, ltb, leb, ◌==◌, if◌then◌else◌, All, ◌⊎◌, ap, ◌∙◌,
}
use android_smb_for_ksu.Text.{Text, encode_char, utf8}

-- what a first byte above 0x7F announces: the bytes left, the range of the next one, its own bits
pub record Lead : Type 0 where
  pub left : ℕ
  pub lo : ℕ
  pub hi : ℕ
  pub value : ℕ

abbrev lead_of : ℕ → ℕ → ℕ → ℕ → Option Lead
lead_of n lo hi v = some (record { left = n; lo = lo; hi = hi; value = v })

unfoldable pub lead : ℕ → Option Lead
lead b =
    if ltb b 0xC2
    then none
    else if ltb b 0xE0
    then lead_of 1 0x80 0xBF (b - 0xC0)
    else if b == 0xE0
    then lead_of 2 0xA0 0xBF 0
    else if b == 0xED
    then lead_of 2 0x80 0x9F 13
    else if ltb b 0xF0
    then lead_of 2 0x80 0xBF (b - 0xE0)
    else if b == 0xF0
    then lead_of 3 0x90 0xBF 0
    else if ltb b 0xF4
    then lead_of 3 0x80 0xBF (b - 0xF0)
    else if b == 0xF4
    then lead_of 3 0x80 0x8F 4
    else none

abbrev pub cons_char : ℕ → Option Text → Option Text
cons_char c none = none
cons_char c (some s) = some (c ∷ s)

-- `n` bytes of the current character are left, the next one between `lo` and `hi`
unfoldable pub decode : List ℕ → ℕ → ℕ → ℕ → ℕ → Option Text
unfolding lead
decode [] zero lo hi acc = some []
decode [] (suc n) lo hi acc = none
decode (b ∷ s) zero lo hi acc = elim (ltb b 0x80) [
  | true ↦ cons_char b (decode s 0 0 0 0)
  | false ↦ elim (lead b) [ none ↦ none | some l ↦ decode s l.left l.lo l.hi l.value ]
]
decode (b ∷ s) (suc zero) lo hi acc = elim (leb lo b && leb b hi) [
  | true ↦ cons_char (acc * 64 + (b - 0x80)) (decode s 0 0 0 0)
  | false ↦ none
]
decode (b ∷ s) (suc (suc n)) lo hi acc = elim (leb lo b && leb b hi) [
  | true ↦ decode s (suc n) 0x80 0xBF (acc * 64 + (b - 0x80))
  | false ↦ none
]

unfoldable pub from_utf8 : List ℕ → Option Text
unfolding decode
from_utf8 s = decode s 0 0 0 0

-- a Unicode scalar value, which is what a Rust `char` is
abbrev pub IsScalar : ℕ → Type 0
IsScalar c = (c < 0xD800) ⊎ ((0xE000 ≤ c) × (c < 0x110000))

decode-1 : (c : ℕ) (s : List ℕ) → c < 0x80 → decode (c ∷ s) 0 0 0 0 ≡ cons_char c (decode s 0 0 0 0)
unfolding decode
decode-1 c s h = ground arith

decode-2 :
    (c : ℕ) (s : List ℕ)
    → 0x80 ≤ c
    → c < 0x800
    → decode ((0xC0 + c / 64) ∷ (0x80 + c % 64) ∷ s) 0 0 0 0 ≡ cons_char c (decode s 0 0 0 0)
unfolding decode
decode-2 c s h k = ground arith

decode-3 :
    (c : ℕ) (s : List ℕ)
    → 0x800 ≤ c
    → c < 0x10000
    → IsScalar c
    → decode ((0xE0 + c / 4096) ∷ (0x80 + c / 64 % 64) ∷ (0x80 + c % 64) ∷ s) 0 0 0 0
      ≡ cons_char c (decode s 0 0 0 0)
unfolding decode
decode-3 c s h k v = ground arith

-- the last three bytes of four
decode-tail :
    (a b d e lo hi : ℕ) (s : List ℕ)
    → b < 64
    → d < 64
    → e < 64
    → lo ≤ 0x80 + b
    → 0x80 + b ≤ hi
    → decode ((0x80 + b) ∷ (0x80 + d) ∷ (0x80 + e) ∷ s) 3 lo hi a
      ≡ cons_char (((a * 64 + b) * 64 + d) * 64 + e) (decode s 0 0 0 0)
unfolding decode
decode-tail a b d e lo hi s hb hd he hlo hhi = ground arith

decode-lead4 :
    (a b : ℕ) (s : List ℕ)
    → a < 5
    → (0 < a) ⊎ (16 ≤ b)
    → (a < 4) ⊎ (b < 16)
    → b < 64
    → (lo : ℕ) × (hi : ℕ) × (decode ((0xF0 + a) ∷ s) 0 0 0 0 ≡ decode s 3 lo hi a)
      × (lo ≤ 0x80 + b)
      × (0x80 + b ≤ hi)
unfolding decode
decode-lead4 zero b s h p q r = (0x90, 0xBF, ground arith, ground arith, ground arith)
decode-lead4 (suc zero) b s h p q r = (0x80, 0xBF, ground arith, ground arith, ground arith)
decode-lead4 (suc (suc zero)) b s h p q r = (0x80, 0xBF, ground arith, ground arith, ground arith)
decode-lead4 (suc (suc (suc zero))) b s h p q r =
    (0x80, 0xBF, ground arith, ground arith, ground arith)
decode-lead4 (suc (suc (suc (suc zero)))) b s h p q r =
    (0x80, 0x8F, ground arith, ground arith, ground arith)
decode-lead4 (suc (suc (suc (suc (suc a))))) b s h p q r = absurd (omega arith)

low_lead : (c : ℕ) → 0x10000 ≤ c → (0 < c / 262144) ⊎ (16 ≤ c / 4096 % 64)
low_lead c h = ground arith

high_lead : (c : ℕ) → c < 0x110000 → (c / 262144 < 4) ⊎ (c / 4096 % 64 < 16)
high_lead c h = ground arith

digits-4 : (c : ℕ) → ((c / 262144 * 64 + c / 4096 % 64) * 64 + c / 64 % 64) * 64 + c % 64 ≡ c
digits-4 c = omega arith

decode-4 :
    (c : ℕ) (s : List ℕ)
    → 0x10000 ≤ c
    → c < 0x110000
    → decode
        ((0xF0 + c / 262144) ∷ (0x80 + c / 4096 % 64) ∷ (0x80 + c / 64 % 64) ∷ (0x80 + c % 64) ∷ s)
        0
        0
        0
        0
      ≡ cons_char c (decode s 0 0 0 0)
decode-4 c s h v =
    let rest = (0x80 + c / 4096 % 64) ∷ (0x80 + c / 64 % 64) ∷ (0x80 + c % 64) ∷ s in
    let (lo, hi, first, above, below) =
      decode-lead4 (c / 262144) (c / 4096 % 64) rest (omega arith) (low_lead c h) (high_lead c v)
        (omega arith) in
    first
    ∙ decode-tail (c / 262144) (c / 4096 % 64) (c / 64 % 64) (c % 64) lo hi s (omega arith)
        (omega arith) (omega arith) above below
    ∙ ap (λ x. cons_char x (decode s 0 0 0 0)) (digits-4 c)

-- The decoder reads back one encoded character.
decode-encode_char :
    (c : ℕ) (s : List ℕ)
    → IsScalar c
    → decode (encode_char c ++ s) 0 0 0 0 ≡ cons_char c (decode s 0 0 0 0)
unfolding encode_char
decode-encode_char c s h = ground (arith, decode-1 c s, decode-2 c s, decode-3 c s, decode-4 c s)

pub from_utf8-utf8 : (s : Text) → All IsScalar s → from_utf8 (utf8 s) ≡ some s
unfolding from_utf8 utf8
from_utf8-utf8 [] h = unfold decode in refl
from_utf8-utf8 (c ∷ s) h = rw (decode-encode_char c (utf8 s) h.0, from_utf8-utf8 s h.1)
