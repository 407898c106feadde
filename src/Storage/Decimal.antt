-- ===== src/Storage/Decimal.antt =====
-- `Display` of `u32`, and its reading back by `parse`, as `u32` and as `i32`.
use android_smb_for_ksu.Common.{
  ℕ, zero, suc, ◌+◌, ◌-◌, ◌*◌, ◌/◌, ◌%◌, ◌^◌, ◌≤◌, ◌<◌, ◌≡◌, refl, ◌∙◌, true, false, [], ◌∷◌, ◌++◌,
  some, arith, ap, pos, ltb, if◌then◌else◌, all, all-append, is_empty,
}
use native.Mathlib.Nat.{pow-suc}
use android_smb_for_ksu.Text.{
  Text, is_digit, is_whitespace, trim, trim_start, trim_end_matches, parse_digits, parse_unsigned,
  parse_int,
}

-- the digits of `n`; ten rounds are enough for a `u32`
unfoldable pub show_from : ℕ → ℕ → Text
show_from zero n = []
show_from (suc f) n =
    let rest = show_from f (n / 10) in
    if ltb n 10 then (b'0' + n) ∷ [] else rest ++ (b'0' + n % 10) ∷ []

unfoldable pub show_u32 : ℕ → Text
show_u32 n = show_from 10 n

abbrev pub u32_max : ℕ
u32_max = 2 ^ 32 - 1

pub show_u32_lem : (n : ℕ) → show_u32 n ≡ show_from 10 n
unfolding show_u32
show_u32_lem n = refl

parse_digits-append :
    (max : ℕ) (s t : Text) (n m : ℕ)
    → parse_digits max s n ≡ some m
    → parse_digits max (s ++ t) n ≡ parse_digits max t m
unfolding parse_digits
parse_digits-append max [] t n m h = ground arith
parse_digits-append max (c ∷ s) t n m h =
    ground (arith, parse_digits-append max s t (n * 10 + (c - b'0')) m)

tenth_lt : (f n : ℕ) → n < 10 ^ suc f → n / 10 < 10 ^ f
tenth_lt f n h = let e : 10 ^ suc f ≡ 10 ^ f * 10 = pow-suc 10 f in omega arith

parse_digits-show_from :
    (max f n : ℕ) → n < 10 ^ f → n ≤ max → parse_digits max (show_from f n) 0 ≡ some n
unfolding parse_digits show_from
parse_digits-show_from max zero n h k = ground arith
parse_digits-show_from max (suc f) n h k = ground (
  arith,
  tenth_lt f n h,
  parse_digits-show_from max f (n / 10),
  parse_digits-append max (show_from f (n / 10)) ((b'0' + n % 10) ∷ []) 0 (n / 10),
)

pub show_from-digits : (f n : ℕ) → all (λ c. is_digit c) (show_from f n) ≡ true
unfolding show_from
show_from-digits zero n = refl
show_from-digits (suc f) n = ground (
  arith,
  show_from-digits f (n / 10),
  all-append (λ c. is_digit c) (show_from f (n / 10)) ((b'0' + n % 10) ∷ []),
)

is_empty-snoc : (s : Text) (c : ℕ) → is_empty (s ++ c ∷ []) ≡ false
is_empty-snoc [] c = refl
is_empty-snoc (x ∷ s) c = refl

show_from-some : (f n : ℕ) → is_empty (show_from (suc f) n) ≡ false
unfolding show_from
show_from-some f n = ground (arith, is_empty-snoc (show_from f (n / 10)) (b'0' + n % 10))

-- Digits alone are read with no sign.
parse_unsigned-digits :
    (max : ℕ) (s : Text)
    → is_empty s ≡ false
    → all (λ c. is_digit c) s ≡ true
    → parse_unsigned max s ≡ parse_digits max s 0
unfolding parse_unsigned
parse_unsigned-digits max [] e d = cc
parse_unsigned-digits max (c ∷ []) e d = ground arith
parse_unsigned-digits max (c ∷ c' ∷ s) e d = ground arith

-- What fits a bound below that of `u32` is read back with the bound.
pub parse_unsigned-show_u32 :
    (max n : ℕ) → n ≤ max → n ≤ u32_max → parse_unsigned max (show_u32 n) ≡ some n
parse_unsigned-show_u32 max n fits k = rw show_u32_lem (
    parse_unsigned-digits max (show_from 10 n) (show_from-some 9 n) (show_from-digits 10 n)
    ∙ parse_digits-show_from max 10 n (omega arith) fits)

-- Every `u32` is read back from its decimal form.
pub parse-show_u32 : (n : ℕ) → n ≤ u32_max → parse_unsigned u32_max (show_u32 n) ≡ some n
parse-show_u32 n k = parse_unsigned-show_u32 u32_max n k k

trim_start-digits : (s : Text) → all (λ c. is_digit c) s ≡ true → trim_start s ≡ s
unfolding trim_start
trim_start-digits [] d = refl
trim_start-digits (c ∷ s) d = ground arith

trim_end-digits :
    (s : Text) → all (λ c. is_digit c) s ≡ true → trim_end_matches s (λ c. is_whitespace c) ≡ s
unfolding trim_end_matches
trim_end-digits [] d = refl
trim_end-digits (c ∷ s) d = ground (arith, trim_end-digits s)

trim-digits : (s : Text) → all (λ c. is_digit c) s ≡ true → trim s ≡ s
unfolding trim
trim-digits s d =
    ap (λ t. trim_end_matches t (λ c. is_whitespace c)) (trim_start-digits s d)
    ∙ trim_end-digits s d

parse_int-digits :
    (s : Text) (n : ℕ)
    → all (λ c. is_digit c) s ≡ true
    → parse_unsigned (2 ^ 31 - 1) s ≡ some n
    → parse_int s ≡ some (pos n)
unfolding parse_int parse_unsigned
parse_int-digits [] n d e = ground arith
parse_int-digits (c ∷ []) n d e = ground arith
parse_int-digits (c ∷ b ∷ s) n d e = ground arith

-- A positive `i32` is read back from its decimal form, with white space taken off the ends.
pub parse_int-show_u32 : (n : ℕ) → n ≤ 2 ^ 31 - 1 → parse_int (trim (show_u32 n)) ≡ some (pos n)
parse_int-show_u32 n fits =
    let digits : all (λ c. is_digit c) (show_u32 n) ≡ true =
      rw show_u32_lem (show_from-digits 10 n) in
    let read = parse_unsigned-show_u32 (2 ^ 31 - 1) n fits (omega arith) in
    ap parse_int (trim-digits (show_u32 n) digits) ∙ parse_int-digits (show_u32 n) n digits read
