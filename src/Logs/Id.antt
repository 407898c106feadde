-- ===== src/Logs/Id.antt =====
-- The boot id in log/.boot-id (logs.rs).
use android_smb_for_ksu.Common.{
  ℕ, ◌≡◌, refl, sym, ◌∙◌, inl, inr, arith, Bool, true, false, not, ◌||◌, [], ◌∷◌, ◌++◌, ◌==◌, all,
  Bool-cases, all-append, ltb, ◌+◌, ◌/◌, ◌≤◌, and_left, and_right,
}
use mathlib.Core.Bool.{false≢true}
use android_smb_for_ksu.Text.{
  Text, trim, trim_start, trim_end_matches, is_whitespace, is_alphanumeric, utf8, encode_char,
}
use android_smb_for_ksu.Logs.{is_id}

trim_end-line :
    (s : Text)
    → all (λ c. not (is_whitespace c)) s ≡ true
    → trim_end_matches (s ++ b'\n' ∷ []) (λ c. is_whitespace c) ≡ s
unfolding trim_end_matches
trim_end-line [] h = refl
trim_end-line (c ∷ s) h = ground (arith, trim_end-line s)

trim-line : (s : Text) → all (λ c. not (is_whitespace c)) s ≡ true → trim (s ++ b'\n' ∷ []) ≡ s
unfolding trim trim_start
trim-line [] h = unfold trim_end_matches in refl
trim-line (c ∷ s) h =
    let e : is_whitespace c ≡ false = ground arith in rw e (trim_end-line (c ∷ s) h)

abbrev is_id_byte : ℕ → Bool
is_id_byte c = is_alphanumeric c || c == b'-'

is_id_byte-high : (b : ℕ) → 0x80 ≤ b → is_id_byte b ≡ false
is_id_byte-high b h = ground arith

is_id_byte-no_blank : (c : ℕ) → is_id_byte c ≡ true → is_whitespace c ≡ false
is_id_byte-no_blank c h = ground arith

is_id_byte-lead : (c : ℕ) → ltb c 0x80 ≡ false → all is_id_byte (encode_char c) ≡ false
unfolding encode_char
is_id_byte-lead c h = elim (Bool-cases (ltb c 0x800)) [
  | inl two ↦ rw (h, two, is_id_byte-high (0xC0 + c / 64) (omega arith)) refl
  | inr more ↦ elim (Bool-cases (ltb c 0x10000)) [
    | inl three ↦ rw (h, more, three, is_id_byte-high (0xE0 + c / 4096) (omega arith)) refl
    | inr four ↦ rw (h, more, four, is_id_byte-high (0xF0 + c / 262144) (omega arith)) refl
  ]
]

encode_char-is_id : (c : ℕ) → all is_id_byte (encode_char c) ≡ true → is_id_byte c ≡ true
unfolding encode_char
encode_char-is_id c h = elim (Bool-cases (ltb c 0x80)) [
  | inl small ↦ and_left _ _ (rw (small, encode_char) at h)
  | inr large ↦ absurd (false≢true (sym (is_id_byte-lead c large) ∙ h))
]

is_id-no_blank : (s : Text) → is_id s ≡ true → all (λ c. not (is_whitespace c)) s ≡ true
unfolding is_id utf8
is_id-no_blank [] h = refl
is_id-no_blank (c ∷ s) h =
    let both = sym (all-append is_id_byte (encode_char c) (utf8 s)) ∙ h in
    let first = encode_char-is_id c (and_left _ _ both) in
    let rest = is_id-no_blank s (and_right _ _ both) in rw (is_id_byte-no_blank c first, rest) refl

-- the marker that `prepare` writes reads back as the boot
pub trim-marker : (boot : Text) → is_id boot ≡ true → trim (boot ++ b'\n' ∷ []) ≡ boot
trim-marker boot good = trim-line boot (is_id-no_blank boot good)
