-- ===== src/Password/RoundTrip.antt =====
-- Which inputs `nt_hash` (password.rs) accepts, and what it returns for them.
use android_smb_for_ksu.Common.{
  ℕ, ◌+◌, ◌-◌, ◌*◌, ◌/◌, ◌%◌, ◌≤◌, ◌<◌, ◌≡◌, refl, ◌≢◌, true, false, List, [], ◌∷◌, some, arith,
  all, All, All-append, ltb, if◌then◌else◌, is_empty, length, length-append, ok, inl, inr,
  Option-cases,
}
use android_smb_for_ksu.Text.{
  Text, byte_len, char_len, utf8, encode_char, is_hexdigit, contains_char,
}
use android_smb_for_ksu.Text.Utf8.{from_utf8, from_utf8-utf8, IsScalar}
use android_smb_for_ksu.Password.{digit, hex_bytes, upper_digit, upper_hex, utf16_le, nt_hash}

-- how a client writes bytes: two digits each, below 10 decimal and above it from `a`
abbrev pub lower_digit : ℕ → ℕ
lower_digit d = if ltb d 10 then b'0' + d else b'a' + (d - 10)

pub hex_of : List ℕ → Text
hex_of [] = []
hex_of (b ∷ s) = lower_digit (b / 16) ∷ lower_digit (b % 16) ∷ hex_of s

digit-lower_digit : (d : ℕ) → d < 16 → digit (lower_digit d) ≡ d
unfolding digit
digit-lower_digit d h = ground arith

digit-upper_digit : (d : ℕ) → d < 16 → digit (upper_digit d) ≡ d
unfolding digit
digit-upper_digit d h = ground arith

lower_digit-hex : (d : ℕ) → d < 16 → is_hexdigit (lower_digit d) ≡ true
lower_digit-hex d h = ground arith

abbrev IsByte : ℕ → Type 0
IsByte b = b < 256

hex_bytes-hex_of : (s : List ℕ) → All IsByte s → hex_bytes (hex_of s) ≡ s
unfolding hex_bytes hex_of
hex_bytes-hex_of [] h = refl
hex_bytes-hex_of (b ∷ s) h =
    rw (digit-lower_digit (b / 16) (omega arith), digit-lower_digit (b % 16) (omega arith))
      (cc (hex_bytes-hex_of s h.1, two_digits b h.0))
  where
    two_digits : (b : ℕ) → b < 256 → b / 16 * 16 + b % 16 ≡ b
    two_digits b h = omega arith

abbrev IsAscii : ℕ → Type 0
IsAscii c = c < 128

hex_of-IsAscii : (s : List ℕ) → All IsByte s → All IsAscii (hex_of s)
unfolding hex_of
hex_of-IsAscii [] h = tt
hex_of-IsAscii (b ∷ s) h = ground (arith, hex_of-IsAscii s)

utf8-ascii : (s : Text) → All IsAscii s → utf8 s ≡ s
unfolding utf8 encode_char
utf8-ascii [] h = refl
utf8-ascii (c ∷ s) h = ground (arith, utf8-ascii s)

byte_len-ascii : (s : Text) → All IsAscii s → byte_len s ≡ length s
unfolding byte_len
byte_len-ascii [] h = refl
byte_len-ascii (c ∷ s) h = ground (arith, byte_len-ascii s)

length-hex_of : (s : List ℕ) → length (hex_of s) ≡ 2 * length s
unfolding hex_of
length-hex_of [] = omega arith
length-hex_of (b ∷ s) = omega (arith, length-hex_of s)

hex_of-hex : (s : List ℕ) → All IsByte s → all (λ b. is_hexdigit b) (hex_of s) ≡ true
unfolding hex_of
hex_of-hex [] h = refl
hex_of-hex (b ∷ s) h = rw (
  lower_digit-hex (b / 16) (omega arith),
  lower_digit-hex (b % 16) (omega arith),
  hex_of-hex s h.1,
)

encode_char-IsByte : (c : ℕ) → IsScalar c → All IsByte (encode_char c)
unfolding encode_char
encode_char-IsByte c h = ground arith

utf8-IsByte : (s : Text) → All IsScalar s → All IsByte (utf8 s)
unfolding utf8
utf8-IsByte [] h = tt
utf8-IsByte (c ∷ s) h =
    All-append IsByte (encode_char c) (utf8 s) (encode_char-IsByte c h.0) (utf8-IsByte s h.1)

length-encode_char : (c : ℕ) → length (encode_char c) ≡ char_len c
unfolding encode_char
length-encode_char c = ground arith

pub length-utf8 : (s : Text) → length (utf8 s) ≡ byte_len s
unfolding utf8 byte_len
length-utf8 [] = refl
length-utf8 (c ∷ s) =
    omega (arith, length-append (encode_char c) (utf8 s), length-encode_char c, length-utf8 s)

no_nul : (s : Text) → All (λ c. c ≢ 0) s → contains_char s 0 ≡ false
no_nul [] h = refl
no_nul (c ∷ s) h = ground (arith, no_nul s)

hex_of-ne-nil : (c : ℕ) (s : Text) → is_empty (hex_of (utf8 (c ∷ s))) ≡ false
unfolding utf8 encode_char hex_of
hex_of-ne-nil c s = ground arith

module _ (md4 : List ℕ → List ℕ) (hex : Text) where
  -- the conditions under which `nt_hash` returns, and its result
  pub record Accepted (password : Text) : Type 0 where
    pub some_digit : is_empty hex ≡ false
    pub fits : byte_len hex ≤ 2048
    pub even : byte_len hex % 2 ≡ 0
    pub digits : all (λ b. is_hexdigit b) (utf8 hex) ≡ true
    pub decodes : from_utf8 (hex_bytes (utf8 hex)) ≡ some password
    pub no_nul : contains_char password 0 ≡ false

  pub nt_hash-Accepted :
      (password : Text)
      → Accepted password
      → nt_hash md4 hex ≡ ok (upper_hex (md4 (utf16_le password)))
  unfolding nt_hash
  nt_hash-Accepted password a = ground arith

  pub nt_hash-eq-ok :
      {h : Text}
      → nt_hash md4 hex ≡ ok h
      → (password : Text) × Accepted password × (h ≡ upper_hex (md4 (utf16_le password)))
  unfolding nt_hash
  nt_hash-eq-ok h = elim (Option-cases (from_utf8 (hex_bytes (utf8 hex)))) [
    | inl bad ↦ absurd (ground arith)
    | inr (p, good) ↦ (p, ground arith, ground arith)
  ]

-- A password of 1 to 1024 bytes of UTF-8 without NUL, written in hexadecimal, is accepted, and the
-- result is the digest of its UTF-16 form, in upper-case hexadecimal.
pub nt_hash-hex_of :
    (md4 : List ℕ → List ℕ) (password : Text)
    → password ≢ []
    → All IsScalar password
    → All (λ c. c ≢ 0) password
    → byte_len password ≤ 1024
    → nt_hash md4 (hex_of (utf8 password)) ≡ ok (upper_hex (md4 (utf16_le password)))
nt_hash-hex_of md4 [] some_char scalar nuls short = absurd (some_char refl)
nt_hash-hex_of md4 (c ∷ s) some_char scalar nuls short =
    let bytes = utf8 (c ∷ s) in
    let fine = utf8-IsByte (c ∷ s) scalar in
    let ascii = hex_of-IsAscii bytes fine in
    let same : utf8 (hex_of bytes) ≡ hex_of bytes = utf8-ascii (hex_of bytes) ascii in
    let size : byte_len (hex_of bytes) ≡ 2 * byte_len (c ∷ s) =
      omega
        (arith, byte_len-ascii (hex_of bytes) ascii, length-hex_of bytes, length-utf8 (c ∷ s)) in
    nt_hash-Accepted md4 (hex_of bytes) (c ∷ s) (record {
      some_digit = hex_of-ne-nil c s;
      fits = omega (arith, size);
      even = omega (arith, size);
      digits = rw same (hex_of-hex bytes fine);
      decodes = rw (same, hex_bytes-hex_of bytes fine) (from_utf8-utf8 (c ∷ s) scalar);
      no_nul = no_nul (c ∷ s) nuls;
    })
