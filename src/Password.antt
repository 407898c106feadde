-- ===== src/Password.antt =====
-- native/smbctl/src/password.rs: the NT hash of a password that is given in hexadecimal. MD4 is a
-- vendored crate: the digest is a parameter.
pub mod RoundTrip
pub mod Tests
use android_smb_for_ksu.Common.{
  ℕ, ◌+◌, ◌-◌, ◌*◌, ◌/◌, ◌%◌, Bool, true, not, ◌||◌, List, [], ◌∷◌, ◌++◌, ltb, leb, ◌&&◌, ◌==◌,
  if◌then◌else◌, is_empty, all, Result, ok, Error, ◌>>=◌, ◌>>◌, reject_if, ok_or,
}
use android_smb_for_ksu.Text.{Text, byte_len, utf8, is_digit, is_hexdigit, contains_char}
use android_smb_for_ksu.Text.Utf8.{from_utf8}

-- `u8::to_ascii_lowercase`
abbrev pub to_ascii_lowercase : ℕ → ℕ
to_ascii_lowercase b = if leb b'A' b && leb b b'Z' then b + 32 else b

-- the closure `digit`; the bytes that it is called on are hexadecimal digits, so no `u8` overflows
unfoldable pub digit : ℕ → ℕ
digit b = if is_digit b then b - b'0' else to_ascii_lowercase b - b'a' + 10

-- `chunks_exact(2)`: a byte that is left over is dropped
unfoldable pub hex_bytes : List ℕ → List ℕ
unfolding digit
hex_bytes [] = []
hex_bytes (h ∷ []) = []
hex_bytes (h ∷ l ∷ s) = (digit h * 16 + digit l) ∷ hex_bytes s

-- `u16::to_le_bytes` of the code units of `encode_utf16`
abbrev pub le_bytes : ℕ → List ℕ
le_bytes u = (u % 256) ∷ (u / 256) ∷ []

unfoldable pub utf16_char : ℕ → List ℕ
utf16_char c =
    if ltb c 0x10000
    then le_bytes c
    else le_bytes (0xD800 + (c - 0x10000) / 1024) ++ le_bytes (0xDC00 + (c - 0x10000) % 1024)

unfoldable pub utf16_le : Text → List ℕ
unfolding utf16_char
utf16_le [] = []
utf16_le (c ∷ s) = utf16_char c ++ utf16_le s

-- `{:X}` of the digest: two digits for each byte
abbrev pub upper_digit : ℕ → ℕ
upper_digit d = if ltb d 10 then b'0' + d else b'A' + (d - 10)

unfoldable pub upper_hex : List ℕ → Text
upper_hex [] = []
upper_hex (b ∷ s) = upper_digit (b / 16) ∷ upper_digit (b % 16) ∷ upper_hex s

module _ (md4 : List ℕ → List ℕ) where
  unfoldable pub nt_hash : Text → Result Text
  nt_hash hex = do
    reject_if
        (is_empty hex
          || ltb 2048 (byte_len hex)
          || byte_len hex % 2 == 1
          || not (all (λ b. is_hexdigit b) (utf8 hex)))
        Error.password_hex
    password ← ok_or (from_utf8 (hex_bytes (utf8 hex))) Error.password_utf8
    reject_if (contains_char password 0) Error.password_nul
    ok (upper_hex (md4 (utf16_le password)))
