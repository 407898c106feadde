-- ===== src/Password/Tests.antt =====
-- A run of the password code, with a digest that is a function of its input.
use android_smb_for_ksu.Common.{ℕ, ◌≡◌, List, [], ◌∷◌, ok, arith}
use android_smb_for_ksu.Text.{chars, utf8, byte_len}
use android_smb_for_ksu.Password.{nt_hash, upper_hex, utf16_le}
use android_smb_for_ksu.Password.RoundTrip.{hex_of, nt_hash-hex_of}

-- not MD4, but a digest of 2 bytes
abbrev digest : List ℕ → List ℕ
digest [] = 0 ∷ 171 ∷ []
digest (b ∷ bs) = b ∷ 0 ∷ []

nt_hash-hex_of_example :
    nt_hash digest (hex_of (utf8 (chars "pä9"))) ≡ ok (upper_hex (digest (utf16_le (chars "pä9"))))
nt_hash-hex_of_example =
    nt_hash-hex_of digest (chars "pä9") (ground arith) (ground arith) (ground arith)
      (unfold byte_len in omega arith)
