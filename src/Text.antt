-- ===== src/Text.antt =====
-- Rust's `str`, as far as native/smbctl/src uses it. A text is the list of its `char`s (Unicode
-- scalar values); `byte_len` and `utf8` give the bytes behind them.
pub mod Lemmas
pub mod Utf8
use Prim.Native.Char.{code}
use Prim.Native.String.{String}
use android_smb_for_ksu.Common.{
  ℕ, zero, suc, ◌^◌, ℤ, pos, negsuc, ◌+◌, ◌-◌, ◌*◌, ◌/◌, ◌%◌, Bool, true, false, ◌&&◌, ◌||◌, not,
  List, [], ◌∷◌, ◌++◌, Option, none, some, ltb, leb, ◌==◌, if◌then◌else◌, is_empty, any, all,
}

abbrev pub Text : Type 0
Text = List ℕ

-- the characters of a literal
abbrev pub chars : String → Text
chars String.[] = []
chars (String.◌∷◌ c s) = code c ∷ chars s

-- `a == b` and `a < b`; the order of UTF-8 bytes is that of the scalar values
unfoldable pub str_eq : Text → Text → Bool
str_eq [] [] = true
str_eq [] (b ∷ t) = false
str_eq (a ∷ s) [] = false
str_eq (a ∷ s) (b ∷ t) = a == b && str_eq s t

unfoldable pub str_lt : Text → Text → Bool
str_lt s [] = false
str_lt [] (b ∷ t) = true
str_lt (a ∷ s) (b ∷ t) = ltb a b || a == b && str_lt s t

-- `list.contains(&s)`, also of `matches!(s, "…" | "…")`
unfoldable pub is_one_of : List Text → Text → Bool
unfolding str_eq
is_one_of l s = any (λ t. str_eq s t) l

-- `char::len_utf8` and `str::len`
abbrev pub char_len : ℕ → ℕ
char_len c = if ltb c 0x80 then 1 else if ltb c 0x800 then 2 else if ltb c 0x10000 then 3 else 4

unfoldable pub byte_len : Text → ℕ
byte_len [] = 0
byte_len (c ∷ s) = char_len c + byte_len s

-- `char::encode_utf8` and `str::bytes`
unfoldable pub encode_char : ℕ → List ℕ
encode_char c =
    if ltb c 0x80
    then c ∷ []
    else if ltb c 0x800
    then (0xC0 + c / 64) ∷ (0x80 + c % 64) ∷ []
    else if ltb c 0x10000
    then (0xE0 + c / 4096) ∷ (0x80 + c / 64 % 64) ∷ (0x80 + c % 64) ∷ []
    else (0xF0 + c / 262144) ∷ (0x80 + c / 4096 % 64) ∷ (0x80 + c / 64 % 64) ∷ (0x80 + c % 64) ∷ []

unfoldable pub utf8 : Text → List ℕ
unfolding encode_char
utf8 [] = []
utf8 (c ∷ s) = encode_char c ++ utf8 s

-- `u8::is_ascii_digit`, `is_ascii_alphanumeric`, `is_ascii_hexdigit`
abbrev pub is_digit : ℕ → Bool
is_digit c = leb b'0' c && leb c b'9'

abbrev pub is_alphanumeric : ℕ → Bool
is_alphanumeric c = is_digit c || leb b'a' c && leb c b'z' || leb b'A' c && leb c b'Z'

abbrev pub is_hexdigit : ℕ → Bool
is_hexdigit c = is_digit c || leb b'a' c && leb c b'f' || leb b'A' c && leb c b'F'

-- `char::is_control`: the general category Cc
abbrev pub is_control : ℕ → Bool
is_control c = ltb c 0x20 || leb 0x7F c && leb c 0x9F

-- `char::is_whitespace`: the property White_Space
abbrev pub is_whitespace : ℕ → Bool
is_whitespace c =
    leb 9 c && leb c 13
    || c == 0x20
    || c == 0x85
    || c == 0xA0
    || c == 0x1680
    || leb 0x2000 c && leb c 0x200A
    || c == 0x2028
    || c == 0x2029
    || c == 0x202F
    || c == 0x205F
    || c == 0x3000

unfoldable pub starts_with : Text → Text → Bool
starts_with s [] = true
starts_with [] (p ∷ ps) = false
starts_with (c ∷ s) (p ∷ ps) = c == p && starts_with s ps

unfoldable pub strip_prefix : Text → Text → Option Text
strip_prefix s [] = some s
strip_prefix [] (p ∷ ps) = none
strip_prefix (c ∷ s) (p ∷ ps) = if c == p then strip_prefix s ps else none

abbrev pub starts_with_char : Text → ℕ → Bool
starts_with_char [] p = false
starts_with_char (c ∷ s) p = c == p

abbrev pub contains_char : Text → ℕ → Bool
contains_char s p = any (λ c. c == p) s

-- `split_once(sep)`: the text before and behind the first `sep`
abbrev pub cons_key : ℕ → Option (Text × Text) → Option (Text × Text)
cons_key c none = none
cons_key c (some (k, v)) = some (c ∷ k, v)

unfoldable pub split_once : Text → ℕ → Option (Text × Text)
split_once [] sep = none
split_once (c ∷ s) sep =
    let rest = split_once s sep in if c == sep then some ([], s) else cons_key c rest

-- `split(sep).next().unwrap_or("")`: the text up to the first `sep`
unfoldable pub before_char : Text → ℕ → Text
before_char [] sep = []
before_char (c ∷ s) sep = let rest = before_char s sep in if c == sep then [] else c ∷ rest

-- `split(sep)`
abbrev pub cons_head : ℕ → List Text → List Text
cons_head c [] = (c ∷ []) ∷ []
cons_head c (t ∷ ts) = (c ∷ t) ∷ ts

unfoldable pub split : Text → ℕ → List Text
split [] sep = [] ∷ []
split (c ∷ s) sep = let rest = split s sep in if c == sep then [] ∷ rest else cons_head c rest

-- `trim_end_matches`, `trim_start`, `trim_end`, `trim`
unfoldable pub trim_end_matches : Text → (ℕ → Bool) → Text
trim_end_matches [] p = []
trim_end_matches (c ∷ s) p =
    let rest = trim_end_matches s p in if p c && is_empty rest then [] else c ∷ rest

unfoldable pub trim_start : Text → Text
trim_start [] = []
trim_start (c ∷ s) = let rest = trim_start s in if is_whitespace c then rest else c ∷ s

unfoldable pub trim : Text → Text
unfolding trim_start trim_end_matches
trim s = trim_end_matches (trim_start s) (λ c. is_whitespace c)

-- one carriage return at the end of a line, which `lines` takes off with the line feed
unfoldable pub strip_cr : Text → Text
strip_cr [] = []
strip_cr (c ∷ s) = let rest = strip_cr s in if c == b'\r' && is_empty s then [] else c ∷ rest

-- `lines`: what follows the last line feed is a line only if it is not empty
unfoldable pub lines_from : Text → Text → List Text
lines_from [] cur = if is_empty cur then [] else cur ∷ []
lines_from (c ∷ s) cur = elim (c == b'\n') [
  | true ↦ strip_cr cur ∷ lines_from s []
  | false ↦ lines_from s (cur ++ c ∷ [])
]

unfoldable pub lines : Text → List Text
unfolding lines_from strip_cr
lines s = lines_from s []

-- `split_whitespace`
unfoldable pub words_from : Text → Text → List Text
words_from [] cur = if is_empty cur then [] else cur ∷ []
words_from (c ∷ s) cur = elim (is_whitespace c) [
  | true ↦ (if is_empty cur then [] else cur ∷ []) ++ words_from s []
  | false ↦ words_from s (cur ++ c ∷ [])
]

unfoldable pub split_whitespace : Text → List Text
unfolding words_from
split_whitespace s = words_from s []

-- `str::parse` for an unsigned type with greatest value `max`: an optional `+`, then digits
unfoldable pub parse_digits : ℕ → Text → ℕ → Option ℕ
parse_digits max [] n = some n
parse_digits max (c ∷ s) n =
    let m = n * 10 + (c - b'0') in
    let rest = parse_digits max s m in if is_digit c && leb m max then rest else none

unfoldable pub parse_unsigned : ℕ → Text → Option ℕ
unfolding parse_digits
parse_unsigned max [] = none
parse_unsigned max (c ∷ []) = if c == b'+' then none else parse_digits max (c ∷ []) 0
parse_unsigned max (c ∷ d ∷ s) =
    if c == b'+' then parse_digits max (d ∷ s) 0 else parse_digits max (c ∷ d ∷ s) 0

-- `str::parse` for `i32`: an optional sign, then digits
abbrev pub negate : ℕ → ℤ
negate zero = pos 0
negate (suc n) = negsuc n

abbrev pub as_int : (ℕ → ℤ) → Option ℕ → Option ℤ
as_int f none = none
as_int f (some n) = some (f n)

unfoldable pub parse_int : Text → Option ℤ
unfolding parse_digits parse_unsigned
parse_int [] = none
parse_int (c ∷ []) = as_int pos (parse_unsigned (2 ^ 31 - 1) (c ∷ []))
parse_int (c ∷ d ∷ s) =
    if c == b'-'
    then as_int negate (parse_digits (2 ^ 31) (d ∷ s) 0)
    else as_int pos (parse_unsigned (2 ^ 31 - 1) (c ∷ d ∷ s))
