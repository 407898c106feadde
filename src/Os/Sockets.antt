-- ===== src/Os/Sockets.antt =====
-- `sockets` of os.rs: the listening sockets that a process owns, from /proc.
pub mod Owned
use android_smb_for_ksu.Common.{
  ℕ, ◌+◌, ◌-◌, ◌*◌, ◌/◌, ◌%◌, ◌^◌, Bool, true, false, not, ◌&&◌, ◌||◌, List, [], ◌∷◌, ◌++◌, Option,
  none, some, ◌==◌, ltb, leb, if◌then◌else◌, length, drop, get_elem?,
}
use android_smb_for_ksu.Text.{
  Text, chars, str_eq, is_one_of, strip_prefix, is_digit, split_once, split_whitespace, lines,
}
use android_smb_for_ksu.Os.Network.{show_ip}

-- `strip_suffix`
unfoldable pub strip_suffix_char : Text → ℕ → Option Text
strip_suffix_char [] p = none
strip_suffix_char (c ∷ []) p = if c == p then some [] else none
strip_suffix_char (c ∷ d ∷ s) p = elim (strip_suffix_char (d ∷ s) p) [
  | none ↦ none
  | some t ↦ some (c ∷ t)
]

-- the inode in a link such as `socket:[12345]`
unfoldable pub socket_inode : Text → Option Text
socket_inode link = elim (strip_prefix link (chars "socket:[")) [
  | none ↦ none
  | some rest ↦ strip_suffix_char rest b']'
]

-- what /proc tells of a process that was seen before: its start field and executable now, the same
-- as they were seen, and the links in its fd directory (`none` if it cannot be read)
pub record Owner : Type 0 where
  pub seen_start : Text
  pub seen_exe : Text
  pub start : Option Text
  pub exe : Option Text
  pub links : Option (List Text)

abbrev pub is_same : Option Text → Text → Bool
is_same none t = false
is_same (some s) t = str_eq s t

abbrev pub add_inode : Option Text → List Text → List Text
add_inode none is = is
add_inode (some i) is = i ∷ is

unfoldable pub link_inodes : List Text → List Text
link_inodes [] = []
link_inodes (l ∷ ls) = add_inode (socket_inode l) (link_inodes ls)

abbrev pub owner_inodes : Owner → Option (List Text) → List Text
owner_inodes o none = []
owner_inodes o (some links) =
    if is_same o.start o.seen_start && is_same o.exe o.seen_exe then link_inodes links else []

-- the set `inodes`
unfoldable pub inodes : List Owner → List Text
inodes [] = []
inodes (o ∷ os) = owner_inodes o o.links ++ inodes os

abbrev pub hex_value : ℕ → Option ℕ
hex_value c =
    if is_digit c
    then some (c - b'0')
    else if leb b'a' c && leb c b'f'
    then some (c - b'a' + 10)
    else if leb b'A' c && leb c b'F'
    then some (c - b'A' + 10)
    else none

-- `from_str_radix(s, 16)` of an unsigned type with greatest value `max`
unfoldable pub hex_digits : ℕ → Text → ℕ → Option ℕ
hex_digits max [] n = some n
hex_digits max (c ∷ s) n = elim (hex_value c) [
  | none ↦ none
  | some d ↦ elim (leb (n * 16 + d) max) [ true ↦ hex_digits max s (n * 16 + d) | false ↦ none ]
]

unfoldable pub from_hex : ℕ → Text → Option ℕ
from_hex max [] = none
from_hex max (c ∷ []) = if c == b'+' then none else hex_digits max (c ∷ []) 0
from_hex max (c ∷ d ∷ s) =
    if c == b'+' then hex_digits max (d ∷ s) 0 else hex_digits max (c ∷ d ∷ s) 0

-- `Ipv4Addr::from(v.to_le_bytes())`, as a big-endian number
abbrev pub swap_bytes : ℕ → ℕ
swap_bytes v =
    v % 256 * 2 ^ 24 + v / 2 ^ 8 % 256 * 2 ^ 16 + v / 2 ^ 16 % 256 * 2 ^ 8 + v / 2 ^ 24 % 256

pub data Table : Type 0 where
  tcp tcp6 : Table

abbrev pub any_v6 : Text
any_v6 = chars "00000000000000000000000000000000"

abbrev pub Socket : Type 0
Socket = Text × ℕ

-- the host of a row
unfoldable pub row_host : Table → Text → Option Text
row_host tcp host = elim (from_hex (2 ^ 32 - 1) host) [
  | none ↦ none
  | some v ↦ some (show_ip (swap_bytes v))
]
row_host tcp6 host = if str_eq host any_v6 then some (chars "::") else none

abbrev pub local_socket : Table → Option (Text × Text) → Option Socket
local_socket table none = none
local_socket table (some (host, port)) = elim (from_hex 65535 port) [
  | none ↦ none
  | some p ↦ elim (row_host table host) [ none ↦ none | some h ↦ some (h, p) ]
]

-- a field of a row that has at least ten
abbrev pub field : List Text → ℕ → Text
field fs i = elim (get_elem? fs i) [ none ↦ [] | some t ↦ t ]

-- one row of /proc/net/tcp or tcp6
unfoldable pub row_socket : Table → List Text → List Text → Option Socket
row_socket table owned row =
    if ltb (length row) 10
      || not (str_eq (field row 3) (chars "0A"))
      || not (is_one_of owned (field row 9))
    then none
    else local_socket table (split_once (field row 1) b':')

unfoldable pub row_sockets : Table → List Text → List Text → List Socket
row_sockets table owned [] = []
row_sockets table owned (l ∷ ls) = elim (row_socket table owned (split_whitespace l)) [
  | none ↦ row_sockets table owned ls
  | some s ↦ s ∷ row_sockets table owned ls
]

abbrev pub table_sockets : Table → List Text → Option Text → List Socket
table_sockets table owned none = []
table_sockets table owned (some text) = row_sockets table owned (drop 1 (lines text))

-- The set `out`, read by membership alone. The tables are what `read_to_string` returned.
unfoldable pub sockets : List Owner → Option Text → Option Text → List Socket
sockets ps tcp_text tcp6_text =
    let owned = inodes ps in table_sockets tcp owned tcp_text ++ table_sockets tcp6 owned tcp6_text
