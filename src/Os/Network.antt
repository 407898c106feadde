-- ===== src/Os/Network.antt =====
-- `trusted` and `network` of os.rs: which addresses of `getifaddrs` count as a trusted LAN.
pub mod Sound
use android_smb_for_ksu.Common.{
  ℕ, zero, suc, ◌+◌, ◌-◌, ◌*◌, ◌/◌, ◌%◌, ◌^◌, Bool, true, false, not, ◌&&◌, ◌||◌, List, [], ◌∷◌,
  ◌++◌, Option, none, some, ltb, leb, ◌==◌, if◌then◌else◌, any, unwrap_or,
}
use android_smb_for_ksu.Text.{Text, chars, str_eq, str_lt, starts_with}

abbrev pub denied : List Text
denied =
    chars "lo"
    ∷ chars "rmnet"
    ∷ chars "r_rmnet"
    ∷ chars "ccmni"
    ∷ chars "pdp"
    ∷ chars "wwan"
    ∷ chars "cell"
    ∷ chars "tun"
    ∷ chars "tap"
    ∷ chars "wg"
    ∷ chars "wireguard"
    ∷ chars "tailscale"
    ∷ chars "zt"
    ∷ chars "clat"
    ∷ chars "v4-"
    ∷ chars "dummy"
    ∷ chars "ifb"
    ∷ chars "ip6tnl"
    ∷ chars "sit"
    ∷ chars "gre"
    ∷ chars "gretap"
    ∷ chars "wifi-aware"
    ∷ chars "aware"
    ∷ chars "p2p"
    ∷ []

abbrev pub allowed : List Text
allowed =
    chars "wlan"
    ∷ chars "wifi"
    ∷ chars "mlan"
    ∷ chars "eth"
    ∷ chars "en"
    ∷ chars "ap"
    ∷ chars "swlan"
    ∷ chars "softap"
    ∷ chars "rndis"
    ∷ chars "usb"
    ∷ chars "bnep"
    ∷ chars "bt-pan"
    ∷ chars "br"
    ∷ chars "bond"
    ∷ []

abbrev pub has_prefix : List Text → Text → Bool
has_prefix ps name = any (λ p. starts_with name p) ps

-- what `getifaddrs` tells of one address: `none` for a null pointer
pub record IfAddr : Type 0 where
  pub name : Text
  pub family : Option ℕ  -- `ifa_addr.sa_family`
  pub ip : ℕ  -- the address, as a big-endian `u32`
  pub mask : Option ℕ  -- the netmask, as a big-endian `u32`
  pub up : Bool  -- `IFF_UP`

abbrev pub af_inet : ℕ
af_inet = 2

-- `Ipv4Addr::is_private`
unfoldable pub is_private : ℕ → Bool
is_private ip =
    ip / 2 ^ 24 == 10
    || ip / 2 ^ 24 == 172 && (leb 16 (ip / 2 ^ 16 % 256) && leb (ip / 2 ^ 16 % 256) 31)
    || ip / 2 ^ 24 == 192 && ip / 2 ^ 16 % 256 == 168

-- `u32::count_ones`, over `w` bits
unfoldable pub count_ones : ℕ → ℕ → ℕ
count_ones zero m = 0
count_ones (suc w) m = m % 2 + count_ones w (m / 2)

-- `u32::MAX.checked_shl(n).unwrap_or(0)`
unfoldable pub shl_max : ℕ → ℕ
shl_max n = if ltb n 32 then (2 ^ 32 - 1) * 2 ^ n % 2 ^ 32 else 0

-- `{}` of an octet
abbrev pub octet : ℕ → Text
octet n =
    if ltb n 10
    then (b'0' + n) ∷ []
    else if ltb n 100
    then (b'0' + n / 10) ∷ (b'0' + n % 10) ∷ []
    else (b'0' + n / 100) ∷ (b'0' + n / 10 % 10) ∷ (b'0' + n % 10) ∷ []

-- `Display` of `Ipv4Addr`
unfoldable pub show_ip : ℕ → Text
show_ip ip =
    octet (ip / 2 ^ 24 % 256)
    ++ b'.' ∷ octet (ip / 2 ^ 16 % 256)
    ++ b'.' ∷ octet (ip / 2 ^ 8 % 256)
    ++ b'.' ∷ octet (ip % 256)

abbrev pub cidr_of : IfAddr → ℕ → Text
cidr_of a mask = show_ip a.ip ++ b'/' ∷ octet (count_ones 32 mask)

abbrev pub Address : Type 0
Address = Text × Text

-- the order and the equality of the pairs in the `BTreeSet`
unfoldable pub address_eq : Address → Address → Bool
unfolding str_eq
address_eq a b = str_eq a.0 b.0 && str_eq a.1 b.1

unfoldable pub address_lt : Address → Address → Bool
unfolding str_lt str_eq
address_lt a b = str_lt a.0 b.0 || str_eq a.0 b.0 && str_lt a.1 b.1

-- `BTreeSet::insert`
unfoldable pub insert : Address → List Address → List Address
insert a [] = a ∷ []
insert a (b ∷ bs) =
    if address_eq a b then b ∷ bs else if address_lt a b then a ∷ b ∷ bs else b ∷ insert a bs

abbrev pub insert_some : Text → Option Text → List Address → List Address
insert_some name none out = out
insert_some name (some cidr) out = insert (name, cidr) out

-- `is_wireless name` is `Path::is_dir` of /sys/class/net/{name}/wireless
module _ (is_wireless : Text → Bool) where
  unfoldable pub trusted : Text → Bool
  unfolding starts_with
  trusted name =
      if has_prefix denied name then false else has_prefix allowed name || is_wireless name

  -- the condition of the loop over the addresses; `none` for an address that it passes over
  unfoldable pub lan_cidr : IfAddr → Option ℕ → Option ℕ → Option Text
  lan_cidr a none mask = none
  lan_cidr a (some family) none = none
  lan_cidr a (some family) (some mask) =
      let bits = count_ones 32 mask in
      if family == af_inet
        && (trusted a.name
            && (is_private a.ip && (ltb 0 bits && (mask == shl_max (32 - bits) && a.up))))
      then some (cidr_of a mask)
      else none

  -- one round of the loop
  abbrev pub add_lan : IfAddr → List Address → List Address
  add_lan a out = insert_some a.name (lan_cidr a a.family a.mask) out

  unfoldable pub network_from : List IfAddr → List Address → List Address
  unfolding lan_cidr insert
  network_from [] out = out
  network_from (a ∷ rest) out = network_from rest (add_lan a out)

  unfoldable pub network : List IfAddr → List Address
  unfolding network_from
  network addrs = network_from addrs []

-- `key`: the addresses joined by blanks
unfoldable pub key : List Address → Text
key [] = []
key ((i, a) ∷ []) = i ++ b' ' ∷ a
key ((i, a) ∷ n ∷ ns) = (i ++ b' ' ∷ a) ++ b' ' ∷ key (n ∷ ns)
