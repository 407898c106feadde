-- ===== src/Os/Network/Sound.antt =====
-- What `network` and `interfaces` (os.rs) let through.
use android_smb_for_ksu.Common.{
  ℕ, ◌-◌, ◌<◌, ◌≡◌, refl, sym, ap, ◌⊎◌, inl, inr, Bool, true, false, ◌||◌, List, [], ◌∷◌, Option,
  none, some, arith, any, if◌then◌else◌, Option-cases, Bool-cases, ◌∙◌, ◌↔◌, or_true, or_false,
  or_iff,
}
use mathlib.Core.Bool.{false≢true}
use android_smb_for_ksu.Text.{Text}
use android_smb_for_ksu.Text.Lemmas.{str_eq_iff}
use android_smb_for_ksu.Os.Network.{
  denied, allowed, has_prefix, IfAddr, af_inet, is_private, count_ones, shl_max, cidr_of, Address,
  address_eq, address_lt, insert, trusted, lan_cidr, add_lan, network_from, network,
}

address_eq_iff : (a b : Address) → (address_eq a b ≡ true) ↔ (a ≡ b)
unfolding address_eq
address_eq_iff (a, x) (b, y) = ground (arith, str_eq_iff a b, str_eq_iff x y)

-- the pair is in the set
abbrev pub is_listed : List Address → Address → Bool
is_listed ns n = any (λ m. address_eq n m) ns

listed-insert :
    (n a : Address) (out : List Address)
    → is_listed (insert a out) n ≡ (address_eq n a || is_listed out n)
unfolding insert
listed-insert n a [] = refl
listed-insert n a (b ∷ bs) = elim (Bool-cases (address_eq a b)) [
  | inl same ↦
      let e : a ≡ b = (address_eq_iff a b).0 same in
      rw same (rw e (absorb (address_eq n b) (is_listed bs n)))
  | inr other ↦ elim (Bool-cases (address_lt a b)) [
    | inl below ↦ rw (other, below)
    | inr above ↦
        rw (other, above)
          (ap (λ r. address_eq n b || r) (listed-insert n a bs)
            ∙ swap (address_eq n b) (address_eq n a) (is_listed bs n))
  ]
]
  where
    absorb : (x y : Bool) → (x || y) ≡ (x || (x || y))
    absorb x y = ground arith

    swap : (x y z : Bool) → (x || (y || z)) ≡ (y || (x || z))
    swap x y z = ground arith

abbrev is_pair : Address → Text → Option Text → Bool
is_pair n name none = false
is_pair n name (some cidr) = address_eq n (name, cidr)

module _ (is_wireless : Text → Bool) where
  -- an address of a trusted LAN: it is up, IPv4, private, with a netmask of leading ones
  pub record IsLan (a : IfAddr) (mask : ℕ) : Type 0 where
    pub ipv4 : a.family ≡ some af_inet
    pub has_mask : a.mask ≡ some mask
    pub not_denied : has_prefix denied a.name ≡ false
    pub known : (has_prefix allowed a.name ≡ true) ⊎ (is_wireless a.name ≡ true)
    pub private : is_private a.ip ≡ true
    pub some_bits : 0 < count_ones 32 mask
    pub leading : mask ≡ shl_max (32 - count_ones 32 mask)
    pub up : a.up ≡ true

  trusted-parts :
      (name : Text)
      → trusted is_wireless name ≡ true
      → (has_prefix denied name ≡ false)
        × ((has_prefix allowed name ≡ true) ⊎ (is_wireless name ≡ true))
  unfolding trusted
  trusted-parts name h =
      split (has_prefix denied name) (has_prefix allowed name) (is_wireless name) h
    where
      split :
          (d a w : Bool)
          → (if d then false else a || w) ≡ true
          → (d ≡ false) × ((a ≡ true) ⊎ (w ≡ true))
      split d a w h = ground arith

  lan_test :
      (a : IfAddr) (f m : ℕ) {cidr : Text}
      → lan_cidr is_wireless a (some f) (some m) ≡ some cidr
      → (f ≡ af_inet)
        × (trusted is_wireless a.name ≡ true)
        × (is_private a.ip ≡ true)
        × (0 < count_ones 32 m)
        × (m ≡ shl_max (32 - count_ones 32 m))
        × (a.up ≡ true)
        × (cidr_of a m ≡ cidr)
  unfolding lan_cidr
  lan_test a f m h = ground arith

  lan_cidr-IsLan :
      (a : IfAddr) (family mask : Option ℕ) {cidr : Text}
      → a.family ≡ family
      → a.mask ≡ mask
      → lan_cidr is_wireless a family mask ≡ some cidr
      → (m : ℕ) × IsLan a m × (cidr_of a m ≡ cidr)
  lan_cidr-IsLan a none mask ef em h = unfold lan_cidr in cc
  lan_cidr-IsLan a (some f) none ef em h = unfold lan_cidr in cc
  lan_cidr-IsLan a (some f) (some m) ef em h =
      let (inet, trust, priv, bits, ones, up, e) = lan_test a f m h in
      let (fine, known) = trusted-parts a.name trust in
      (
        m,
        record {
          ipv4 = ef ∙ ap some inet;
          has_mask = em;
          not_denied = fine;
          known = known;
          private = priv;
          some_bits = bits;
          leading = ones;
          up = up;
        },
        e,
      )

  -- the pair comes from an address of a trusted LAN
  abbrev pub ComesFrom : List IfAddr → Address → Type 0
  ComesFrom [] n = ⊥
  ComesFrom (a ∷ addrs) n = ((m : ℕ) × IsLan a m × (n ≡ (a.name, cidr_of a m))) ⊎ ComesFrom addrs n

  -- the address adds the pair
  source : Address → IfAddr → Bool
  source n a = is_pair n a.name (lan_cidr is_wireless a a.family a.mask)

  listed-add_lan :
      (n : Address) (a : IfAddr) (out : List Address)
      → is_listed (add_lan is_wireless a out) n ≡ (source n a || is_listed out n)
  unfolding source
  listed-add_lan n a out = elim (Option-cases (lan_cidr is_wireless a a.family a.mask)) [
    | inl passed ↦ rw passed
    | inr (cidr, kept) ↦ rw kept (listed-insert n (a.name, cidr) out)
  ]

  network_from-listed :
      (addrs : List IfAddr) (out : List Address) (n : Address)
      → is_listed (network_from is_wireless addrs out) n ≡ (any (source n) addrs || is_listed out n)
  unfolding network_from
  network_from-listed [] out n = refl
  network_from-listed (a ∷ addrs) out n =
      ground
        (arith, network_from-listed addrs (add_lan is_wireless a out) n, listed-add_lan n a out)

  trusted-known :
      (name : Text)
      → has_prefix denied name ≡ false
      → (has_prefix allowed name ≡ true) ⊎ (is_wireless name ≡ true)
      → trusted is_wireless name ≡ true
  unfolding trusted
  trusted-known name fine (inl known) = rw (fine, known)
  trusted-known name fine (inr wireless) = rw (fine, wireless) (or_true (has_prefix allowed name))

  lan_cidr-kept :
      (a : IfAddr) (m : ℕ) → IsLan a m → lan_cidr is_wireless a a.family a.mask ≡ some (cidr_of a m)
  unfolding lan_cidr
  lan_cidr-kept a m lan =
      rw (lan.ipv4, lan.has_mask)
        (ground (
          arith,
          trusted-known a.name lan.not_denied lan.known,
          lan.private,
          lan.some_bits,
          lan.leading,
          lan.up,
        ))

  source_iff :
      (n : Address) (a : IfAddr)
      → (source n a ≡ true) ↔ ((m : ℕ) × IsLan a m × (n ≡ (a.name, cidr_of a m)))
  unfolding source
  source_iff n a = (forth, back)
    where
      forth : source n a ≡ true → (m : ℕ) × IsLan a m × (n ≡ (a.name, cidr_of a m))
      forth h = elim (Option-cases (lan_cidr is_wireless a a.family a.mask)) [
        | inl passed ↦ absurd (false≢true (rw passed at h))
        | inr (cidr, kept) ↦
            let (m, lan, e) = lan_cidr-IsLan a a.family a.mask refl refl kept in
            let same : n ≡ (a.name, cidr) = (address_eq_iff n (a.name, cidr)).0 (rw kept at h) in
            (m, lan, same ∙ ap (λ x. (a.name, x)) (sym e))
      ]

      back : (m : ℕ) × IsLan a m × (n ≡ (a.name, cidr_of a m)) → source n a ≡ true
      back (m, lan, e) = rw (lan_cidr-kept a m lan) ((address_eq_iff n (a.name, cidr_of a m)).1 e)

  any-source_iff :
      (n : Address) (addrs : List IfAddr) → (any (source n) addrs ≡ true) ↔ ComesFrom addrs n
  any-source_iff n [] = (λ h. absurd (false≢true h), λ h. absurd h)
  any-source_iff n (a ∷ addrs) =
      let here = source_iff n a in
      let there = any-source_iff n addrs in
      let either = or_iff (source n a) (any (source n) addrs) in
      (
        λ h. elim (either.0 h) [ inl x ↦ inl (here.0 x) | inr y ↦ inr (there.0 y) ],
        λ h. either.1 (elim h [ inl x ↦ inl (here.1 x) | inr y ↦ inr (there.1 y) ]),
      )

  -- `network` returns exactly the addresses of a trusted LAN: up, IPv4, private, with a netmask of
  -- leading ones, on an interface that no denied prefix fits and that an allowed prefix fits or
  -- that is a wireless device; each beside its interface's name.
  pub network_lem :
      (addrs : List IfAddr) (n : Address)
      → (is_listed (network is_wireless addrs) n ≡ true) ↔ ComesFrom addrs n
  unfolding network
  network_lem addrs n =
      let e : is_listed (network_from is_wireless addrs []) n ≡ any (source n) addrs =
        network_from-listed addrs [] n ∙ or_false (any (source n) addrs) in
      let both = any-source_iff n addrs in (λ h. both.0 (sym e ∙ h), λ h. e ∙ both.1 h)
