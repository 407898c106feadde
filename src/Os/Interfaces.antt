-- ===== src/Os/Interfaces.antt =====
-- `interfaces` of os.rs: the addresses that the server binds.
use android_smb_for_ksu.Common.{
  ◌≡◌, refl, inl, inr, Bool, true, false, not, ◌&&◌, ◌||◌, List, [], ◌∷◌, ◌++◌, arith,
  if◌then◌else◌, any, Result, ok, ◌>>=◌, Bool-cases, not-true, and_right, or_false, sym, ap, ◌∙◌,
  subst,
}
use android_smb_for_ksu.Text.{Text, chars, str_eq, is_one_of, before_char, split_whitespace}
use android_smb_for_ksu.Text.Lemmas.{str_eq_iff}
use android_smb_for_ksu.Config.Map
use android_smb_for_ksu.Config.Map.{Config}
use android_smb_for_ksu.Os.Network.{Address}

abbrev pub loopback : Text
loopback = chars "127.0.0.1/8"

-- the test of the loop: every address, or one that `EXTRA_INTERFACES` names by interface or address
unfoldable pub is_selected : Text → Text → Address → Bool
is_selected auto extra n =
    str_eq auto (chars "1")
    || any (λ s. str_eq s n.0 || str_eq (before_char s b'/') (before_char n.1 b'/'))
        (split_whitespace extra)

unfoldable pub bind_from : Text → Text → List Address → List Text → List Text
bind_from auto extra [] out = out
bind_from auto extra (n ∷ ns) out =
    bind_from auto extra ns
      (if is_selected auto extra n && not (is_one_of out n.1) then out ++ n.1 ∷ [] else out)

-- The loop reads both settings only if there is an address; they are there in every configuration.
unfoldable pub interfaces : Config → List Address → Result (List Text)
interfaces c n = do
  auto ← Map.index c (chars "INTERFACES_AUTO")
  extra ← Map.index c (chars "EXTRA_INTERFACES")
  ok (bind_from auto extra n (loopback ∷ []))

-- the texts of a list, none twice
abbrev pub is_nodup : List Text → Bool
is_nodup [] = true
is_nodup (t ∷ ts) = not (is_one_of ts t) && is_nodup ts

is_one_of-append :
    (xs ys : List Text) (t : Text) → is_one_of (xs ++ ys) t ≡ (is_one_of xs t || is_one_of ys t)
unfolding is_one_of
is_one_of-append [] ys t = refl
is_one_of-append (x ∷ xs) ys t = ground (arith, is_one_of-append xs ys t)

is_nodup-snoc :
    (xs : List Text) (t : Text)
    → is_nodup xs ≡ true
    → is_one_of xs t ≡ false
    → is_nodup (xs ++ t ∷ []) ≡ true
unfolding is_one_of
is_nodup-snoc [] t h n = refl
is_nodup-snoc (x ∷ xs) t h n =
    ground
      (arith, is_nodup-snoc xs t, is_one_of-append xs (t ∷ []) x, str_eq_iff x t, str_eq_iff t x)

-- the addresses of the network that the configuration selects
abbrev pub selects : Text → Text → List Address → Text → Bool
selects auto extra ns t = any (λ n. is_selected auto extra n && str_eq t n.1) ns

bind_from-nodup :
    (auto extra : Text) (ns : List Address) (out : List Text)
    → is_nodup out ≡ true
    → is_nodup (bind_from auto extra ns out) ≡ true
unfolding bind_from
bind_from-nodup auto extra [] out h = h
bind_from-nodup auto extra (n ∷ ns) out h =
    elim (Bool-cases (is_selected auto extra n && not (is_one_of out n.1))) [
      | inl added ↦ rw added (
          bind_from-nodup auto extra ns (out ++ n.1 ∷ [])
            (is_nodup-snoc out n.1 h (not-true _ (and_right _ _ added))))
      | inr kept ↦ rw kept (bind_from-nodup auto extra ns out h)
    ]

one_of-single : (x t : Text) → is_one_of (x ∷ []) t ≡ str_eq t x
unfolding is_one_of
one_of-single x t = or_false (str_eq t x)

bind_one :
    (sel : Bool) (x : Text) (out : List Text) (t : Text)
    → is_one_of (if sel && not (is_one_of out x) then out ++ x ∷ [] else out) t
      ≡ (is_one_of out t || sel && str_eq t x)
bind_one sel x out t =
    ground (arith, is_one_of-append out (x ∷ []) t, str_eq_iff t x, one_of-single x t)

or_assoc : (a b c : Bool) → ((a || b) || c) ≡ (a || (b || c))
or_assoc a b c = ground arith

bind_from-one_of :
    (auto extra : Text) (ns : List Address) (out : List Text) (t : Text)
    → is_one_of (bind_from auto extra ns out) t ≡ (is_one_of out t || selects auto extra ns t)
unfolding bind_from
bind_from-one_of auto extra [] out t = sym (or_false (is_one_of out t))
bind_from-one_of auto extra (n ∷ ns) out t =
    let sel = is_selected auto extra n in
    let next = (if sel && not (is_one_of out n.1) then out ++ n.1 ∷ [] else out) in
    bind_from-one_of auto extra ns next t
    ∙ ap (λ b. b || selects auto extra ns t) (bind_one sel n.1 out t)
    ∙ or_assoc (is_one_of out t) (sel && str_eq t n.1) (selects auto extra ns t)

interfaces-eq-ok :
    (c : Config) (ns : List Address) {out : List Text}
    → interfaces c ns ≡ ok out
    → bind_from
        (Map.value c (chars "INTERFACES_AUTO"))
        (Map.value c (chars "EXTRA_INTERFACES"))
        ns
        (loopback ∷ [])
      ≡ out
unfolding interfaces Map.index
interfaces-eq-ok c ns h = ground arith

-- The addresses that are bound are the loopback address and those of the trusted network that the
-- settings select, and none twice: no setting adds an address that the network does not have.
pub interfaces_lem :
    (c : Config) (ns : List Address) {out : List Text}
    → interfaces c ns ≡ ok out
    → (is_nodup out ≡ true)
      × ((t : Text)
          → is_one_of out t ≡ (
              str_eq t loopback
              || selects
                  (Map.value c (chars "INTERFACES_AUTO"))
                  (Map.value c (chars "EXTRA_INTERFACES"))
                  ns
                  t))
interfaces_lem c ns {out} h =
    let auto = Map.value c (chars "INTERFACES_AUTO") in
    let extra = Map.value c (chars "EXTRA_INTERFACES") in
    let e = interfaces-eq-ok c ns h in
    (
      subst (λ o. is_nodup o ≡ true) e
          (bind_from-nodup auto extra ns (loopback ∷ []) (unfold is_one_of in refl)),
      λ t.
          ap (λ o. is_one_of o t) (sym e)
          ∙ bind_from-one_of auto extra ns (loopback ∷ []) t
          ∙ ap (λ b. b || selects auto extra ns t) (one_of-single loopback t),
    )
