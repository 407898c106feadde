-- ===== src/Config/Map.antt =====
-- `BTreeMap<String, String>` of config.rs: an association list in the order of the keys.
use android_smb_for_ksu.Common.{
  ok, ◌≡◌, refl, Bool, true, false, List, [], ◌∷◌, Option, none, some, map, arith, if◌then◌else◌,
  Result, Error, ok_or, is_some, unwrap_or, all, ◌&&◌, inl, inr, Bool-cases, sym, ap, ◌∙◌, subst,
  and_left, and_right,
}
use mathlib.Core.Path.{ap₂}
use android_smb_for_ksu.Text.{Text, str_eq, str_lt, is_one_of}
use android_smb_for_ksu.Text.Lemmas.{str_eq_iff, str_eq_refl, str_lt_irrefl, str_lt_trans}

abbrev pub Config : Type 0
Config = List (Text × Text)

abbrev pub empty : Config
empty = []

unfoldable pub get : Text → Config → Option Text
unfolding str_eq
get k [] = none
get k ((j, v) ∷ m) = if str_eq j k then some v else get k m

unfoldable pub contains_key : Config → Text → Bool
unfolding get
contains_key c k = is_some (get k c)

unfoldable pub insert : Text → Text → Config → Config
unfolding str_eq str_lt
insert k v [] = (k, v) ∷ []
insert k v ((j, w) ∷ m) =
    if str_eq j k
    then (k, v) ∷ m
    else if str_lt k j
    then (k, v) ∷ (j, w) ∷ m
    else (j, w) ∷ insert k v m

unfoldable pub insert_all : List (Text × Text) → Config → Config
unfolding insert
insert_all [] c = c
insert_all ((k, v) ∷ kvs) c = insert_all kvs (insert k v c)

-- `c[k]` panics on a missing key
unfoldable pub index : Config → Text → Result Text
unfolding get
index c k = ok_or (get k c) Error.panicked

-- the value at a key that is there
abbrev pub value : Config → Text → Text
value c k = unwrap_or (get k c) []

abbrev pub keys : Config → List Text
keys = map (λ kv. kv.0)

pub get-insert :
    (k j v : Text) (m : Config) → get j (insert k v m) ≡ (if str_eq k j then some v else get j m)
unfolding get insert
get-insert k j v [] = ground arith
get-insert k j v ((i, w) ∷ m) =
    ground (arith, get-insert k j v m, str_eq_iff i k, str_eq_iff i j, str_eq_iff k j)

-- the keys stand in their order, none twice
unfoldable pub is_sorted : List Text → Bool
unfolding str_lt
is_sorted [] = true
is_sorted (k ∷ ks) = all (λ j. str_lt k j) ks && is_sorted ks

all-str_lt_trans :
    (k j : Text) (ks : List Text)
    → str_lt k j ≡ true
    → all (λ i. str_lt j i) ks ≡ true
    → all (λ i. str_lt k i) ks ≡ true
all-str_lt_trans k j [] h a = refl
all-str_lt_trans k j (i ∷ ks) h a = ground (arith, str_lt_trans k j i, all-str_lt_trans k j ks)

get_below : (k : Text) (m : Config) → all (λ i. str_lt k i) (keys m) ≡ true → get k m ≡ none
unfolding get
get_below k [] a = refl
get_below k ((j, w) ∷ m) a = ground (arith, get_below k m, str_eq_iff j k, str_lt_irrefl k)

-- A key that is there keeps the list of keys; only its value changes.
pub keys-insert :
    (k v : Text) (m : Config)
    → is_sorted (keys m) ≡ true
    → contains_key m k ≡ true
    → keys (insert k v m) ≡ keys m
unfolding insert is_sorted contains_key get
keys-insert k v [] s h = cc
keys-insert k v ((j, w) ∷ m) s h =
    ground (arith, str_eq_iff j k, keys-insert k v m, all-str_lt_trans k j (keys m), get_below k m)

-- The tails of two sorted maps that answer alike, and whose heads are equal, answer alike.
get-tail :
    (j w k : Text) (a b : Config)
    → all (λ i. str_lt j i) (keys a) ≡ true
    → keys a ≡ keys b
    → get k ((j, w) ∷ a) ≡ get k ((j, w) ∷ b)
    → get k a ≡ get k b
unfolding get
get-tail j w k a b s e h = elim (Bool-cases (str_eq j k)) [
  | inr other ↦ rw other at h
  | inl same ↦
      let below : all (λ i. str_lt k i) (keys a) ≡ true =
        subst (λ x. all (λ i. str_lt x i) (keys a) ≡ true) ((str_eq_iff j k).0 same) s in
      let below' : all (λ i. str_lt k i) (keys b) ≡ true =
        subst (λ ks. all (λ i. str_lt k i) ks ≡ true) e below in
      get_below k a below ∙ sym (get_below k b below')
]

get-head : (j w : Text) (m : Config) → get j ((j, w) ∷ m) ≡ some w
unfolding get
get-head j w m = rw (str_eq_refl j)

is_sorted-parts :
    (k : Text) (ks : List Text)
    → is_sorted (k ∷ ks) ≡ true
    → (all (λ j. str_lt k j) ks ≡ true) × (is_sorted ks ≡ true)
unfolding is_sorted
is_sorted-parts k ks h = (and_left _ _ h, and_right _ _ h)

-- Sorted maps with the same keys that answer alike are the same map.
pub get-ext :
    (a b : Config)
    → is_sorted (keys a) ≡ true
    → keys a ≡ keys b
    → ((k : Text) → get k a ≡ get k b)
    → a ≡ b
get-ext [] [] s e h = refl
get-ext [] ((j, w) ∷ b) s e h = cc
get-ext ((i, v) ∷ a) [] s e h = cc
get-ext ((i, v) ∷ a) ((j, w) ∷ b) s e h =
    let first : i ≡ j = cc in
    let rest : keys a ≡ keys b = cc in
    let value_eq : v ≡ w =
      cc (get-head i v a, h i, ap (λ x. get x ((j, w) ∷ b)) first, get-head j w b) in
    let h' : (k : Text) → get k ((i, v) ∷ a) ≡ get k ((i, v) ∷ b) =
      λ k. h k ∙ sym (ap₂ (λ x y. get k ((x, y) ∷ b)) first value_eq) in
    let sorted_parts = is_sorted-parts i (keys a) s in
    let tails : a ≡ b =
      get-ext a b sorted_parts.1 rest (λ k. get-tail i v k a b sorted_parts.0 rest (h' k)) in
    cc

-- where a key goes depends on the keys alone
unfoldable pub insert_key : Text → List Text → List Text
insert_key k [] = k ∷ []
insert_key k (j ∷ ks) =
    if str_eq j k then k ∷ ks else if str_lt k j then k ∷ j ∷ ks else j ∷ insert_key k ks

pub keys-insert_key : (k v : Text) (m : Config) → keys (insert k v m) ≡ insert_key k (keys m)
unfolding insert insert_key
keys-insert_key k v [] = refl
keys-insert_key k v ((j, w) ∷ m) = ground (arith, keys-insert_key k v m)

unfoldable pub insert_keys : List Text → List Text → List Text
unfolding insert_key
insert_keys [] ks = ks
insert_keys (j ∷ js) ks = insert_keys js (insert_key j ks)

pub keys-insert_all :
    (kvs : List (Text × Text)) (m : Config)
    → keys (insert_all kvs m) ≡ insert_keys (keys kvs) (keys m)
unfolding insert_all insert_keys
keys-insert_all [] m = refl
keys-insert_all ((k, v) ∷ kvs) m =
    keys-insert_all kvs (insert k v m) ∙ ap (insert_keys (keys kvs)) (keys-insert_key k v m)

pub contains_key-keys : (m : Config) (k : Text) → contains_key m k ≡ is_one_of (keys m) k
unfolding contains_key get is_one_of
contains_key-keys [] k = refl
contains_key-keys ((j, w) ∷ m) k =
    ground (arith, str_eq_iff j k, str_eq_iff k j, contains_key-keys m k)

pub get-eq-none : (m : Config) (k : Text) → is_one_of (keys m) k ≡ false → get k m ≡ none
unfolding contains_key
get-eq-none m k h = ground (arith, contains_key-keys m k)

-- A list that holds each of the keys `ds` holds what `ds` holds.
pub is_one_of-subset :
    (ks ds : List Text) (j : Text)
    → all (λ k. is_one_of ks k) ds ≡ true
    → is_one_of ks j ≡ false
    → is_one_of ds j ≡ false
unfolding is_one_of
is_one_of-subset ks [] j h n = refl
is_one_of-subset ks (d ∷ ds) j h n = ground (arith, is_one_of-subset ks ds j, str_eq_iff j d)

pub index-value : (c : Config) (k : Text) {v : Text} → index c k ≡ ok v → v ≡ value c k
unfolding index
index-value c k h = ground arith
