-- ===== src/Config/Shape.antt =====
-- The keys of a configuration that `parse` or `update` (config.rs) returns.
use android_smb_for_ksu.Common.{
  ◌≡◌, refl, ap, ◌∙◌, true, List, [], ◌∷◌, Option, none, some, ◌⊎◌, arith, inl, inr, Bool-cases, ok,
  ok_or, if◌then◌else◌, ◌==◌, >>=-eq-ok, ok-injective, subst,
}
use android_smb_for_ksu.Text.{Text, chars, str_eq, str_lt, split_once, trim_end_matches, lines}
use android_smb_for_ksu.Text.Lemmas.{str_eq_iff}
use android_smb_for_ksu.Config.Map
use android_smb_for_ksu.Config.Map.{Config}
use android_smb_for_ksu.Config.Validate.{validate}
use android_smb_for_ksu.Config.Written.{legacy_key, set_known-eq-ok}
use android_smb_for_ksu.Config.{
  default_config, is_skipped, set_known, parse_line, parse_lines, parse, set_all, update,
}

-- the keys of `DEFAULTS`, in the order of the map
abbrev pub config_keys : List Text
config_keys =
    chars "AUTH_MODE"
    ∷ chars "AUTO_START"
    ∷ chars "BIND_INTERFACES"
    ∷ chars "ENABLED"
    ∷ chars "EXTRA_INTERFACES"
    ∷ chars "INTERFACES_AUTO"
    ∷ chars "MAX_PROTOCOL"
    ∷ chars "MIN_PROTOCOL"
    ∷ chars "NETBIOS_NAME"
    ∷ chars "PORT"
    ∷ chars "READ_ONLY"
    ∷ chars "SHARE_NAME"
    ∷ chars "SHARE_PATH"
    ∷ chars "SMB_USERNAME"
    ∷ chars "WORKGROUP"
    ∷ []

-- the same with the legacy field
abbrev pub legacy_keys : List Text
legacy_keys =
    chars "AUTH_MODE"
    ∷ chars "AUTO_START"
    ∷ chars "BIND_INTERFACES"
    ∷ chars "ENABLED"
    ∷ chars "EXTRA_INTERFACES"
    ∷ chars "INTERFACES_AUTO"
    ∷ chars "MAX_PROTOCOL"
    ∷ chars "MIN_PROTOCOL"
    ∷ chars "MT_COMPAT_MODE"
    ∷ chars "NETBIOS_NAME"
    ∷ chars "PORT"
    ∷ chars "READ_ONLY"
    ∷ chars "SHARE_NAME"
    ∷ chars "SHARE_PATH"
    ∷ chars "SMB_USERNAME"
    ∷ chars "WORKGROUP"
    ∷ []

abbrev pub HasKeys : Config → Type 0
HasKeys c = (Map.keys c ≡ config_keys) ⊎ (Map.keys c ≡ legacy_keys)

keys-sorted : (Map.is_sorted config_keys ≡ true) × (Map.is_sorted legacy_keys ≡ true)
unfolding Map.is_sorted
keys-sorted = (refl, refl)

pub HasKeys-sorted : (c : Config) → HasKeys c → Map.is_sorted (Map.keys c) ≡ true
HasKeys-sorted c (inl e) = rw e keys-sorted.0
HasKeys-sorted c (inr e) = rw e keys-sorted.1

pub HasKeys-insert :
    (c : Config) (k v : Text) → Map.contains_key c k ≡ true → HasKeys c → HasKeys (Map.insert k v c)
HasKeys-insert c k v h (inl e) = inl (Map.keys-insert k v c (rw e keys-sorted.0) h ∙ e)
HasKeys-insert c k v h (inr e) = inr (Map.keys-insert k v c (rw e keys-sorted.1) h ∙ e)

legacy_inserted :
    (Map.insert_key legacy_key config_keys ≡ legacy_keys)
    × (Map.insert_key legacy_key legacy_keys ≡ legacy_keys)
unfolding Map.insert_key str_eq str_lt
legacy_inserted = (refl, refl)

HasKeys-insert_legacy : (c : Config) (v : Text) → HasKeys c → HasKeys (Map.insert legacy_key v c)
HasKeys-insert_legacy c v (inl e) =
    inr (Map.keys-insert_key legacy_key v c ∙ ap (Map.insert_key legacy_key) e ∙ legacy_inserted.0)
HasKeys-insert_legacy c v (inr e) =
    inr (Map.keys-insert_key legacy_key v c ∙ ap (Map.insert_key legacy_key) e ∙ legacy_inserted.1)

set_known-HasKeys :
    (c : Config) (k v : Text) {c' : Config} → HasKeys c → set_known c k v ≡ ok c' → HasKeys c'
set_known-HasKeys c k v s h =
    let (known, e) = set_known-eq-ok c k v h in
    rw e (elim (Bool-cases (Map.contains_key c k)) [
      | inl old ↦ HasKeys-insert c k v old s
      | inr new ↦
          let legacy : k ≡ legacy_key = (str_eq_iff k legacy_key).0 (rw new at known) in
          rw legacy (HasKeys-insert_legacy c v s)
    ])

parse_line-HasKeys :
    (c : Config) (l : Text) {c' : Config} → HasKeys c → parse_line c l ≡ ok c' → HasKeys c'
unfolding parse_line
parse_line-HasKeys c l s h =
    let line = trim_end_matches l (λ x. x == b'\r') in
    elim (Bool-cases (is_skipped line)) [
      | inl skip ↦ subst HasKeys (ok-injective (rw skip at h)) s
      | inr keep ↦
          let (kv, found, set) = >>=-eq-ok (ok_or (split_once line b'=') _) _ (rw keep at h) in
          set_known-HasKeys c kv.0 kv.1 s set
    ]

parse_lines-HasKeys :
    (c : Config) (ls : List Text) {c' : Config} → HasKeys c → parse_lines c ls ≡ ok c' → HasKeys c'
unfolding parse_lines
parse_lines-HasKeys c [] s h = subst HasKeys (ok-injective h) s
parse_lines-HasKeys c (l ∷ ls) {c'} s h =
    let (d, first, rest) = >>=-eq-ok (parse_line c l) _ h in
    parse_lines-HasKeys d ls (parse_line-HasKeys c l s first) rest

default_config-keys : Map.keys default_config ≡ config_keys
unfolding default_config Map.insert_all
default_config-keys = refl

pub parse-eq-ok :
    (s : Text) {c : Config}
    → parse s ≡ ok c
    → (parse_lines default_config (lines s) ≡ ok c) × (validate c ≡ ok tt)
unfolding parse
parse-eq-ok s h = ground arith

-- Whatever text is parsed, the map has the keys of the defaults, and the legacy field at most; and
-- it has passed `validate`.
pub parse-HasKeys : (s : Text) {c : Config} → parse s ≡ ok c → HasKeys c × (validate c ≡ ok tt)
parse-HasKeys s h =
    let (read, valid) = parse-eq-ok s h in
    (parse_lines-HasKeys default_config (lines s) (inl default_config-keys) read, valid)

-- what one argument of `update` does to the map
abbrev set_arg : Config → Option (Text × Text) → Config
set_arg c none = c
set_arg c (some (k, v)) = if Map.contains_key c k then Map.insert k v c else c

set_arg-HasKeys : (c : Config) (kv : Option (Text × Text)) → HasKeys c → HasKeys (set_arg c kv)
set_arg-HasKeys c none s = s
set_arg-HasKeys c (some (k, v)) s = elim (Bool-cases (Map.contains_key c k)) [
  | inl known ↦ rw known (HasKeys-insert c k v known s)
  | inr new ↦ rw new s
]

set_all-step :
    (c : Config) (arg : Text) (args : List Text)
    → ((set_all c (arg ∷ args)).1 ≡ c)
      ⊎ ((set_all c (arg ∷ args)).1 ≡ (set_all (set_arg c (split_once arg b'=')) args).1)
unfolding set_all
set_all-step c arg args = ground arith

set_all-HasKeys : (args : List Text) (c : Config) → HasKeys c → HasKeys (set_all c args).1
set_all-HasKeys [] c s = unfold set_all in s
set_all-HasKeys (arg ∷ args) c s = elim (set_all-step c arg args) [
  | inl stopped ↦ rw stopped s
  | inr on ↦
      let next = set_arg c (split_once arg b'=') in
      rw on (set_all-HasKeys args next (set_arg-HasKeys c (split_once arg b'=') s))
]

-- `update` keeps the keys, whether it fails or not, and what it accepts has passed `validate`.
pub update-HasKeys :
    (c : Config) (args : List Text)
    → HasKeys c
    → HasKeys (update c args).1 × ((update c args).0 ≡ ok tt → validate (update c args).1 ≡ ok tt)
unfolding update
update-HasKeys c args s = (set_all-HasKeys args c s, λ h. ground arith)
