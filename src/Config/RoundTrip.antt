-- ===== src/Config/RoundTrip.antt =====
-- What `save` writes, `load` reads back (config.rs).
use android_smb_for_ksu.Common.{
  ◌≤◌, ◌≡◌, refl, sym, ap, ◌∙◌, true, false, List, ◌++◌, none, some, arith, all, All, Bool-cases,
  Option-cases, inl, inr, ◌⊎◌, ok, subst,
}
use android_smb_for_ksu.Text.{Text, str_eq, is_one_of, byte_len, lines, str_lt}
use mathlib.Core.Path.{ap₂}
use android_smb_for_ksu.Config.Map
use android_smb_for_ksu.Config.Map.{Config}
use android_smb_for_ksu.Config.Validate.{validate}
use android_smb_for_ksu.Config.Checked.{validate-Passed}
use android_smb_for_ksu.Config.Written.{write, legacy_key, parse_lines-write}
use android_smb_for_ksu.Config.Shape.{HasKeys, config_keys, legacy_keys, HasKeys-sorted}
use android_smb_for_ksu.Config.{defaults, default_config, render, parse_lines, parse}
use android_smb_for_ksu.Config.Rendered.{
  IsEntryOf, Written, legacy_entry, render-parts, written_keys, render-Written,
}
use android_smb_for_ksu.Config.Limits.{
  get-insert_all, byte_len-write, entries-IsWritable, KeysFit, legacy-KeysFit,
}

parse-of_lines :
    (s : Text) (c : Config)
    → byte_len s ≤ 65536
    → parse_lines default_config (lines s) ≡ ok c
    → validate c ≡ ok tt
    → parse s ≡ ok c
unfolding parse
parse-of_lines s c short read valid = ground arith

no_legacy : is_one_of config_keys legacy_key ≡ false
unfolding is_one_of str_eq
no_legacy = refl

has_legacy : is_one_of legacy_keys legacy_key ≡ true
unfolding is_one_of str_eq
has_legacy = refl

gone-of_keys :
    (a b : Config) (j : Text) → Map.keys a ≡ Map.keys b → Map.get j a ≡ none → Map.get j b ≡ none
gone-of_keys a b j e gone =
    let out : Map.contains_key a j ≡ false = unfold Map.contains_key in rw gone in
    Map.get-eq-none b j
      (subst (λ ks. is_one_of ks j ≡ false) e (sym (Map.contains_key-keys a j) ∙ out))

legacy-of_keys :
    (c : Config)
    → HasKeys c
    → ((Map.keys c ≡ config_keys) × (Map.get legacy_key c ≡ none))
      ⊎ ((Map.keys c ≡ legacy_keys) × ((v : Text) × (Map.get legacy_key c ≡ some v)))
legacy-of_keys c (inl e) = inl (
  e,
  Map.get-eq-none c legacy_key (subst (λ ks. is_one_of ks legacy_key ≡ false) (sym e) no_legacy),
)
legacy-of_keys c (inr e) = elim (Option-cases (Map.get legacy_key c)) [
  | inr there ↦ inr (e, there)
  | inl missing ↦
      let found : Map.contains_key c legacy_key ≡ true =
        Map.contains_key-keys c legacy_key
        ∙ subst (λ ks. is_one_of ks legacy_key ≡ true) (sym e) has_legacy in
      let lost : Map.contains_key c legacy_key ≡ false = unfold Map.contains_key in rw missing in cc
]

-- what the keys of the file decide about the reloaded map
record KeysReload (ks written : List Text) : Type 0 where
  reloaded : Map.insert_keys written config_keys ≡ ks
  covers : all (λ k. is_one_of written k) config_keys ≡ true

plain_reload : KeysReload config_keys (Map.keys defaults ++ Map.keys (legacy_entry none))
unfolding Map.insert_keys is_one_of str_eq str_lt
plain_reload = record { reloaded = refl; covers = refl }

legacy_reload :
    (v : Text) → KeysReload legacy_keys (Map.keys defaults ++ Map.keys (legacy_entry (some v)))
unfolding Map.insert_keys is_one_of str_eq str_lt
legacy_reload v = record { reloaded = refl; covers = refl }

written-KeysReload : (c : Config) → HasKeys c → KeysReload (Map.keys c) (written_keys c)
written-KeysReload c shape = elim (legacy-of_keys c shape) [
  | inl (e, gone) ↦ rw (e, gone) plain_reload
  | inr (e, (v, there)) ↦ rw (e, there) (legacy_reload v)
]

default_config-keys : Map.keys default_config ≡ config_keys
unfolding default_config Map.insert_all
default_config-keys = refl

module _ (c : Config) (shape : HasKeys c) where
  -- the two sides of the reload have the same keys
  reload-keys :
      (kvs : List (Text × Text))
      → Map.keys kvs ≡ written_keys c
      → Map.keys (Map.insert_all kvs default_config) ≡ Map.keys c
  reload-keys kvs e =
      Map.keys-insert_all kvs default_config
      ∙ ap₂ Map.insert_keys e default_config-keys
      ∙ (written-KeysReload c shape).reloaded

  absent :
      (kvs : List (Text × Text)) (j : Text)
      → Map.keys kvs ≡ written_keys c
      → is_one_of (Map.keys kvs) j ≡ false
      → Map.get j default_config ≡ none
  absent kvs j e out = Map.get-eq-none default_config j (
      rw default_config-keys (
        Map.is_one_of-subset (written_keys c) config_keys j (written-KeysReload c shape).covers
          (rw e at out)))

  reload-get :
      (kvs : List (Text × Text)) (j : Text)
      → All (IsEntryOf c) kvs
      → Map.keys kvs ≡ written_keys c
      → Map.get j (Map.insert_all kvs default_config) ≡ Map.get j c
  reload-get kvs j h e =
      let read = get-insert_all c default_config kvs j h in
      elim (Bool-cases (is_one_of (Map.keys kvs) j)) [
        | inl there ↦ rw there at read
        | inr out ↦
            let gone : Map.get j (Map.insert_all kvs default_config) ≡ none =
              (rw out at read) ∙ absent kvs j e out in
            gone
            ∙ sym (gone-of_keys (Map.insert_all kvs default_config) c j (reload-keys kvs e) gone)
      ]

  reload :
      (kvs : List (Text × Text))
      → All (IsEntryOf c) kvs
      → Map.keys kvs ≡ written_keys c
      → Map.insert_all kvs default_config ≡ c
  reload kvs h e =
      let same = reload-keys kvs e in
      Map.get-ext (Map.insert_all kvs default_config) c
        (subst (λ ks. Map.is_sorted ks ≡ true) (sym same) (HasKeys-sorted c shape)) same
        (λ j. reload-get kvs j h e)

-- A configuration with the known keys that `save` accepts is read back whole by `load`: the text it
-- writes parses to the same map. In particular the 64 KiB limit of `parse` is never met.
pub parse-render : (c : Config) (s : Text) → HasKeys c → render c ≡ ok s → parse s ≡ ok c
parse-render c s shape h =
    let w : Written c (written_keys c) s = render-Written c s h in
    let valid = (render-parts c s h).0 in
    let passed = validate-Passed c valid in
    let fit = subst KeysFit (sym w.named) (legacy-KeysFit (Map.get legacy_key c)) in
    let writable = entries-IsWritable c w.entries passed w.found fit.plain in
    let read = parse_lines-write default_config w.entries writable fit.known in
    let size = byte_len-write c w.entries passed w.found in
    subst (λ t. parse t ≡ ok c) (sym w.spelt)
      (parse-of_lines (write w.entries) c (omega (arith, size, fit.fits))
        (read ∙ ap ok (reload c shape w.entries w.found w.named)) valid)
