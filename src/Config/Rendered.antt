-- ===== src/Config/Rendered.antt =====
-- The entries of the text that `save` writes (config.rs).
use android_smb_for_ksu.Common.{
  ◌≡◌, refl, sym, ap, ◌∙◌, List, [], ◌∷◌, ◌++◌, append_assoc, append-nil, Option, none, some, All,
  Option-cases, inl, inr, Result, ok, err, Error, >>=-eq-ok, ok-injective, All-append, Result-cases,
}
use android_smb_for_ksu.Text.{Text}
use android_smb_for_ksu.Config.Map
use android_smb_for_ksu.Config.Map.{Config}
use android_smb_for_ksu.Config.Validate.{validate}
use android_smb_for_ksu.Config.Written.{write, legacy_key}
use android_smb_for_ksu.Config.{defaults, config_line, legacy_line, render_keys, render}

-- the entries of a map at a list of keys
unfoldable pub IsEntryOf : Config → Text × Text → Type 0
IsEntryOf c kv = Map.get kv.0 c ≡ some kv.1

pub record Written (c : Config) (ks : List Text) (s : Text) : Type 0 where
  pub entries : List (Text × Text)
  pub spelt : s ≡ write entries
  pub found : All (IsEntryOf c) entries
  pub named : Map.keys entries ≡ ks

render_keys-Written :
    (c : Config) (ds : List (Text × Text)) (s : Text)
    → render_keys c ds ≡ ok s
    → Written c (Map.keys ds) s
unfolding render_keys Map.index IsEntryOf
render_keys-Written c [] s h = record {
  entries = [];
  spelt = sym (ok-injective h);
  found = tt;
  named = refl;
}
render_keys-Written c ((k, d) ∷ ds) s h = elim (Option-cases (Map.get k c)) [
  | inl missing ↦
      let fails : ◌≡◌ {A = Result Text} (err Error.panicked) (ok s) = rw missing at h in cc
  | inr (v, there) ↦
      let (t, rest, e) =
        >>=-eq-ok (render_keys c ds) (λ t. ok (config_line k v ++ t)) (rw there at h) in
      let w : Written c (Map.keys ds) t = render_keys-Written c ds t rest in
      record {
        entries = (k, v) ∷ w.entries;
        spelt = sym (ok-injective e) ∙ ap (λ r. config_line k v ++ r) w.spelt;
        found = (there, w.found);
        named = ap (λ r. k ∷ r) w.named;
      }
]

abbrev pub legacy_entry : Option Text → List (Text × Text)
legacy_entry none = []
legacy_entry (some v) = (legacy_key, v) ∷ []

write-append : (xs ys : List (Text × Text)) → write (xs ++ ys) ≡ write xs ++ write ys
write-append [] ys = refl
write-append ((k, v) ∷ xs) ys =
    ap (λ r. config_line k v ++ r) (write-append xs ys)
    ∙ sym (append_assoc (config_line k v) (write xs) (write ys))

keys-append : (xs ys : List (Text × Text)) → Map.keys (xs ++ ys) ≡ Map.keys xs ++ Map.keys ys
keys-append [] ys = refl
keys-append (x ∷ xs) ys = ap (λ r. x.0 ∷ r) (keys-append xs ys)

pub render-parts :
    (c : Config) (s : Text)
    → render c ≡ ok s
    → (validate c ≡ ok tt)
      × ((t : Text) × (render_keys c defaults ≡ ok t)
          × (s ≡ t ++ legacy_line (Map.get legacy_key c)))
unfolding render
render-parts c s h = elim (Result-cases (validate c)) [
  | inr (e, bad) ↦ let fails : ◌≡◌ {A = Result Text} (err e) (ok s) = rw bad at h in cc
  | inl (tt, good) ↦
      let (t, wrote, e) =
        >>=-eq-ok (render_keys c defaults) (λ t. ok (t ++ legacy_line (Map.get legacy_key c)))
          (rw good at h) in
      (good, (t, wrote, sym (ok-injective e)))
]

legacy_entry-found :
    (c : Config) (o : Option Text) → Map.get legacy_key c ≡ o → All (IsEntryOf c) (legacy_entry o)
unfolding IsEntryOf
legacy_entry-found c none e = tt
legacy_entry-found c (some v) e = (e, tt)

legacy_line-write : (o : Option Text) → legacy_line o ≡ write (legacy_entry o)
legacy_line-write none = refl
legacy_line-write (some v) = sym (append-nil (config_line legacy_key v))

-- the keys in the order of the file
abbrev pub written_keys : Config → List Text
written_keys c = Map.keys defaults ++ Map.keys (legacy_entry (Map.get legacy_key c))

pub render-Written : (c : Config) (s : Text) → render c ≡ ok s → Written c (written_keys c) s
render-Written c s h =
    let (valid, (t, wrote, e)) = render-parts c s h in
    let w : Written c (Map.keys defaults) t = render_keys-Written c defaults t wrote in
    let last = legacy_entry (Map.get legacy_key c) in
    record {
      entries = w.entries ++ last;
      spelt =
          cc (e, w.spelt, legacy_line-write (Map.get legacy_key c), write-append w.entries last);
      found =
          All-append (IsEntryOf c) w.entries last w.found
            (legacy_entry-found c (Map.get legacy_key c) refl);
      named = keys-append w.entries last ∙ ap (λ r. r ++ Map.keys last) w.named;
    }
