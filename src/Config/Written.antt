-- ===== src/Config/Written.antt =====
-- Lines that are written and read back: `render_keys` against `lines` and the loop of `parse`
-- (config.rs).
use android_smb_for_ksu.Common.{
  ℕ, ◌≡◌, refl, ap, ◌∙◌, Bool, true, false, not, ◌&&◌, ◌||◌, List, [], ◌∷◌, ◌++◌, append_assoc,
  append-nil, map, arith, any, all, All, ◌==◌, and_left, and_right, not-true, ok,
}
use android_smb_for_ksu.Text.{
  Text, chars, str_eq, is_control, is_whitespace, trim, trim_start, trim_end_matches, strip_cr,
  lines_from, lines,
}
use android_smb_for_ksu.Text.Lemmas.{split_once-append}
use android_smb_for_ksu.Config.Map
use android_smb_for_ksu.Config.Map.{Config}
use android_smb_for_ksu.Config.{config_line, is_skipped, set_known, parse_line, parse_lines}

-- a key that a written line can begin with
abbrev pub is_key_char : ℕ → Bool
is_key_char c = not (c == b'=') && not (is_control c)

unfoldable pub is_plain_start : Text → Bool
is_plain_start [] = false
is_plain_start (x ∷ k) = not (is_whitespace x) && not (x == b'#')

unfoldable pub is_plain_key : Text → Bool
unfolding is_plain_start
is_plain_key k = is_plain_start k && all (λ c. is_key_char c) k

key-parts :
    (k : Text)
    → is_plain_key k ≡ true
    → (is_plain_start k ≡ true) × (all (λ c. is_key_char c) k ≡ true)
unfolding is_plain_key
key-parts k h = (and_left _ _ h, and_right _ _ h)

abbrev is_plain : Text → Bool
is_plain s = not (any (λ x. is_control x) s)

abbrev pub write : List (Text × Text) → Text
write [] = []
write ((k, v) ∷ kvs) = config_line k v ++ write kvs

plain-append : (s t : Text) → is_plain s ≡ true → is_plain t ≡ true → is_plain (s ++ t) ≡ true
plain-append [] t h k = k
plain-append (c ∷ s) t h k = ground (arith, plain-append s t)

key-plain : (k : Text) → all (λ c. is_key_char c) k ≡ true → is_plain k ≡ true
key-plain [] h = refl
key-plain (c ∷ k) h = ground (arith, key-plain k)

key-no_eq : (k : Text) → all (λ c. is_key_char c) k ≡ true → All (λ c. (c == b'=') ≡ false) k
key-no_eq [] h = tt
key-no_eq (c ∷ k) h = (ground arith, key-no_eq k (ground arith))

line-plain :
    (k v : Text) → is_plain_key k ≡ true → is_plain v ≡ true → is_plain (k ++ b'=' ∷ v) ≡ true
line-plain k v h p = plain-append k (b'=' ∷ v) (key-plain k (key-parts k h).1) p

strip_cr-plain : (s : Text) → is_plain s ≡ true → strip_cr s ≡ s
unfolding strip_cr
strip_cr-plain [] h = refl
strip_cr-plain (c ∷ s) h = ground (arith, strip_cr-plain s)

trim_end-plain : (s : Text) → is_plain s ≡ true → trim_end_matches s (λ x. x == b'\r') ≡ s
unfolding trim_end_matches
trim_end-plain [] h = refl
trim_end-plain (c ∷ s) h = ground (arith, trim_end-plain s)

lines_from-append :
    (s rest cur : Text)
    → is_plain s ≡ true
    → lines_from (s ++ b'\n' ∷ rest) cur ≡ strip_cr (cur ++ s) ∷ lines_from rest []
unfolding lines_from
lines_from-append [] rest cur h = rw append-nil
lines_from-append (c ∷ s) rest cur h =
    ground (arith, lines_from-append s rest (cur ++ c ∷ []), append_assoc cur (c ∷ []) s)

config_line-append : (k v rest : Text) → config_line k v ++ rest ≡ (k ++ b'=' ∷ v) ++ b'\n' ∷ rest
config_line-append k v rest = simp append_assoc

-- The lines of what was written are the written lines.
pub lines-write :
    (kvs : List (Text × Text))
    → All (λ kv. (is_plain_key kv.0 ≡ true) × (is_plain kv.1 ≡ true)) kvs
    → lines (write kvs) ≡ map (λ kv. kv.0 ++ b'=' ∷ kv.1) kvs
unfolding lines lines_from
lines-write [] h = refl
lines-write ((k, v) ∷ kvs) h =
    let plain = line-plain k v h.0.0 h.0.1 in
    rw
      (
        config_line-append k v (write kvs),
        lines_from-append (k ++ b'=' ∷ v) (write kvs) [] plain,
        strip_cr-plain (k ++ b'=' ∷ v) plain,
      )
      (ap (λ l. (k ++ b'=' ∷ v) ∷ l) (lines-write kvs h.1))

not-skipped : (k s : Text) → is_plain_start k ≡ true → is_skipped (k ++ s) ≡ false
unfolding is_skipped trim trim_start trim_end_matches is_plain_start
not-skipped [] s h = cc
not-skipped (x ∷ k) s h =
    let no_space : is_whitespace x ≡ false = not-true _ (and_left _ _ h) in
    let no_hash : (x == b'#') ≡ false = not-true _ (and_right _ _ h) in
    rw (no_space, no_space, no_hash)

parse_line-written :
    (c : Config) (k v : Text)
    → is_plain_key k ≡ true
    → is_plain v ≡ true
    → parse_line c (k ++ b'=' ∷ v) ≡ set_known c k v
unfolding parse_line
parse_line-written c k v h p = rw (
  trim_end-plain (k ++ b'=' ∷ v) (line-plain k v h p),
  not-skipped k (b'=' ∷ v) (key-parts k h).0,
  split_once-append b'=' k v (key-no_eq k (key-parts k h).1),
)

abbrev pub legacy_key : Text
legacy_key = chars "MT_COMPAT_MODE"

-- a key that the loop of `parse` accepts over the map `c`
abbrev pub is_known : Config → Text → Bool
is_known c k = Map.contains_key c k || str_eq k legacy_key

pub set_known-eq-ok :
    (c : Config) (k v : Text) {c' : Config}
    → set_known c k v ≡ ok c'
    → (is_known c k ≡ true) × (c' ≡ Map.insert k v c)
unfolding set_known
set_known-eq-ok c k v h = ground arith

set_known-known :
    (c : Config) (k v : Text) → is_known c k ≡ true → set_known c k v ≡ ok (Map.insert k v c)
unfolding set_known
set_known-known c k v h = ground arith

contains_key-insert :
    (c : Config) (k v j : Text)
    → Map.contains_key c j ≡ true
    → Map.contains_key (Map.insert k v c) j ≡ true
unfolding Map.contains_key
contains_key-insert c k v j h = ground (arith, Map.get-insert k j v c)

still_known :
    (c : Config) (k v : Text) (ks : List Text)
    → all (λ j. is_known c j) ks ≡ true
    → all (λ j. is_known (Map.insert k v c) j) ks ≡ true
still_known c k v [] h = refl
still_known c k v (j ∷ ks) h = ground (arith, still_known c k v ks, contains_key-insert c k v j)

abbrev pub IsWritable : Text × Text → Type 0
IsWritable kv = (is_plain_key kv.0 ≡ true) × (is_plain kv.1 ≡ true)

-- Reading back written lines inserts their entries, in their order.
pub parse_lines-write :
    (c : Config) (kvs : List (Text × Text))
    → All IsWritable kvs
    → all (λ j. is_known c j) (Map.keys kvs) ≡ true
    → parse_lines c (lines (write kvs)) ≡ ok (Map.insert_all kvs c)
unfolding parse_lines Map.insert_all
parse_lines-write c kvs w h = rw (lines-write kvs w) (loop c kvs w h)
  where
    loop :
        (c : Config) (kvs : List (Text × Text))
        → All IsWritable kvs
        → all (λ j. is_known c j) (Map.keys kvs) ≡ true
        → parse_lines c (map (λ kv. kv.0 ++ b'=' ∷ kv.1) kvs) ≡ ok (Map.insert_all kvs c)
    loop c [] w h = refl
    loop c ((k, v) ∷ kvs) w h =
        let step : parse_line c (k ++ b'=' ∷ v) ≡ ok (Map.insert k v c) =
          parse_line-written c k v w.0.0 w.0.1 ∙ set_known-known c k v (and_left _ _ h) in
        rw step
          (loop (Map.insert k v c) kvs w.1 (still_known c k v (Map.keys kvs) (and_right _ _ h)))
