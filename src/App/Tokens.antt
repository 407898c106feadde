-- ===== src/App/Tokens.antt =====
-- The tokens of the smb.conf templates (user.conf, guest.conf) are keys of the values that
-- `App::conf` (main.rs) expands them with.
use android_smb_for_ksu.Common.{
  ◌≡◌, refl, arith, Bool, true, ◌&&◌, List, [], ◌∷◌, ◌++◌, none, some, map, ok, Bool-cases, inl,
  inr,
}
use android_smb_for_ksu.Text.{Text, chars, str_eq, is_one_of}
use android_smb_for_ksu.Text.Lemmas.{str_eq_iff}
use android_smb_for_ksu.App.Template.{Piece, pieces, find, piece_text, expand_pieces, expand}
use android_smb_for_ksu.App.Templates.{user_conf, guest_conf}
use android_smb_for_ksu.App.Conf.{Settings, values, template_for}

-- each token is one of the keys
unfoldable pub knows : List Text → List Piece → Bool
knows keys [] = true
knows keys (Piece.char c ∷ ps) = knows keys ps
knows keys (Piece.token key ∷ ps) = is_one_of keys key && knows keys ps

find-known :
    (key : Text) (vs : List (Text × Text))
    → is_one_of (map (λ kv. kv.0) vs) key ≡ true
    → (v : Text) × (find key vs ≡ some v)
unfolding find is_one_of
find-known key [] h = absurd (ground arith)
find-known key ((k, v) ∷ vs) h = elim (Bool-cases (str_eq k key)) [
  | inl same ↦ (v, rw same refl)
  | inr other ↦
      let (w, found) = find-known key vs (ground (arith, str_eq_iff k key, str_eq_iff key k)) in
      (w, rw other found)
]

expand_pieces-token :
    (vs : List (Text × Text)) (key : Text) (ps : List Piece) (v rest : Text)
    → find key vs ≡ some v
    → expand_pieces vs ps ≡ ok rest
    → expand_pieces vs (Piece.token key ∷ ps) ≡ ok (v ++ rest)
unfolding expand_pieces
expand_pieces-token vs key ps v rest found e = rw (found, piece_text, e) refl

expand_pieces-known :
    (vs : List (Text × Text)) (ps : List Piece)
    → knows (map (λ kv. kv.0) vs) ps ≡ true
    → (out : Text) × (expand_pieces vs ps ≡ ok out)
unfolding expand_pieces knows
expand_pieces-known vs [] h = ([], refl)
expand_pieces-known vs (Piece.char c ∷ ps) h =
    let (rest, e) = expand_pieces-known vs ps h in (c ∷ rest, rw e refl)
expand_pieces-known vs (Piece.token key ∷ ps) h =
    let (v, found) = find-known key vs (ground arith) in
    let (rest, e) = expand_pieces-known vs ps (ground arith) in
    (v ++ rest, expand_pieces-token vs key ps v rest found e)

templates-known :
    (s : Settings)
    → (knows (map (λ kv. kv.0) (values s)) (pieces user_conf none) ≡ true)
      × (knows (map (λ kv. kv.0) (values s)) (pieces guest_conf none) ≡ true)
unfolding knows pieces is_one_of str_eq
templates-known s = (refl, refl)

-- `conf` never meets a token without a value: with the values of any settings, the template of either
-- mode expands to a text.
pub expand-templates :
    (s : Settings) (auth : Text) → (out : Text) × (expand (values s) (template_for auth) ≡ ok out)
unfolding expand
expand-templates s auth = elim (Bool-cases (str_eq auth (chars "user"))) [
  | inl user ↦
      rw user (expand_pieces-known (values s) (pieces user_conf none) (templates-known s).0)
  | inr other ↦
      rw other (expand_pieces-known (values s) (pieces guest_conf none) (templates-known s).1)
]
