-- ===== src/App/Template/Lines.antt =====
-- The lines of the smb.conf that `App::conf` (main.rs) expands.
use android_smb_for_ksu.Common.{
  ℕ, ◌+◌, ◌≡◌, refl, ◌∙◌, arith, List, [], ◌∷◌, ◌++◌, Option, none, some, ◌==◌, All, if◌then◌else◌,
  Result, Error, ok, err, >>=-eq-ok, ok-injective, Bool-cases, Option-cases, inl, inr, subst,
}
use android_smb_for_ksu.Text.{Text, str_eq}
use android_smb_for_ksu.App.Template.{Piece, pieces, find, piece_text, expand_pieces, expand}

-- the number of line feeds
unfoldable pub newlines : Text → ℕ
newlines [] = 0
newlines (c ∷ s) = let rest = newlines s in if c == b'\n' then rest + 1 else rest

abbrev pub HaveNoNewline : List (Text × Text) → Type 0
HaveNoNewline values = All (λ kv. newlines kv.1 ≡ 0) values

pub newlines-append : (s t : Text) → newlines (s ++ t) ≡ newlines s + newlines t
unfolding newlines
newlines-append [] t = omega arith
newlines-append (c ∷ s) t = ground (arith, newlines-append s t)

-- the line feeds of the pieces that are characters
literal_newlines : List Piece → ℕ
literal_newlines [] = 0
literal_newlines (Piece.char c ∷ ps) = newlines (c ∷ []) + literal_newlines ps
literal_newlines (Piece.token key ∷ ps) = literal_newlines ps

-- a token takes no line feed of the template
pieces-newlines :
    (s : Text) (open_key : Option Text) → literal_newlines (pieces s open_key) ≡ newlines s
unfolding pieces literal_newlines newlines
pieces-newlines [] none = refl
pieces-newlines [] (some key) = refl
pieces-newlines (c ∷ s) none = ground (arith, pieces-newlines s (some []), pieces-newlines s none)
pieces-newlines (c ∷ s) (some key) = ground (
  arith,
  pieces-newlines s (some (key ++ c ∷ [])),
  pieces-newlines s (some []),
  pieces-newlines s none,
)

find-newlines :
    (key : Text) (values : List (Text × Text)) {v : Text}
    → HaveNoNewline values
    → find key values ≡ some v
    → newlines v ≡ 0
unfolding find
find-newlines key [] h e = cc
find-newlines key ((k, v) ∷ values) h e = elim (Bool-cases (str_eq k key)) [
  | inl same ↦ subst (λ o. newlines o ≡ 0) (let e' : some v ≡ some _ = (rw same at e) in cc) h.0
  | inr other ↦ find-newlines key values h.1 (rw other at e)
]

piece_text-newlines :
    (values : List (Text × Text)) (p : Piece) {t : Text}
    → HaveNoNewline values
    → piece_text values p ≡ ok t
    → newlines t ≡ literal_newlines (p ∷ [])
unfolding literal_newlines newlines
piece_text-newlines values (Piece.char c) h e =
    subst (λ t. newlines t ≡ newlines (c ∷ []) + 0) (ok-injective e) (omega arith)
piece_text-newlines values (Piece.token key) h e = elim (Option-cases (find key values)) [
  | inl missing ↦ absurd (err-ne-ok (rw (missing, piece_text) at e))
  | inr (v, found) ↦
      subst (λ t. newlines t ≡ 0) (ok-injective (rw (found, piece_text) at e))
        (find-newlines key values h found)
]
  where
    err-ne-ok : {x : Error} {t : Text} → Path (Result Text) (err x) (ok t) → ⊥
    err-ne-ok q = cc

literal_newlines-cons :
    (p : Piece) (ps : List Piece)
    → literal_newlines (p ∷ ps) ≡ literal_newlines (p ∷ []) + literal_newlines ps
unfolding literal_newlines
literal_newlines-cons (Piece.char c) ps = omega arith
literal_newlines-cons (Piece.token key) ps = omega arith

expand_pieces-newlines :
    (values : List (Text × Text)) (ps : List Piece) {out : Text}
    → HaveNoNewline values
    → expand_pieces values ps ≡ ok out
    → newlines out ≡ literal_newlines ps
unfolding expand_pieces literal_newlines
expand_pieces-newlines values [] h e =
    subst (λ t. newlines t ≡ 0) (ok-injective e) (unfold newlines in refl)
expand_pieces-newlines values (p ∷ ps) h e =
    let (t, first, e₁) = >>=-eq-ok (piece_text values p) _ e in
    let (rest, second, e₂) = >>=-eq-ok (expand_pieces values ps) _ e₁ in
    let here = piece_text-newlines values p h first in
    let there = expand_pieces-newlines values ps h second in
    subst (λ o. newlines o ≡ literal_newlines (p ∷ ps)) (ok-injective e₂)
      (newlines-append t rest ∙ omega (arith, literal_newlines-cons p ps))

-- The expansion of a template with values of one line has as many lines as the template: no value
-- adds a line to smb.conf, and no token takes one away.
pub expand-newlines :
    (values : List (Text × Text)) (template : Text) {out : Text}
    → All (λ kv. newlines kv.1 ≡ 0) values
    → expand values template ≡ ok out
    → newlines out ≡ newlines template
unfolding expand
expand-newlines values template h e =
    expand_pieces-newlines values (pieces template none) h e ∙ pieces-newlines template none
