-- ===== src/App/Template.antt =====
-- The expansion of the smb.conf template in `App::conf` (native/smbctl/src/main.rs): each `$TOKEN`
-- is replaced once, by the value of its key.
pub mod Lines
use android_smb_for_ksu.Common.{
  ℕ, Bool, true, false, ◌||◌, List, [], ◌∷◌, ◌++◌, Option, none, some, ◌==◌, if◌then◌else◌, Result,
  Error, ok, err, ◌>>=◌,
}
use android_smb_for_ksu.Text.{Text, str_eq, is_alphanumeric}

abbrev pub is_key_char : ℕ → Bool
is_key_char c = is_alphanumeric c || c == b'_'

-- a part of the template: a character, or a token
pub data Piece : Type 0 where
  char : ℕ → Piece
  token : Text → Piece

-- The pieces of a template. With `some key` a token is being read, and `key` is what was read of it.
abbrev pub close : Option Text → List Piece
close none = []
close (some key) = token key ∷ []

unfoldable pub pieces : Text → Option Text → List Piece
pieces [] open_key = close open_key
pieces (c ∷ s) none = elim (c == b'$') [
  | true ↦ pieces s (some [])
  | false ↦ char c ∷ pieces s none
]
pieces (c ∷ s) (some key) = elim (is_key_char c) [
  | true ↦ pieces s (some (key ++ c ∷ []))
  | false ↦ elim (c == b'$') [
    | true ↦ token key ∷ pieces s (some [])
    | false ↦ token key ∷ char c ∷ pieces s none
  ]
]

-- `values.iter().find(|(k, _)| *k == key)`
unfoldable pub find : Text → List (Text × Text) → Option Text
unfolding str_eq
find key [] = none
find key ((k, v) ∷ vs) = if str_eq k key then some v else find key vs

abbrev pub piece_text : List (Text × Text) → Piece → Result Text
piece_text values (char c) = ok (c ∷ [])
piece_text values (token key) = elim (find key values) [
  | none ↦ err (Error.missing_token key)
  | some v ↦ ok v
]

unfoldable pub expand_pieces : List (Text × Text) → List Piece → Result Text
unfolding find
expand_pieces values [] = ok []
expand_pieces values (p ∷ ps) = do
  s ← piece_text values p
  rest ← expand_pieces values ps
  ok (s ++ rest)

-- The loop over the template pushes the pieces' texts in turn and stops at the first unknown token.
unfoldable pub expand : List (Text × Text) → Text → Result Text
unfolding expand_pieces pieces
expand values template = expand_pieces values (pieces template none)
