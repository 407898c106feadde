-- ===== src/Os/Process.antt =====
-- `start` of os.rs, after the file /proc/{pid}/stat was read.
use android_smb_for_ksu.Common.{
  List, [], ◌∷◌, Option, none, some, ◌==◌, ◌&&◌, if◌then◌else◌, get_elem?,
}
use android_smb_for_ksu.Text.{Text, chars, str_eq, split_whitespace}

-- the text behind the last `) `
unfoldable pub after_last_paren : Text → Option Text
after_last_paren [] = none
after_last_paren (c ∷ []) = none
after_last_paren (c ∷ d ∷ s) = elim (after_last_paren (d ∷ s)) [
  | some t ↦ some t
  | none ↦ if c == b')' && d == b' ' then some s else none
]

abbrev pub start_field : List Text → Option Text
start_field [] = none
start_field (f ∷ fs) = if str_eq f (chars "Z") then none else get_elem? (f ∷ fs) 19

unfoldable pub start : Option Text → Option Text
start none = none
start (some stat) = elim (after_last_paren stat) [
  | none ↦ none
  | some tail ↦ start_field (split_whitespace tail)
]
