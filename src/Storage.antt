-- ===== src/Storage.antt =====
-- native/smbctl/src/storage.rs: which Android user's encrypted storage a share lies in, and whether
-- that storage is unlocked. System properties, `am` and the directory are parameters.
pub mod Property
pub mod WaitEquals
pub mod Deadline
pub mod Events
pub mod Tests
pub mod Decimal
pub mod UserScope
use android_smb_for_ksu.Common.{
  ℕ, ◌^◌, ◌-◌, Bool, true, false, ◌&&◌, ◌||◌, List, [], ◌∷◌, ◌++◌, Option, none, some,
  if◌then◌else◌,
}
use android_smb_for_ksu.Text.{
  Text, chars, str_eq, is_one_of, starts_with, strip_prefix, before_char, parse_unsigned, trim,
}
use android_smb_for_ksu.Storage.Decimal.{show_u32}

abbrev pub user_prefixes : List Text
user_prefixes = chars "/storage/emulated/" ∷ chars "/data/media/" ∷ chars "/data/user/" ∷ []

-- the loop over the prefixes: the first that fits decides
unfoldable pub user_below : List Text → Text → Option ℕ
unfolding strip_prefix before_char parse_unsigned
user_below [] path = none
user_below (p ∷ ps) path = elim (strip_prefix path p) [
  | some tail ↦ parse_unsigned (2 ^ 32 - 1) (before_char tail b'/')
  | none ↦ user_below ps path
]

unfoldable pub is_primary : Text → Bool
unfolding str_eq starts_with
is_primary path =
    str_eq path (chars "/sdcard")
    || starts_with path (chars "/sdcard/")
    || str_eq path (chars "/storage/self/primary")
    || starts_with path (chars "/storage/self/primary/")

unfoldable pub user : Text → Option ℕ
unfolding is_primary user_below
user path = if is_primary path then some 0 else user_below user_prefixes path

-- `format!("sys.user.{u}.ce_available")`
abbrev pub ce_property : ℕ → Text
ce_property u = chars "sys.user." ++ show_u32 u ++ chars ".ce_available"

-- `Events::key_for`, and `Events::matches` for the key that a listener was made with
unfoldable pub key_for : Text → Text
unfolding user
key_for path = elim (user path) [ none ↦ [] | some u ↦ ce_property u ]

unfoldable pub matches : Text → Text → Bool
unfolding key_for str_eq
matches key path = str_eq key (key_for path)

-- the directory that must be readable
unfoldable pub ce_root : Text → ℕ → Text
unfolding starts_with
ce_root path u =
    if starts_with path (chars "/data/user/")
    then chars "/data/user/" ++ show_u32 u
    else chars "/data/media/" ++ show_u32 u

-- `user_state u` is the output of `am get-started-user-state u` if it succeeded, and `readable dir`
-- that `read_dir` succeeds with no first entry or one that can be read.
module _ (property : Text → Text) (user_state : ℕ → Option Text) (readable : Text → Bool) where
  abbrev pub is_running_unlocked : Option Text → Bool
  is_running_unlocked none = false
  is_running_unlocked (some out) = str_eq (trim out) (chars "RUNNING_UNLOCKED")

  unfoldable pub unlocked : ℕ → Bool
  unfolding is_one_of
  unlocked u =
      let v = property (ce_property u) in
      if is_one_of (chars "true" ∷ chars "1" ∷ []) v
      then true
      else if is_one_of (chars "false" ∷ chars "0" ∷ []) v
      then false
      else is_running_unlocked (user_state u)

  abbrev pub ready_for : Text → Option ℕ → Bool
  ready_for path none = true
  ready_for path (some u) = if unlocked u then readable (ce_root path u) else false

  unfoldable pub ready : Text → Bool
  unfolding user unlocked ce_root
  ready path = ready_for path (user path)

-- the directories whose changes may tell that the storage of user `u` is unlocked
unfoldable pub directory_roots : ℕ → List Text
directory_roots u =
    chars "/data"
    ∷ chars "/data/media"
    ∷ (chars "/data/media/" ++ show_u32 u)
    ∷ chars "/data/user"
    ∷ (chars "/data/user/" ++ show_u32 u)
    ∷ []

abbrev pub existing : (Text → Bool) → List Text → List Text
existing is_dir [] = []
existing is_dir (d ∷ ds) = if is_dir d then d ∷ existing is_dir ds else existing is_dir ds

-- `directory_events`: what is handed to `inotify`, and its descriptor if there is one
unfoldable pub directory_events :
    {A : Type 0} → (Text → Bool) → (List Text → Option A) → Text → Option A
unfolding user directory_roots
directory_events is_dir inotify path = elim (user path) [
  | none ↦ none
  | some u ↦ inotify (existing is_dir (directory_roots u))
]
