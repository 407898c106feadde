-- ===== src/App/Version.antt =====
-- `version` of `App` (native/smbctl/src/main.rs): the version that a program prints, kept in a file
-- with the size and the time of the program.
pub mod Cached
use android_smb_for_ksu.Common.{
  ℕ, List, [], ◌∷◌, ◌++◌, Option, none, some, Bool, true, false, if◌then◌else◌, unwrap_or, head?,
}
use android_smb_for_ksu.Text.{Text, str_eq, split_once, lines}
use android_smb_for_ksu.Storage.Decimal.{show_from}

-- What the system answers: the size of the program with the nanoseconds of its time, `none` if
-- either cannot be had; whether the file can be read; what the program prints, `none` if it cannot be
-- run; and whether the file is written.
pub record Answers : Type 0 where
  pub program : Option (ℕ × ℕ)
  pub reads : Bool
  pub output : Option Text
  pub lands : Bool

-- `{len}:{nanos}`
unfoldable pub stamp : Option (ℕ × ℕ) → Text
unfolding show_from
stamp none = []
stamp (some (len, nanos)) = show_from 20 len ++ b':' ∷ show_from 39 nanos

abbrev pub read : Bool → Option Text → Option Text
read true file = file
read false file = none

-- the cached version, if it is that of the program
abbrev pub fresh : Text → Option (Text × Text) → Option Text
fresh key none = none
fresh key (some (k, v)) = if str_eq k key then some v else none

abbrev pub cached : Text → Option Text → Option Text
cached key none = none
cached key (some text) = fresh key (split_once text b'\n')

-- the first line that the program prints
abbrev pub first_line : Option Text → Text
first_line none = []
first_line (some out) = unwrap_or (head? (lines out)) []

-- the version, and the file behind the call
abbrev pub renew : Text → Answers → Option Text → Text × Option Text
renew key a file =
    let v = first_line a.output in (v, if a.lands then some (key ++ b'\n' ∷ v) else file)

abbrev pub answer : Option Text → Text → Answers → Option Text → Text × Option Text
answer (some v) key a file = (v, file)
answer none key a file = renew key a file

unfoldable pub version : Answers → Option Text → Text × Option Text
unfolding stamp split_once str_eq lines
version a file = let key = stamp a.program in answer (cached key (read a.reads file)) key a file
