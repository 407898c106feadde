-- ===== src/Os/Processes.antt =====
-- `processes` of os.rs (native/smbctl/src/os.rs): the processes of given programs, each with a handle
-- (pidfd). Between two reads the process behind a number may exit and another one take the number.
use android_smb_for_ksu.Common.{
  ℕ, ◌+◌, ℤ, Bool, false, ◌&&◌, List, [], ◌∷◌, Option, none, some, if◌then◌else◌, is_some, Result,
  ok, err,
}
use android_smb_for_ksu.Text.{Text, str_eq, is_one_of, parse_int}
use android_smb_for_ksu.Os.Process.{start}

-- /proc, as a read at a time finds it; a handle is the process that it refers to
pub record Proc : Type 0 where
  pub names : ℕ → Result (List (Option Text))  -- the entries, `none` if the name is not UTF-8
  pub stat : ℤ → ℕ → Option Text
  pub exe : ℤ → ℕ → Option Text  -- the link to the program
  pub pidfd_open : ℤ → ℕ → Result ℕ
  pub cmdline : ℤ → ℕ → Option (List ℕ)

pub record Process : Type 0 where
  pub pid : ℤ
  pub start : Text
  pub exe : Text
  pub handle : ℕ

-- `o.as_ref() == Some(&s)`
abbrev pub is_text : Option Text → Text → Bool
is_text none s = false
is_text (some t) s = str_eq t s

abbrev pub pid_of : Option Text → Option ℤ
pid_of none = none
pid_of (some name) = parse_int name

module _ (proc : Proc) where
  -- the start and the program are read again behind the opening of the handle
  unfoldable pub recheck : ℤ → Text → Text → ℕ → ℕ → Option Process
  recheck pid before exe handle t =
      if is_text (start (proc.stat pid t)) before && is_text (proc.exe pid (t + 1)) exe
      then some (record { pid = pid; start = before; exe = exe; handle = handle })
      else none

  unfoldable pub acquire : ℤ → Text → Text → ℕ → Result (Option Process)
  unfolding recheck
  acquire pid before exe t = elim (proc.pidfd_open pid t) [
    | ok h ↦ ok (recheck pid before exe h (t + 1))
    | err e ↦ if is_some (start (proc.stat pid (t + 1))) then err e else ok none
  ]

  -- the body of the loop for a process number, from the time `t` on
  unfoldable pub inspect : List Text → ℤ → ℕ → Result (Option Process)
  unfolding acquire
  inspect exes pid t = elim (start (proc.stat pid t)) [
    | none ↦ ok none
    | some before ↦ elim (proc.exe pid (t + 1)) [
      | none ↦ ok none
      | some exe ↦ if is_one_of exes exe then acquire pid before exe (t + 2) else ok none
    ]
  ]

  abbrev pub inspect_entry : List Text → Option ℤ → ℕ → Result (Option Process)
  inspect_entry exes none t = ok none
  inspect_entry exes (some pid) t = inspect exes pid t

  abbrev pub push : Option Process → List Process → List Process
  push none ps = ps
  push (some p) ps = p ∷ ps

  unfoldable pub scan : List Text → List (Option Text) → ℕ → Result (List Process)
  unfolding inspect
  scan exes [] t = ok []
  scan exes (name ∷ names) t = elim (inspect_entry exes (pid_of name) t) [
    | err e ↦ err e
    | ok found ↦ elim (scan exes names (t + 5)) [ err e ↦ err e | ok ps ↦ ok (push found ps) ]
  ]

  unfoldable pub processes : List Text → ℕ → Result (List Process)
  unfolding scan
  processes exes t = elim (proc.names t) [ err e ↦ err e | ok names ↦ scan exes names (t + 1) ]
