-- ===== src/Os/Sample.antt =====
-- A process table with one process, for runs of the code that looks for processes.
use android_smb_for_ksu.Common.{
  any, true, ℕ, ◌≡◌, ◌≤◌, refl, ℤ, pos, negsuc, [], ◌∷◌, Option, none, some, Result, Error, ok, err,
}
use android_smb_for_ksu.Text.{
  Text, chars, str_eq, is_one_of, parse_int, parse_digits, parse_unsigned, words_from,
  split_whitespace,
}
use android_smb_for_ksu.Os.Process.{start, after_last_paren}
use android_smb_for_ksu.Os.Processes.{
  pid_of, Proc, Process, processes, scan, inspect, acquire, recheck,
}
use android_smb_for_ksu.Os.Owner.{IsKernel}
use android_smb_for_ksu.Os.Found.{IsSteady, is_pid}

abbrev pub program : Text
program = chars "/data/smbctl"

-- process `n` has the number `n`
abbrev pub owner : ℤ → ℕ → Option ℕ
owner (pos n) t = some n
owner (negsuc n) t = none

abbrev handle : ℤ → ℕ → Result ℕ
handle (pos n) t = ok n
handle (negsuc n) t = err Error.io

abbrev pub table : Proc
table = record {
  names = λ t. ok (some (chars "self") ∷ none ∷ some (chars "42") ∷ []);
  stat = λ pid t. some (chars "42 (a) b) S 1 2 3 4 5 6 7 8 9 10 11 12 13 14 15 16 17 18 900 0");
  exe = λ pid t. some program;
  pidfd_open = handle;
  cmdline = λ pid t. some (chars "smbctl\0watch\0/data/adb/modules/smb/network_watch.sh\0");
}

pub table-IsKernel : IsKernel table owner
table-IsKernel = record { opened = opened; starts = starts }
  where
    opened : (pid : ℤ) (t h : ℕ) → handle pid t ≡ ok h → owner pid t ≡ some h
    opened (pos n) t h e = cc
    opened (negsuc n) t h e = cc

    starts :
        (pid : ℤ) (t u v : ℕ) (s : Text)
        → start (table.stat pid t) ≡ some s
        → start (table.stat pid v) ≡ some s
        → t ≤ u
        → u ≤ v
        → owner pid u ≡ owner pid t
    starts (pos n) t u v s a b c d = refl
    starts (negsuc n) t u v s a b c d = refl

abbrev pub found : Process
found = record { pid = pos 42; start = chars "900"; exe = program; handle = 42 }

pub processes-found : processes table (program ∷ []) 0 ≡ ok (found ∷ [])
unfolding processes scan inspect acquire recheck start after_last_paren split_whitespace words_from
    parse_int parse_digits parse_unsigned is_one_of str_eq
processes-found = refl

start-found :
    start (some (chars "42 (a) b) S 1 2 3 4 5 6 7 8 9 10 11 12 13 14 15 16 17 18 900 0"))
    ≡ some (chars "900")
unfolding start after_last_paren split_whitespace words_from str_eq
start-found = refl

pub found-IsSteady : IsSteady table (pos 42) (chars "900") program
found-IsSteady = (λ t. start-found, λ t. refl)

pub found-listed :
    any
      (λ n. is_pid table (pid_of n) (pos 42))
      (some (chars "self") ∷ none ∷ some (chars "42") ∷ [])
    ≡ true
unfolding parse_int parse_digits parse_unsigned
found-listed = refl
