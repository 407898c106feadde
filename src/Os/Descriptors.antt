-- ===== src/Os/Descriptors.antt =====
-- `fd`, `poll`, `inotify`, `netlink` and `drain` of native/smbctl/src/os.rs, on what the system calls return.
use android_smb_for_ksu.Common.{
  ℕ, zero, suc, ◌+◌, ◌≤◌, arith, ℤ, pos, negsuc, Bool, true, false, List, [], ◌∷◌, Result, Error,
  ok, err, reject_if, ◌>>=◌, ◌>>◌, ◌≡◌, refl, ap, ok-injective, ◌⊎◌, inl, inr,
}
use android_smb_for_ksu.Text.{Text, contains_char}

-- a number below 0 is an error of the call
abbrev pub is_negative : ℤ → Bool
is_negative (pos n) = false
is_negative (negsuc n) = true

unfoldable pub fd : ℤ → Result ℕ
fd (pos n) = ok n
fd (negsuc n) = err Error.io

-- from the answer of the system call, and whether a call that failed was interrupted by a signal
unfoldable pub poll : ℤ → Bool → Result ℕ
poll (pos n) interrupted = ok n
poll (negsuc n) true = ok 0
poll (negsuc n) false = err Error.io

-- the watches for the paths, up to the first that cannot be added
unfoldable pub add_watches : (Text → ℤ) → List Text → Result (Unit {0})
add_watches add [] = ok tt
add_watches add (p ∷ ps) = do
  reject_if (contains_char p 0) Error.nul_in_name
  reject_if (is_negative (add p)) Error.io
  add_watches add ps

-- from the answers of `inotify_init1` and of `inotify_add_watch`
unfoldable pub inotify : ℤ → (Text → ℤ) → List Text → Result ℕ
unfolding fd add_watches
inotify init add paths = do f ← fd init; add_watches add paths; ok f

-- from the answers of `socket` and `bind`
unfoldable pub netlink : ℤ → ℤ → Result ℕ
unfolding fd
netlink socket bind = do f ← fd socket; reject_if (is_negative bind) Error.io; ok f

-- the loop ends when nothing was read
abbrev pub read_then : ℤ → ℕ → ℕ
read_then (pos zero) rest = 1
read_then (pos (suc k)) rest = rest + 1
read_then (negsuc k) rest = 1

-- how many of the reads, of which the i-th returns `read i`, are made: `n` at most
unfoldable pub drain_from : ℕ → ℕ → (ℕ → ℤ) → ℕ
drain_from zero i read = 0
drain_from (suc n) i read = let rest = drain_from n (i + 1) read in read_then (read i) rest

unfoldable pub drain : (ℕ → ℤ) → ℕ
unfolding drain_from
drain read = drain_from 32 0 read

read_then-le : (k : ℤ) (rest : ℕ) → read_then k rest ≤ rest + 1
read_then-le (pos zero) rest = omega arith
read_then-le (pos (suc k)) rest = omega arith
read_then-le (negsuc k) rest = omega arith

drain_from-le : (n i : ℕ) (read : ℕ → ℤ) → drain_from n i read ≤ n
unfolding drain_from
drain_from-le zero i read = omega arith
drain_from-le (suc n) i read =
    omega (arith, read_then-le (read i) (drain_from n (i + 1) read), drain_from-le n (i + 1) read)

-- A burst of events cannot hold `drain`: it makes 32 reads at most.
drain-le : (read : ℕ → ℤ) → drain read ≤ 32
unfolding drain
drain-le read = drain_from-le 32 0 read

-- `poll` returns 0 only if the call did, which is the end of the timeout, or if a signal came.
poll-zero :
    (r : ℤ) (interrupted : Bool) → poll r interrupted ≡ ok 0 → (r ≡ pos 0) ⊎ (interrupted ≡ true)
unfolding poll
poll-zero (pos n) interrupted e = inl (ap pos (ok-injective e))
poll-zero (negsuc n) true e = inr refl
poll-zero (negsuc n) false e = cc
