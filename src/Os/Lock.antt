-- ===== src/Os/Lock.antt =====
-- `Lock` of native/smbctl/src/os.rs: an exclusive lock on a file, by `flock`. What `open` and `flock`
-- answer is a parameter: nothing, or the error's number.
pub mod Exclusive
use android_smb_for_ksu.Common.{Bool, Option, none, some}

pub data Errno : Type 0 where
  would_block other : Errno  -- EWOULDBLOCK, or another number

pub data Acquired : Type 0 where
  acquired : Acquired
  failed : Errno → Acquired

-- `Lock::new(p, nonblock)`: `flock` is called with LOCK_NB or without it
unfoldable pub new : Option Errno → (Bool → Option Errno) → Bool → Acquired
new (some e) flock nonblock = failed e
new none flock nonblock = elim (flock nonblock) [ some e ↦ failed e | none ↦ acquired ]
