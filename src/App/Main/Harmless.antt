-- ===== src/App/Main/Harmless.antt =====
-- The command lines of smbctl (main.rs) that leave the state as it is.
use android_smb_for_ksu.Common.{ℕ, ◌≡◌, ◌≢◌, ◌⊎◌, Bool, true, false, List, [], Option}
use android_smb_for_ksu.Text.{Text}
use android_smb_for_ksu.Os.Lock.{acquired}
use android_smb_for_ksu.App.World.{Read, Env, World}
use android_smb_for_ksu.App.Queries.ReadOnly.{IsAsBefore}
use android_smb_for_ksu.App.Dispatch.{
  Action, change, print, retire, show_status, prepare, boot, refresh_card, unknown, Jobs,
}
use android_smb_for_ksu.App.Main.{App, Request, run, System}
use android_smb_for_ksu.App.Main

-- the commands that only print, and those that are refused for their name or a missing argument
abbrev pub is_quiet : Action → Bool
is_quiet (print q) = true
is_quiet show_status = true
is_quiet (retire []) = true
is_quiet (unknown cmd) = true
is_quiet a = false

-- the commands that take control.lock before they change anything
abbrev pub is_locked : Action → Bool
is_locked (change cmd) = true
is_locked prepare = true
is_locked boot = true
is_locked refresh_card = true
is_locked a = false

abbrev pub IsHarmless : Jobs → Action → Type 0
IsHarmless jobs a =
    (is_quiet a ≡ true) ⊎ ((is_locked a ≡ true) × ((t : ℕ) → jobs.lock t ≢ acquired))

module _ (env : Env) (runtime : Text) (md4 : List ℕ → List ℕ) (jobs : Jobs)
    (files : Text → Option Text) (launches : List Read) where
  abbrev Before : World → Type 0
  Before = IsAsBefore files launches

abbrev pub AsksNothing : Jobs → Request → Type 0
AsksNothing jobs (run a) = IsHarmless jobs a
AsksNothing jobs r = Unit

-- `propwait` and `--version` leave all as it is; a command leaves the files and the servers launched
abbrev pub IsKept : Request → System → System → Type 0
IsKept (run a) s t = (t.world.files ≡ s.world.files) × (t.world.launches ≡ s.world.launches)
IsKept r s t = t ≡ s
