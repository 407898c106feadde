-- ===== src/App/World.antt =====
-- The state that `App` (native/smbctl/src/main.rs) works on, and its system calls. What the system
-- answers is the environment's choice, at every call anew: each call reads its answer at the time
-- `now` and moves the time on.
use android_smb_for_ksu.Common.{
  ◌≡◌, refl, ℕ, ◌+◌, Bool, true, false, List, [], ◌∷◌, Option, none, some, if◌then◌else◌, Result,
  Error, ok, err, unwrap_or, is_some,
}
use android_smb_for_ksu.Text.{Text, chars, str_eq}
use android_smb_for_ksu.Config.Map.{Config}
use android_smb_for_ksu.Logs.Disk.{Disk, absent, not_dir, dir}
use android_smb_for_ksu.Logs.Prepare.{Sys, add_file}
use android_smb_for_ksu.App.Version
use android_smb_for_ksu.Os.Network.{Address}
use android_smb_for_ksu.Os.Sockets.{Socket}

-- a process of one of the module's server programs
pub record Server : Type 0 where
  pub pid : ℕ
  pub exe : Text

-- `Command::status` of smbd -D: whether it could be run, whether it exited with success, and the
-- processes that it left behind
pub record Launch : Type 0 where
  pub spawned : Bool
  pub success : Bool
  pub started : List Server

pub record Env : Type 0 where
  pub network : ℕ → Result (List Address)  -- `os::network`
  pub processes_ok : ℕ → Bool  -- `os::processes` can read the process table
  pub seen : ℕ → Server → Bool  -- it finds a process that is there; one that changes meanwhile is skipped
  pub alive : ℕ → Server → Bool  -- whether a process is still there; a process may exit by itself
  pub terminate_ok : ℕ → Bool  -- `os::terminate`
  pub survives : ℕ → Server → Bool  -- which processes are left if it fails
  pub sockets : ℕ → List Server → List Socket  -- `os::sockets`
  pub storage_ready : ℕ → Text → Bool  -- `storage::ready`
  pub is_dir : ℕ → Text → Bool
  pub make_dir_ok : ℕ → Bool  -- `fs::create_dir_all`
  pub read_ok : ℕ → Bool  -- reading a file that is there
  pub write_ok : ℕ → Bool  -- `config::atomic`
  pub write_lands : ℕ → Bool  -- whether a failed `config::atomic` has replaced the file all the same
  pub remove_ok : ℕ → Bool  -- `fs::remove_file`
  pub helper : ℕ → Text → Result Bool  -- `metadata` of a server program: a file with an x bit
  pub open_ok : ℕ → Bool  -- opening a log file to append to it
  pub launch : ℕ → Launch
  pub rounds : ℕ → ℕ  -- how often `start` polls before its deadline has passed
  pub poll_ok : ℕ → Bool
  pub boot_id : ℕ → Result Text  -- `logs::boot_id`
  pub boots : List Text  -- the boots so far, which no call answers, for what is said of the log files
  pub reads_marker : ℕ → Bool  -- in `logs::changed`
  pub logs : ℕ → Sys  -- in `logs::prepare`
  pub log_text : ℕ → Text → Text  -- what is read of a log file, nothing if it cannot be read
  pub version : ℕ → Version.Answers
  pub seconds : ℕ → Result ℕ  -- the time since the epoch
  pub pidfd_open : ℕ → Result (Unit {0})  -- of the own process
  pub pidfd_signal : ℕ → Result (Unit {0})  -- the signal 0 to it
  pub netlink : ℕ → Result (Unit {0})  -- `os::netlink`
  pub inotify : ℕ → Result (Unit {0})  -- `os::inotify`
  pub wait_boot : ℕ → Result (Unit {0})  -- `App::wait_boot`
  pub to_json : Config → Text  -- `serde_json::to_string`

-- The logs and the cache: log, log-history and the stamp beside them, as they stand for `logs::prepare`;
-- cache/smbd-rust-version; and the lines that were handed to `App::log`, the last one first, of which
-- App/Log says what becomes of them.
pub record Records : Type 0 where
  pub disk : Disk
  pub version : Option Text
  pub lines : List Text

-- what smbd reads: smb.conf and private/smbpasswd
abbrev pub Read : Type 0
Read = Option Text × Option Text

-- The files, under the runtime directory but for config.conf and module.prop, without those of the
-- records, and the server processes. `launches` is a record of the launches of smbd: what each one read.
pub record World : Type 0 where
  pub files : Text → Option Text
  pub servers : List Server
  pub launches : List Read
  pub records : Records
  pub now : ℕ

abbrev pub M {ℓ} : Type ℓ → Type ℓ
M A = World → Result A × World

module _ {ℓ} {A : Type ℓ} where
  unfoldable pub pure : A → M A
  pure a w = (ok a, w)

  unfoldable pub raise : Error → M A
  raise e w = (err e, w)

  unfoldable pub lift : Result A → M A
  lift r w = (r, w)

  -- a system call
  unfoldable pub ask : (ℕ → A) → M A
  ask f w = (ok (f w.now), record w { now = w.now + 1 })

  unfoldable pub try_ask : (ℕ → Result A) → M A
  try_ask f w = (f w.now, record w { now = w.now + 1 })

  -- a system call on the records
  unfoldable pub recorded : (ℕ → Records → Result A × Records) → M A
  recorded f w = let (r, x) = f w.now w.records in (r, record w { records = x; now = w.now + 1 })

  unfoldable pub gets : (World → A) → M A
  gets f w = (ok (f w), w)

module _ {ℓ κ} {A : Type ℓ} {B : Type κ} where
  abbrev pub continue : Result A → (A → World → Result B × World) → World → Result B × World
  continue (ok a) f w = f a w
  continue (err e) f w = (err e, w)

  infixl 5 ◌>>=◌
  unfoldable pub ◌>>=◌ :
      (World → Result A × World) → (A → World → Result B × World) → World → Result B × World
  ◌>>=◌ m f w = let (r, w') = m w in continue r f w'

infixl 5 ◌>>◌
abbrev pub ◌>>◌ {ℓ κ} : {A : Type ℓ} {B : Type κ} → M A → M B → M B
m >> k = m >>= λ _. k

-- `if test { return Err(e) }`
abbrev pub fail_if : Bool → Error → M (Unit {0})
fail_if true e = raise e
fail_if false e = pure tt

-- `if test { m }`
abbrev pub when : Bool → M (Unit {0}) → M (Unit {0})
when true m = m
when false m = pure tt

-- a write or a removal of one file
abbrev pub set_file : (Text → Option Text) → Text → Option Text → Text → Option Text
set_file files p v q = if str_eq p q then v else files q

-- a write that may have taken place
abbrev pub set_if : Bool → Text → Text → (Text → Option Text) → Text → Option Text
set_if true p s files = set_file files p (some s)
set_if false p s files = files

pub set_if-other :
    (lands : Bool) (p s : Text) (files : Text → Option Text) (q : Text)
    → str_eq p q ≡ false
    → set_if lands p s files q ≡ files q
set_if-other true p s files q other = rw other refl
set_if-other false p s files q other = refl

unfoldable pub exists : Text → M Bool
exists p w = (ok (is_some (w.files p)), w)

module _ (env : Env) where
  -- `fs::read_to_string(p).unwrap_or_default()`
  unfoldable pub read_or_empty : Text → M Text
  read_or_empty p w = (
    ok (if env.read_ok w.now then unwrap_or (w.files p) [] else []),
    record w { now = w.now + 1 },
  )

  -- `config::atomic` (Config/Atomic): the file is replaced as a whole, or not at all; an error of the
  -- last sync leaves it replaced
  unfoldable pub write_file : Text → Text → M (Unit {0})
  write_file p s w =
      if env.write_ok w.now
      then (ok tt, record w { files = set_file w.files p (some s); now = w.now + 1 })
      else (
        err Error.io,
        record w { files = set_if (env.write_lands w.now) p s w.files; now = w.now + 1 },
      )

  -- `let _ = fs::remove_file(p)`
  unfoldable pub remove_file : Text → M (Unit {0})
  remove_file p w =
      if env.remove_ok w.now
      then (ok tt, record w { files = set_file w.files p none; now = w.now + 1 })
      else (ok tt, record w { now = w.now + 1 })

-- A file of the log directory is there to append to, if it can be opened; the directory is not made.
abbrev pub with_file : Bool → Text → List Text → Disk → Disk
with_file false name boots d = d
with_file true name boots d = elim d.log [
  | absent ↦ d
  | not_dir ↦ d
  | dir x ↦ add_file name boots d
]

module _ (env : Env) where
  -- `App::log`, which ignores its errors
  abbrev pub log_line : Text → ℕ → Records → Result (Unit {0}) × Records
  log_line s t x = (
    ok tt,
    record x {
      lines = s ∷ x.lines;
      disk = with_file (env.open_ok t) (chars "module.log") env.boots x.disk;
    },
  )

  unfoldable pub log : Text → M (Unit {0})
  log s = recorded (log_line s)

  -- `OpenOptions::new().create(true).append(true).open` of a log file
  abbrev pub opened : Text → ℕ → Records → Result (Unit {0}) × Records
  opened name t x = (
    if env.open_ok t then ok tt else err Error.io,
    record x { disk = with_file (env.open_ok t) name env.boots x.disk },
  )

  unfoldable pub open_log : Text → M (Unit {0})
  open_log name = recorded (opened name)

  -- `App::version`
  unfoldable pub version : M Text
  version = recorded (λ t x.
      let (v, file) = Version.version (env.version t) x.version in
      (ok v, record x { version = file }))
