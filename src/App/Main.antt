-- ===== src/App/Main.antt =====
-- `App::new` and `main` (native/smbctl/src/main.rs): the command line, the runtime directories, and the
-- exit status.
pub mod Harmless
pub mod Tests
use android_smb_for_ksu.Common.{
  ℕ, ◌-◌, ◌^◌, Bool, true, false, not, List, [], ◌∷◌, ◌++◌, Option, none, some, if◌then◌else◌, map,
  Result, Error, ok, err, ok_or, reject_if, unwrap_or, ◌>>=◌, ◌>>◌,
}
use android_smb_for_ksu.Text.{Text, chars, str_eq, parse_unsigned}
use android_smb_for_ksu.App.World.{Env, World}
use android_smb_for_ksu.App.Dispatch.{Action, action, Jobs, dispatch}

-- the directories that `App::new` has made, and those whose mode it has set to 0700
pub record Dirs : Type 0 where
  pub made : List Text
  pub closed : List Text

-- What `App::new` asks: the grandparent of the own program's path, with what each `parent` returns; the
-- variable SMBDWEBUI_DATA; whether each call succeeds.
pub record Place : Type 0 where
  pub exe : Result (Option (Option Text))
  pub data_variable : Option Text
  pub make_dir_ok : Text → Bool  -- `fs::create_dir_all`
  pub close_ok : Text → Bool  -- `fs::set_permissions`

pub record App : Type 0 where
  pub module_dir : Text
  pub data_dir : Text
  pub runtime : Text

abbrev pub subdirs : List Text
subdirs =
    chars "log"
    ∷ chars "tmp"
    ∷ chars "lock"
    ∷ chars "state"
    ∷ chars "cache"
    ∷ chars "private"
    ∷ chars "run"
    ∷ chars "ncalrpc"
    ∷ []

abbrev pub join : Text → Text → Text
join dir name = dir ++ b'/' ∷ name

abbrev pub module_of : Result (Option (Option Text)) → Result Text
module_of (err e) = err e
module_of (ok none) = err Error.no_parent
module_of (ok (some none)) = err Error.no_parent
module_of (ok (some (some m))) = ok m

-- the paths for which a call was made in turn, up to the first that failed
unfoldable pub each : (Text → Bool) → List Text → Result (Unit {0}) × List Text
each good [] = (ok tt, [])
each good (p ∷ ps) =
    let (r, done) = each good ps in if good p then (r, p ∷ done) else (err Error.io, [])

unfoldable pub new : Place → Dirs → Result App × Dirs
unfolding each
new place d = elim (module_of place.exe) [
  | err e ↦ (err e, d)
  | ok m ↦
      let data_path = unwrap_or place.data_variable (chars "/data/adb/smbdwebui") in
      let runtime = join data_path (chars "runtime") in
      let made = each place.make_dir_ok (map (λ n. join runtime n) subdirs) in
      let closed =
        each place.close_ok (data_path ∷ runtime ∷ join runtime (chars "private") ∷ []) in
      elim (made.0) [
        | err e ↦ (err e, record { made = made.1 ++ d.made; closed = d.closed })
        | ok u ↦ (
          closed.0 >>= λ v. ok (record { module_dir = m; data_dir = data_path; runtime = runtime }),
          record { made = made.1 ++ d.made; closed = closed.1 ++ d.closed },
        )
      ]
]

-- the arguments of `propwait`: the name, the value, and the timeout in milliseconds, a `u64`
abbrev pub timeout_of : Option Text → Result ℕ
timeout_of none = ok 120000
timeout_of (some t) = ok_or (parse_unsigned (2 ^ 64 - 1) t) Error.invalid_timeout

abbrev pub waits_for : Text → Text → Text → Option Text → Result (Text × Text × ℕ)
waits_for how name value timeout = do
  reject_if (not (str_eq how (chars "equals"))) Error.expected_equals
  t ← timeout_of timeout
  ok (name, value, t)

unfoldable pub propwait : List Text → Result (Text × Text × ℕ)
propwait (how ∷ name ∷ value ∷ []) = waits_for how name value none
propwait (how ∷ name ∷ value ∷ t ∷ []) = waits_for how name value (some t)
propwait args = err Error.usage

-- the command line
pub data Request : Type 0 where
  show_version : Request
  wait_property : List Text → Request
  run : Action → Request

unfoldable pub request : List Text → Request
unfolding action
request [] = run (action (chars "status") [])
request (cmd ∷ args) =
    if str_eq cmd (chars "--version")
    then show_version
    else if str_eq cmd (chars "propwait")
    then wait_property args
    else run (action cmd args)

-- `exit(1)` after an error, else the status is 0
abbrev pub status_of : Result (Unit {0}) → ℕ
status_of (ok u) = 0
status_of (err e) = 1

pub record System : Type 0 where
  pub dirs : Dirs
  pub world : World

-- the rest of the system: `wait` is `storage::wait_equals`, whose steps are those of Storage/WaitEquals
pub record Outside : Type 0 where
  pub place : Place
  pub env : Env
  pub jobs : Jobs
  pub md4 : List ℕ → List ℕ
  pub wait : Text → Text → ℕ → Result (Unit {0})

module _ (out : Outside) where
  -- the program's runtime directory is known once `App::new` has succeeded
  abbrev pub after_new : Action → Result App × Dirs → World → ℕ × System
  after_new a (err e, d) w = (1, record { dirs = d; world = w })
  after_new a (ok app, d) w =
      let (r, w') = dispatch out.env app.runtime out.md4 out.jobs a w in
      (status_of r, record { dirs = d; world = w' })

  -- the exit status, and the state that the run leaves
  unfoldable pub answer : Request → System → ℕ × System
  unfolding new propwait
  answer show_version s = (0, s)
  answer (wait_property args) s = (status_of (propwait args >>= λ p. out.wait p.0 p.1 p.2), s)
  answer (run a) s = after_new a (new out.place s.dirs) s.world

  unfoldable pub main : List Text → System → ℕ × System
  unfolding request answer
  main args s = answer (request args) s
