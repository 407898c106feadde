-- ===== src/App/Queries.antt =====
-- The commands of `App::dispatch` (native/smbctl/src/main.rs) that only print, but for `status` in its
-- three forms. The result is the lines that they print.
pub mod ReadOnly
use android_smb_for_ksu.Common.{
  ℕ, ◌-◌, Bool, true, false, not, List, [], ◌∷◌, ◌++◌, map, drop, length, if◌then◌else◌, Error,
}
use android_smb_for_ksu.Text.{Text, chars, lines}
use android_smb_for_ksu.Config.Map
use android_smb_for_ksu.Config.Map.{Config}
use android_smb_for_ksu.Os.Network.{Address, key}
use android_smb_for_ksu.App.World.{Env, M, pure, ask, try_ask, ◌>>=◌, ◌>>◌, fail_if, read_or_empty}
use android_smb_for_ksu.App.Server.{load, password, ready}

pub data Query : Type 0 where
  get_config is_running interface_key trusted_lan show_conf show_log selfcheck : Query

abbrev pub flag : Bool → Text
flag true = chars "1"
flag false = chars "0"

-- the last 250 lines
unfoldable pub tail : Text → List Text
tail s = let all = lines s in drop (length all - 250) all

abbrev pub header : Text → Text
header name = chars "===== " ++ (name ++ chars " =====")

abbrev pub log_names : List Text
log_names = chars "module.log" ∷ chars "smbd.log" ∷ chars "log.smbd" ∷ chars "smbd.stderr.log" ∷ []

-- `App::selfcheck`, before the command's own line
unfoldable pub check : Env → M (Unit {0})
check env = do
  load env
  try_ask env.pidfd_open
  try_ask env.pidfd_signal
  try_ask env.netlink
  try_ask env.inotify

module _ (env : Env) where
  unfoldable pub show_logs : List Text → M (List Text)
  unfolding tail
  show_logs [] = pure []
  show_logs (name ∷ names) = do
    s ← ask (λ t. env.log_text t name)
    rest ← show_logs names
    pure (header name ∷ (tail s ++ rest))

  unfoldable pub answer : Query → M (List Text)
  unfolding show_logs
  answer get_config = do
    c ← load env
    known ← password env
    pure (env.to_json (Map.insert (chars "PASSWORD_SET") (flag known) c) ∷ [])
  answer is_running = do
    c ← load env
    there ← ready env c
    fail_if (not there) Error.not_ready
    pure []
  answer interface_key = do n ← try_ask env.network; pure (key n ∷ [])
  answer trusted_lan = do n ← try_ask env.network; pure (map (λ a. a.0 ++ b' ' ∷ a.1) n)
  answer show_conf = do s ← read_or_empty env (chars "smb.conf"); pure (s ∷ [])
  answer show_log = show_logs log_names
  answer selfcheck = do check env; pure (chars "OK pidfd/rtnetlink/inotify" ∷ [])
