-- ===== src/App/Card.antt =====
-- `status` and `card` of `App` (native/smbctl/src/main.rs): the state as the module's card shows it.
-- Of the JSON that `status` builds, the fields that `card` reads and those that ask the system are
-- modelled.
use android_smb_for_ksu.Common.{
  ℕ, Bool, true, false, not, ◌&&◌, List, [], ◌∷◌, ◌++◌, Option, none, some, if◌then◌else◌, map,
  Result, Error, ok, err,
}
use android_smb_for_ksu.Text.{Text, chars, str_eq, starts_with, before_char, lines}
use android_smb_for_ksu.Os.Network.{Address}
use android_smb_for_ksu.App.World.{
  Env, M, pure, ask, try_ask, gets, version, ◌>>=◌, exists, write_file,
}
use android_smb_for_ksu.App.Server.{
  setting, setting_is, load, pids, ready_with, effective, password,
}
use android_smb_for_ksu.App.Conf.{join_blank}

pub record Status : Type 0 where
  pub running : Bool
  pub waiting_storage : Bool
  pub waiting_network : Bool
  pub share_path : Text
  pub addresses : Text
  pub auth_label : Text
  pub version : Text
  pub effective_path : Text
  pub password_set : Bool

abbrev pub waiting_file : Text
waiting_file = chars "waiting_network"

abbrev pub prop_file : Text
prop_file = chars "module.prop"

-- `smb://ip/share/` for each address
unfoldable pub show_addresses : List Address → Text → Text
unfolding before_char join_blank
show_addresses n share =
    join_blank
      (map (λ a. chars "smb://" ++ (before_char a.1 b'/' ++ (b'/' ∷ (share ++ b'/' ∷ [])))) n)

abbrev pub label_for : Bool → Text → Text
label_for true user = chars "Guest / 匿名"
label_for false user = chars "帳號密碼 (" ++ (user ++ b')' ∷ [])

abbrev pub state_for : Bool → Bool → Bool → Text
state_for true storage network = chars "執行中"
state_for false true network = chars "等待使用者解鎖／儲存解密"
state_for false false true = chars "等待區域網路"
state_for false false false = chars "已停止"

unfoldable pub description : Status → Text
description s =
    chars "description=狀態："
    ++ (state_for s.running s.waiting_storage s.waiting_network
        ++ (chars "｜分享："
            ++ (s.share_path ++ (chars "｜位址：" ++ (s.addresses ++ (chars "｜模式：" ++ s.auth_label))))))

-- the lines with the description put in, each with its line feed
unfoldable pub describe : Text → List Text → Text
unfolding starts_with
describe desc [] = []
describe desc (l ∷ ls) =
    (if starts_with l (chars "description=") then desc else l) ++ b'\n' ∷ describe desc ls

-- `lines.join("\n") + "\n"`: of no line, a line feed alone
abbrev pub new_prop : Text → List Text → Text
new_prop desc [] = b'\n' ∷ []
new_prop desc (l ∷ ls) = describe desc (l ∷ ls)

abbrev pub update_prop : Env → Text → Text → M (Unit {0})
update_prop env old new = if str_eq new old then pure tt else write_file env prop_file new

module _ (env : Env) where
  unfoldable pub status : M Status
  status = do
    c ← load env
    n ← try_ask env.network
    ps ← pids env
    running ← ready_with env c n ps
    enabled ← setting_is c (chars "ENABLED") (chars "1")
    path ← setting c (chars "SHARE_PATH")
    unlocked ← ask (λ t. env.storage_ready t path)
    waiting ← exists waiting_file
    share ← setting c (chars "SHARE_NAME")
    guest ← setting_is c (chars "AUTH_MODE") (chars "guest")
    user ← setting c (chars "SMB_USERNAME")
    shown ← version env
    real ← effective env path
    known ← password env
    pure (record {
      running = running;
      waiting_storage = enabled && not unlocked;
      waiting_network = waiting && enabled;
      share_path = path;
      addresses = show_addresses n share;
      auth_label = label_for guest user;
      version = shown;
      effective_path = real;
      password_set = known;
    })

  -- `fs::read_to_string` of module.prop
  unfoldable pub read_prop : Option Text → ℕ → Result Text
  read_prop none t = err Error.io
  read_prop (some s) t = if env.read_ok t then ok s else err Error.io

  unfoldable pub card_file : Status → Option Text → M (Unit {0})
  card_file s none = pure tt
  card_file s (some text) = do
    old ← try_ask (read_prop (some text))
    update_prop env old (new_prop (description s) (lines old))

  unfoldable pub card : M (Unit {0})
  card = do s ← status; file ← gets (λ w. w.files prop_file); card_file s file
