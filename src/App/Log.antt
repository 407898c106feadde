-- ===== src/App/Log.antt =====
-- `log` of `App` (native/smbctl/src/main.rs): the module's own log, with one older file beside it.
pub mod Bounded
use android_smb_for_ksu.Common.{
  ℕ, ◌+◌, Bool, ◌&&◌, ◌||◌, List, [], ◌∷◌, ◌++◌, Option, none, some, false, ltb, ◌==◌,
  if◌then◌else◌, map, take, unwrap_or,
}
use android_smb_for_ksu.Text.{Text, chars, byte_len}
use android_smb_for_ksu.Storage.Decimal.{show_from}

-- log/module.log and log/module.log.1
pub record Logs : Type 0 where
  pub current : Option Text
  pub older : Option Text

-- what the system answers; `written` is how much of the line reaches the file, all of it if no write
-- fails
pub record Answers : Type 0 where
  pub metadata : Bool
  pub rename : Bool
  pub opened : Bool
  pub written : ℕ
  pub seconds : Option ℕ  -- since the epoch, `none` before it

abbrev pub max_log_bytes : ℕ
max_log_bytes = 1048576

-- `replace(['\n', '\r'], " ")`
unfoldable pub one_line : Text → Text
one_line s = map (λ c. if c == b'\n' || c == b'\r' then b' ' else c) s

unfoldable pub log_line : Option ℕ → ℕ → Text → Text
unfolding one_line show_from
log_line seconds pid s =
    show_from 20 (unwrap_or seconds 0)
    ++ (chars " component=smbctl pid=" ++ (show_from 10 pid ++ (b' ' ∷ (one_line s ++ b'\n' ∷ []))))

abbrev pub is_big : Answers → Option Text → Bool
is_big a none = false
is_big a (some t) = a.metadata && ltb max_log_bytes (byte_len t)

abbrev pub append : Answers → Text → Logs → Logs
append a line d =
    if a.opened
    then record d { current = some (unwrap_or d.current [] ++ take a.written line) }
    else d

unfoldable pub log : ℕ → Answers → Text → Logs → Logs
unfolding log_line byte_len
log pid a s d =
    append a (log_line a.seconds pid s)
      (if is_big a d.current && a.rename then record { current = none; older = d.current } else d)
