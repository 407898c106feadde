-- ===== src/App/Control/Auth.antt =====
-- `start` (main.rs) in user mode, before a password is set.
use android_smb_for_ksu.Common.{
  ◌≡◌, refl, ◌∙◌, Bool, true, false, not, ◌&&◌, List, [], Option, none, some, if◌then◌else◌, Error,
  ok, unwrap_or, ltb, length,
}
use android_smb_for_ksu.Text.{Text, chars, str_eq, lines, lines_from}
use android_smb_for_ksu.Config.Map
use android_smb_for_ksu.Config.Map.{Config}
use android_smb_for_ksu.Os.Interfaces.{interfaces}
use android_smb_for_ksu.App.World.{
  Read, Env, World, pure, raise, lift, try_ask, ◌>>=◌, ◌>>◌, fail_if, read_or_empty, write_file,
}
use android_smb_for_ksu.App.Rules.{
  IsTimeless, Keeps, Ensures, Keeps-fails, Ensures-bind, Ensures-lift, Ensures-both, Keeps-Ensures,
  keeps_rules,
}
use android_smb_for_ksu.App.Frame.{
  IsFramed, write_file-Keeps, password-Keeps, halt-Keeps, card-Keeps, prepare_logs-Keeps,
  ready-Keeps, check_helpers-Keeps,
}
use android_smb_for_ksu.App.Server.{config_file, passwd_file, halt, save, password, has_root_line}
use android_smb_for_ksu.App.Card.{card}
use android_smb_for_ksu.App.Conf.{conf_ifaces, conf}
use android_smb_for_ksu.App.Control.{prepare_logs, launch, defer, relaunch, start_unlocked, start}

-- whether private/smbpasswd has a line for the user of the server
abbrev pub has_password : Env → Option Text → Bool
has_password env none = false
has_password env (some s) = has_root_line env s

-- the launches so far are `past`, and no password is set
abbrev pub IsUnset : Env → List Read → World → Type 0
IsUnset env past w = (w.launches ≡ past) × (has_password env (w.files passwd_file) ≡ false)

module _ (env : Env) (past : List Read) where
  Unset-IsFramed : IsFramed (λ p. str_eq p passwd_file) (IsUnset env past)
  Unset-IsFramed = record {
    timeless = λ w x t h. h;
    exits = λ w p h. h;
    writes = λ w p v other h. rw (other) h;
  }

  timeless : IsTimeless (IsUnset env past)
  timeless = Unset-IsFramed.timeless

  save-IsUnset : (c : Config) → Keeps (IsUnset env past) (save env c)
  unfolding save str_eq
  save-IsUnset c =
      let write : (s : Text) → Keeps (IsUnset env past) (write_file env config_file s) =
        λ s. write_file-Keeps Unset-IsFramed env config_file s refl in
      search (keeps_rules, write) depth 20

  read-has_password :
      (readable : Bool) (file : Option Text)
      → has_password env file ≡ false
      → has_root_line env (if readable then unwrap_or file [] else []) ≡ false
  unfolding has_root_line lines lines_from
  read-has_password true (some s) h = h
  read-has_password true none h = refl
  read-has_password false file h = refl

  password-IsUnset :
      Ensures (IsUnset env past) (password env) (λ known w. IsUnset env past w × (known ≡ false))
  unfolding password read_or_empty ◌>>=◌ pure
  password-IsUnset = record {
    post = λ w h. (h, read-has_password (env.read_ok w.now) (w.files passwd_file) h.1);
  }

  password-kept : Keeps (IsUnset env past) (password env)
  password-kept = password-Keeps Unset-IsFramed env

  halt-kept : Keeps (IsUnset env past) (halt env)
  halt-kept = halt-Keeps Unset-IsFramed env

  card-IsUnset : Keeps (IsUnset env past) (card env)
  unfolding str_eq
  card-IsUnset = card-Keeps Unset-IsFramed env refl

  module _ (runtime : Text) where
    prepare_logs-IsUnset : Keeps (IsUnset env past) (prepare_logs env runtime)
    prepare_logs-IsUnset = prepare_logs-Keeps Unset-IsFramed env runtime

    defer-IsUnset : (c : Config) → Keeps (IsUnset env past) (defer env runtime c)
    unfolding defer
    defer-IsUnset c = search (keeps_rules, halt-kept, save-IsUnset, card-IsUnset) depth 20

    module _ (c : Config) (user : Map.value c (chars "AUTH_MODE") ≡ chars "user") where
      refused :
          (auth : Text) (known : Bool)
          → auth ≡ chars "user"
          → known ≡ false
          → Ensures
              (IsUnset env past)
              (fail_if (str_eq auth (chars "user") && not known) Error.auth_password_required)
              (λ u w. ⊥)
      unfolding str_eq raise
      refused auth known e f = rw (e, f) (record { post = λ w h. tt })

      asks_password :
          (ifaces : List Text) (auth : Text)
          → auth ≡ chars "user"
          → Ensures
              (IsUnset env past)
              (password env >>= λ known.
                fail_if (str_eq auth (chars "user") && not known) Error.auth_password_required
                >> pure ifaces)
              (λ i w. ⊥)
      asks_password ifaces auth e =
          Ensures-bind (λ known w. IsUnset env past w × (known ≡ false)) (password env) _
            password-IsUnset
            (λ known.
              Ensures-bind (λ u w. ⊥) _ _
                (record { post = λ w h. (refused auth known e h.1).post w h.0 })
                (λ u. record { post = λ w h. absurd h }))

      conf_ifaces-fails :
          Keeps (IsUnset env past) (conf_ifaces env runtime c)
          × Ensures (IsUnset env past) (conf_ifaces env runtime c) (λ i w. ⊥)
      unfolding conf_ifaces
      conf_ifaces-fails = (
        search (keeps_rules, timeless, password-kept) depth 30,
        Ensures-bind (λ n. IsUnset env past) (try_ask env.network) _
            (Keeps-Ensures (search (keeps_rules, timeless)))
            (λ n.
              Ensures-bind (λ is. IsUnset env past) (lift (interfaces c n)) _
                (Keeps-Ensures (search (keeps_rules)))
                (λ is.
                  Ensures-bind (λ u. IsUnset env past)
                    (fail_if (ltb (length is) 2) Error.no_trusted_lan) _
                    (Keeps-Ensures (search (keeps_rules)))
                    (λ u.
                      Ensures-bind
                        (λ auth w. IsUnset env past w × (Map.index c (chars "AUTH_MODE") ≡ ok auth))
                        (lift (Map.index c (chars "AUTH_MODE"))) _
                        (Ensures-both (λ auth w. Map.index c (chars "AUTH_MODE") ≡ ok auth) _
                          (search (keeps_rules)) (Ensures-lift _))
                        (λ auth. record {
                          post = λ w h.
                              (asks_password is auth
                                  (Map.index-value c (chars "AUTH_MODE") h.1 ∙ user)).post
                                w h.0;
                        })))),
      )

      conf-fails :
          Keeps (IsUnset env past) (conf env runtime c)
          × Ensures (IsUnset env past) (conf env runtime c) (λ u w. ⊥)
      unfolding conf
      conf-fails = Keeps-fails (conf_ifaces env runtime c) _ conf_ifaces-fails.0 conf_ifaces-fails.1

      launch-IsUnset : Keeps (IsUnset env past) (launch env runtime c)
      unfolding launch
      launch-IsUnset = (Keeps-fails (conf env runtime c) _ conf-fails.0 conf-fails.1).0

      relaunch-IsUnset : Keeps (IsUnset env past) (relaunch env runtime c)
      unfolding relaunch
      relaunch-IsUnset = search (keeps_rules, halt-kept, launch-IsUnset)

      start_unlocked-IsUnset : Keeps (IsUnset env past) (start_unlocked env runtime c)
      unfolding start_unlocked
      start_unlocked-IsUnset =
          let found = ready-Keeps Unset-IsFramed env in
          search (keeps_rules, found, relaunch-IsUnset) depth 10

      start-IsUnset : Keeps (IsUnset env past) (start env runtime c)
      unfolding start
      start-IsUnset =
          let checked = check_helpers-Keeps Unset-IsFramed env runtime in
          search
            (
              keeps_rules, timeless, prepare_logs-IsUnset, checked, defer-IsUnset,
              start_unlocked-IsUnset,
            )
            depth 30

-- In user mode, while no line of private/smbpasswd begins with `root:0:`, `start` does not launch smbd,
-- whatever it returns.
pub start-launches :
    (env : Env) (runtime : Text) (c : Config) (w : World)
    → Map.value c (chars "AUTH_MODE") ≡ chars "user"
    → has_password env (w.files passwd_file) ≡ false
    → (start env runtime c w).1.launches ≡ w.launches
start-launches env runtime c w user unset =
    ((start-IsUnset env w.launches runtime c user).at w (refl, unset)).0
