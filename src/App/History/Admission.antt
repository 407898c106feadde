-- ===== src/App/History/Admission.antt =====
-- What `conf_ifaces` of main.rs has found when it succeeds: a trusted network, and a password where one is
-- needed.
use android_smb_for_ksu.Common.{
  if◌then◌else◌, unwrap_or, any, List, [], Option, none, some, ◌∙◌, arith, ◌&&◌, ℕ, ◌≡◌, refl, Bool,
  true, false, not, inl, inr, ok, Error, length, ltb, ltb→le, Result-cases,
}
use android_smb_for_ksu.Text.{
  Text, chars, str_eq, starts_with, lines, lines_from, split, trim_end_matches,
}
use android_smb_for_ksu.Text.Lemmas.{str_eq_iff}
use android_smb_for_ksu.Config.Map
use android_smb_for_ksu.Config.Map.{Config}
use android_smb_for_ksu.Os.Interfaces.{interfaces}
use android_smb_for_ksu.App.World.{
  Read, read_or_empty, ◌>>=◌, ◌>>◌, Env, pure, raise, lift, try_ask, fail_if,
}
use android_smb_for_ksu.App.Rules.{Ensures, Ensures-bind, Ensures-pure}
use android_smb_for_ksu.App.Steps.{Ensures-given, lift-given}
use android_smb_for_ksu.App.Server.{passwd_file, has_root_line, setting, password}
use android_smb_for_ksu.App.Conf.{conf_file, conf_ifaces}
use android_smb_for_ksu.App.History.{AreTrusted, IsAdmitted, IsSoundWith, IsSound, Anything}

module _ (env : Env) (runtime : Text) where
  network-given :
      Ensures
        (IsSound env runtime)
        (try_ask env.network)
        (λ n w. IsSound env runtime w × ((t : ℕ) × (env.network t ≡ ok n)))
  unfolding try_ask
  network-given = record {
    post = λ w h. elim (Result-cases (env.network w.now)) [
      | inl (n, e) ↦ rw e (record { loads = h.loads; made = h.made; known = h.known }, (w.now, e))
      | inr (x, e) ↦ rw e tt
    ];
  }

  fail_if-given :
      (X : Read → Type 0) (b : Bool) (e : Error)
      → Ensures
          (IsSoundWith env runtime X)
          (fail_if b e)
          (λ u w. IsSoundWith env runtime X w × (b ≡ false))
  unfolding pure raise
  fail_if-given X true e = record { post = λ w h. tt }
  fail_if-given X false e = record { post = λ w h. (h, refl) }

  -- a line of the file begins with `root:0:`
  abbrev HasRoot : Option Text → Type 0
  HasRoot file =
      (s : Text) × (file ≡ some s) × (any (λ l. starts_with l (chars "root:0:")) (lines s) ≡ true)

  -- what `password` has read
  abbrev Answered : Bool → Read → Type 0
  Answered known read = known ≡ true → HasRoot read.1

  read-HasRoot :
      (reads : Bool) (file : Option Text)
      → has_root_line env (if reads then unwrap_or file [] else []) ≡ true
      → HasRoot file
  unfolding has_root_line lines lines_from split trim_end_matches
  read-HasRoot true (some s) h = (s, refl, h)
  read-HasRoot true none h = cc
  read-HasRoot false file h = cc

  password-Answered :
      Ensures
        (IsSound env runtime)
        (password env)
        (λ known. IsSoundWith env runtime (Answered known))
  unfolding password read_or_empty ◌>>=◌ pure
  password-Answered = record {
    post = λ w h. record {
      loads = h.loads;
      made = h.made;
      known = read-HasRoot (env.read_ok w.now) (w.files passwd_file);
    };
  }

  -- what is known of the password file from then on
  abbrev pub Admitted : Config → Read → Type 0
  Admitted c read = IsAdmitted c read.1

  admitted :
      (c : Config) (auth : Text) (known : Bool)
      → Map.index c (chars "AUTH_MODE") ≡ ok auth
      → (str_eq auth (chars "user") && not known) ≡ false
      → (read : Read) → Answered known read
      → Admitted c read
  admitted c auth known named allowed read answered user =
      let same : auth ≡ chars "user" = Map.index-value c (chars "AUTH_MODE") named ∙ user in
      let in_user_mode : str_eq auth (chars "user") ≡ true =
        (str_eq_iff auth (chars "user")).1 same in
      answered (ground arith)

  -- the end of `conf_ifaces`
  ask_password-Ensures :
      (c : Config) (ifaces : List Text) (auth : Text)
      → Map.index c (chars "AUTH_MODE") ≡ ok auth
      → AreTrusted env c ifaces
      → Ensures
          (IsSound env runtime)
          (password env >>= λ known.
            fail_if (str_eq auth (chars "user") && not known) Error.auth_password_required
            >> pure ifaces)
          (λ is w. IsSoundWith env runtime (Admitted c) w × AreTrusted env c is)
  ask_password-Ensures c ifaces auth named trusted =
      Ensures-bind (λ known. IsSoundWith env runtime (Answered known)) (password env) _
        password-Answered
        (λ known.
          Ensures-bind
            (λ u w.
              IsSoundWith env runtime (Answered known) w
              × ((str_eq auth (chars "user") && not known) ≡ false))
            (fail_if _ _) _
            (fail_if-given (Answered known) (str_eq auth (chars "user") && not known)
              Error.auth_password_required)
            (λ u. Ensures-pure ifaces (λ w h. (
              record {
                loads = h.0.loads;
                made = h.0.made;
                known =
                    admitted c auth known named h.1 (w.files conf_file, w.files passwd_file)
                      h.0.known;
              },
              trusted,
            ))))

  pub conf_ifaces-Ensures :
      (c : Config)
      → Ensures
          (IsSound env runtime)
          (conf_ifaces env runtime c)
          (λ ifaces w. IsSoundWith env runtime (Admitted c) w × AreTrusted env c ifaces)
  unfolding conf_ifaces
  conf_ifaces-Ensures c =
      Ensures-given (λ n. (t : ℕ) × (env.network t ≡ ok n)) (try_ask env.network) _ network-given
        (λ n asked.
          Ensures-given (λ ifaces. interfaces c n ≡ ok ifaces) (lift (interfaces c n)) _
            (lift-given (interfaces c n))
            (λ ifaces chosen.
              Ensures-given (λ u. ltb (length ifaces) 2 ≡ false) (fail_if _ _) _
                (fail_if-given Anything (ltb (length ifaces) 2) Error.no_trusted_lan)
                (λ u enough.
                  Ensures-given (λ auth. Map.index c (chars "AUTH_MODE") ≡ ok auth)
                    (setting c (chars "AUTH_MODE")) _ (lift-given _)
                    (λ auth named.
                      ask_password-Ensures c ifaces auth named
                        (asked.0, n, asked.1, chosen, ltb→le _ _ enough)))))
