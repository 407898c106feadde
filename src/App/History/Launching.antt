-- ===== src/App/History/Launching.antt =====
-- The invariant of App/History over `conf` and `start` of main.rs: smbd reads what `conf` has written.
use android_smb_for_ksu.Common.{◌≡◌, refl, not, List, some, inl, inr, Bool-cases, ok, Error}
use android_smb_for_ksu.Text.{Text, chars, str_eq}
use android_smb_for_ksu.Config.Map
use android_smb_for_ksu.Config.Map.{Config}
use android_smb_for_ksu.App.World.{◌>>=◌, ◌>>◌, Read, Env, World, lift, ask, fail_if, write_file}
use android_smb_for_ksu.App.Rules.{
  Keeps, Ensures, Ensures-both, Ensures-bind, Ensures-weaken, Keeps-Ensures, Keeps-ask,
  Keeps-fail_if, keeps_rules,
}
use android_smb_for_ksu.App.Steps.{Ensures-then, Ensures-given, Ensures-ran, lift-given}
use android_smb_for_ksu.App.Frame.{write_file-Keeps, effective-Keeps}
use android_smb_for_ksu.App.Template.{expand}
use android_smb_for_ksu.App.Server.{setting, effective}
use android_smb_for_ksu.App.Conf.{
  conf_file, conf_ifaces, conf, usermap, settings, values, template_for,
}
use android_smb_for_ksu.App.History.{
  IsAccepted, IsUnlocked, AreTrusted, AreOf, IsShared, IsMade, IsSoundWith, IsSound,
}
use android_smb_for_ksu.App.History.Saving.{Sound-IsFramed}
use android_smb_for_ksu.App.History.Admission.{Admitted, conf_ifaces-Ensures}

module _ (env : Env) (runtime : Text) (X : Read → Type 0) where
  pub usermap-Keeps : (c : Config) → Keeps (IsSoundWith env runtime X) (usermap env runtime c)
  unfolding usermap str_eq
  usermap-Keeps c =
      let write : (s : Text)
          → Keeps (IsSoundWith env runtime X) (write_file env (chars "private/username.map") s) =
        λ s. write_file-Keeps (Sound-IsFramed env runtime X) env _ s refl in
      search (keeps_rules, write)

module _ (env : Env) (runtime : Text) where
  abbrev pub Known : World → Type 0
  Known = IsSoundWith env runtime (IsMade env runtime)

  pub settings-Keeps :
      (X : Read → Type 0) (c : Config) (ifaces : List Text) (path : Text)
      → Keeps (IsSoundWith env runtime X) (settings c ifaces runtime path)
  unfolding settings
  settings-Keeps X c ifaces path = search keeps_rules depth 40

  settings-given :
      (X : Read → Type 0) (c : Config) (ifaces : List Text) (path : Text)
      → Ensures
          (IsSoundWith env runtime X)
          (settings c ifaces runtime path)
          (λ s w. IsSoundWith env runtime X w × AreOf c ifaces runtime path s)
  settings-given X c ifaces path =
      Ensures-both (λ s w. AreOf c ifaces runtime path s) _ (settings-Keeps X c ifaces path)
        (Ensures-weaken _ _ _ (Ensures-ran (settings c ifaces runtime path))
          (λ s w run. (run.0, w, run.2)))

  effective-given :
      (X : Read → Type 0) (c : Config) (path : Text)
      → Map.index c (chars "SHARE_PATH") ≡ ok path
      → Ensures
          (IsSoundWith env runtime X)
          (effective env path)
          (λ share_path w. IsSoundWith env runtime X w × IsShared env c share_path)
  effective-given X c path named =
      Ensures-both (λ share_path w. IsShared env c share_path) _
        (effective-Keeps (Sound-IsFramed env runtime X) env path)
        (Ensures-weaken _ _ _ (Ensures-ran (effective env path))
          (λ share_path w run. (path, run.0, w, named, run.2)))

  pub write_conf-Keeps : (s : Text) → Keeps (IsSound env runtime) (write_file env conf_file s)
  unfolding write_file str_eq
  write_conf-Keeps s = record {
    at = λ w h. elim (Bool-cases (env.write_ok w.now)) [
      | inl there ↦ rw (there) (record { loads = h.loads; made = h.made; known = h.known })
      | inr left ↦ elim (Bool-cases (env.write_lands w.now)) [
        | inl lands ↦ rw (left, lands) (record { loads = h.loads; made = h.made; known = h.known })
        | inr lost ↦ rw (left, lost) (record { loads = h.loads; made = h.made; known = h.known })
      ]
    ];
  }

  write_conf-Ensures :
      (X : Read → Type 0) (s : Text)
      → ((read : Read) → X read → IsMade env runtime (some s, read.1))
      → Ensures (IsSoundWith env runtime X) (write_file env conf_file s) (λ u. Known)
  unfolding write_file str_eq
  write_conf-Ensures X s made = record {
    post = λ w h. elim (Bool-cases (env.write_ok w.now)) [
      | inl there ↦ rw (there) (record { loads = h.loads; made = h.made; known = made _ h.known })
      | inr left ↦ rw (left) tt
    ];
  }

  pub write_mode-Keeps :
      (X : Read → Type 0) (s : Text)
      → Keeps (IsSoundWith env runtime X) (write_file env (chars "auth_mode") s)
  unfolding str_eq
  write_mode-Keeps X s = write_file-Keeps (Sound-IsFramed env runtime X) env _ s refl

  module _ (c : Config) (accepted : IsAccepted c) (unlocked : IsUnlocked env c) where
    pub conf-Ensures : Ensures (IsSound env runtime) (conf env runtime c) (λ u. Known)
    unfolding conf
    conf-Ensures =
        let f = Sound-IsFramed env runtime (Admitted env runtime c) in
        let P = IsSoundWith env runtime (Admitted env runtime c) in
        Ensures-bind (λ ifaces w. P w × AreTrusted env c ifaces) (conf_ifaces env runtime c) _
          (conf_ifaces-Ensures env runtime c)
          (λ ifaces. record { post = λ w h. (written ifaces h.1).post w h.0 })
      where
        written :
            (ifaces : List Text)
            → AreTrusted env c ifaces
            → Ensures
                (IsSoundWith env runtime (Admitted env runtime c))
                (do
                  usermap env runtime c
                  path ← setting c (chars "SHARE_PATH")
                  share_path ← effective env path
                  made ← ask env.make_dir_ok
                  fail_if (not made) Error.io
                  s ← settings c ifaces runtime share_path
                  auth ← setting c (chars "AUTH_MODE")
                  out ← lift (expand (values s) (template_for auth))
                  write_file env conf_file out
                  write_file env (chars "auth_mode") auth)
                (λ u. Known)
        written ifaces trusted =
            let f = Sound-IsFramed env runtime (Admitted env runtime c) in
            Ensures-then (usermap env runtime c) _
              (usermap-Keeps env runtime (Admitted env runtime c) c)
              (λ u.
                Ensures-given (λ path. Map.index c (chars "SHARE_PATH") ≡ ok path)
                  (setting c (chars "SHARE_PATH")) _ (lift-given _)
                  (λ path named.
                    Ensures-given (IsShared env c) (effective env path) _
                      (effective-given (Admitted env runtime c) c path named)
                      (λ share_path shared.
                        Ensures-then (ask env.make_dir_ok) _ (Keeps-ask f.timeless _) (λ made.
                          Ensures-then (fail_if (not made) Error.io) _ (Keeps-fail_if _ _) (λ v.
                            Ensures-given (AreOf c ifaces runtime share_path)
                              (settings c ifaces runtime share_path) _
                              (settings-given (Admitted env runtime c) c ifaces share_path)
                              (λ s chosen.
                                Ensures-given (λ auth. Map.index c (chars "AUTH_MODE") ≡ ok auth)
                                  (setting c (chars "AUTH_MODE")) _ (lift-given _)
                                  (λ auth mode.
                                    Ensures-given
                                      (λ out. expand (values s) (template_for auth) ≡ ok out)
                                      (lift (expand (values s) (template_for auth))) _
                                      (lift-given _)
                                      (λ out expanded.
                                        Ensures-bind (λ u. Known) (write_file env conf_file out) _
                                          (write_conf-Ensures (Admitted env runtime c) out
                                            (λ read admitted. record {
                                              config = c;
                                              accepted = accepted;
                                              unlocked = unlocked;
                                              ifaces = ifaces;
                                              trusted = trusted;
                                              admitted = admitted;
                                              share_path = share_path;
                                              shared = shared;
                                              chosen = s;
                                              collected = chosen;
                                              auth = auth;
                                              mode = mode;
                                              text = out;
                                              expanded = expanded;
                                              there = refl;
                                            }))
                                          (λ u.
                                            Keeps-Ensures
                                              (write_mode-Keeps (IsMade env runtime) auth))))))))))
