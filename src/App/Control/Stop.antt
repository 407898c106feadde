-- ===== src/App/Control/Stop.antt =====
-- What `stop` of main.rs leaves behind.
use android_smb_for_ksu.Common.{
  ◌≡◌, refl, sym, Bool, true, false, List, [], ◌∷◌, some, if◌then◌else◌, ok, Bool-cases,
  Option-cases, inl, inr, ap, ◌∙◌, arith,
}
use android_smb_for_ksu.Text.{Text, chars, str_eq, is_one_of}
use android_smb_for_ksu.Text.Lemmas.{str_eq_iff, str_eq_refl}
use android_smb_for_ksu.Config.{render, parse}
use android_smb_for_ksu.Config.Shape.{HasKeys, HasKeys-insert}
use android_smb_for_ksu.Config.RoundTrip.{parse-render}
use android_smb_for_ksu.Config.Map
use android_smb_for_ksu.Config.Map.{Config}
use android_smb_for_ksu.App.World.{Env, World, gets, lift, write_file, set_if-other, remove_file}
use android_smb_for_ksu.App.Rules.{
  Keeps, Ensures, Keeps-bind, Ensures-bind, Ensures-pure, Ensures-if, Ensures-lift, Ensures-both,
  Keeps-both, Ensures-run, Keeps-Ensures, keeps_rules,
}
use android_smb_for_ksu.App.Server.{config_file, same_file, helpers, halt, save}
use android_smb_for_ksu.App.Control.{
  stop, stop_flags, enabled_key, one, key_file, waiting_file, pending_file,
}
use android_smb_for_ksu.App.Control.Halt.{
  NoneOf, halt-Ensures, save-NoneOf, write_file-NoneOf, remove_file-NoneOf,
}

pub enabled_key-known : (c : Config) → HasKeys c → Map.contains_key c enabled_key ≡ true
enabled_key-known c (inl e) =
    Map.contains_key-keys c enabled_key ∙ rw e (unfold is_one_of str_eq in refl)
enabled_key-known c (inr e) =
    Map.contains_key-keys c enabled_key ∙ rw e (unfold is_one_of str_eq in refl)

-- config.conf holds the text of `c`
abbrev pub Saved : Config → World → Type 0
Saved c w = (s : Text) × (w.files config_file ≡ some s) × (render c ≡ ok s)

-- the server programs of the module
abbrev pub server_programs : List Text
server_programs =
    chars "smbd"
    ∷ chars "samba-dcerpcd"
    ∷ chars "rpcd_classic"
    ∷ chars "rpcd_lsad"
    ∷ chars "rpcd_winreg"
    ∷ []

module _ (env : Env) (c : Config) where
  same_file-eq : (p s : Text) (w : World) → same_file env p s w ≡ true → w.files p ≡ some s
  unfolding same_file
  same_file-eq p s w h = elim (Option-cases (w.files p)) [
    | inl nothing ↦ absurd (ground arith)
    | inr (t, there) ↦ there ∙ ap some ((str_eq_iff t s).0 (ground arith))
  ]

  -- the text is known, and its comparison with the file
  abbrev Compared : Text → Bool → World → Type 0
  Compared s same w = (same ≡ same_file env config_file s w) × (render c ≡ ok s)

  write_file-Saved_as :
      (s : Text) (b : Bool) → Ensures (Compared s b) (write_file env config_file s) (λ u. Saved c)
  unfolding write_file
  write_file-Saved_as s b = record {
    post = λ w h. elim (Bool-cases (env.write_ok w.now)) [
      | inl there ↦ rw (there) (s, rw (str_eq_refl config_file) refl, h.1)
      | inr left ↦ rw (left) tt
    ];
  }

  pub save-Saved : Ensures (λ w. Unit) (save env c) (λ u. Saved c)
  unfolding save gets
  save-Saved =
      Ensures-bind (λ s w. render c ≡ ok s) (lift (render c)) _ (Ensures-lift (render c))
        (λ s.
          Ensures-bind (Compared s) (gets (same_file env config_file s)) _
            (record { post = λ w h. (refl, h) })
            (λ b.
              Ensures-if b _ _
                (λ e. Ensures-pure _ (λ w h. (s, same_file-eq config_file s w (sym h.0 ∙ e), h.1)))
                (λ e. write_file-Saved_as s b)))

  remove_file-Saved :
      (p : Text) → str_eq p config_file ≡ false → Keeps (Saved c) (remove_file env p)
  unfolding remove_file
  remove_file-Saved p other = record {
    at = λ w h. elim (Bool-cases (env.remove_ok w.now)) [
      | inl there ↦ rw (there, other) h
      | inr left ↦ rw (left) h
    ];
  }

  write_file-Saved :
      (p s : Text) → str_eq p config_file ≡ false → Keeps (Saved c) (write_file env p s)
  unfolding write_file
  write_file-Saved p s other = record {
    at = λ w h. elim (Bool-cases (env.write_ok w.now)) [
      | inl there ↦ rw (there, other) h
      | inr left ↦ rw (left, set_if-other (env.write_lands w.now) p s w.files config_file other) h
    ];
  }

module _ (env : Env) (runtime : Text) where
  stop_flags-NoneOf : (ns : List Text) (b : Bool) → Keeps (NoneOf env ns) (stop_flags env runtime b)
  unfolding stop_flags
  stop_flags-NoneOf ns true = write_file-NoneOf env ns _ _
  stop_flags-NoneOf ns false = search (keeps_rules, remove_file-NoneOf env ns)

  abbrev pub stopped : Config → Bool → Config
  stopped c suspend = Map.insert enabled_key (if suspend then one else chars "0") c

  stop_flags-Saved : (c : Config) (b : Bool) → Keeps (Saved c) (stop_flags env runtime b)
  unfolding stop_flags
  stop_flags-Saved c true = write_file-Saved env c _ _ (unfold str_eq in refl)
  stop_flags-Saved c false =
      Keeps-bind (remove_file env waiting_file) _
        (remove_file-Saved env c waiting_file (unfold str_eq in refl))
        (λ u. remove_file-Saved env c pending_file (unfold str_eq in refl))

  abbrev pub IsStopped : Config → World → Type 0
  IsStopped c w = NoneOf env helpers w × Saved c w

  pub stop-Ensures :
      (c : Config) (suspend : Bool)
      → Ensures
          (λ w. Unit)
          (stop env runtime c suspend)
          (λ c' w. (c' ≡ stopped c suspend) × IsStopped (stopped c suspend) w)
  unfolding stop
  stop-Ensures c suspend =
      let c' = stopped c suspend in
      Ensures-bind (λ u. NoneOf env helpers) (halt env) _ (halt-Ensures env)
        (λ u.
          Ensures-bind (λ u. IsStopped c') (save env c') _
            (Ensures-both (λ u. Saved c') (save env c') (save-NoneOf env helpers c')
              (save-Saved env c'))
            (λ u.
              Ensures-bind (λ u. IsStopped c') (remove_file env key_file) _
                (Keeps-Ensures (
                  Keeps-both (remove_file env key_file) (remove_file-NoneOf env helpers key_file)
                    (remove_file-Saved env c' key_file (unfold str_eq in refl))))
                (λ u.
                  Ensures-bind (λ u. IsStopped c') (stop_flags env runtime suspend) _
                    (Keeps-Ensures (
                      Keeps-both (stop_flags env runtime suspend)
                        (stop_flags-NoneOf helpers suspend) (stop_flags-Saved c' suspend)))
                    (λ u. Ensures-pure _ (λ w h. (refl, h))))))

  -- After a successful `stop` none of the five server programs is running but in a process that
  -- `os::processes` skips, and config.conf holds a text that reloads to the settings of before with
  -- ENABLED set, to 1 for a suspension and to 0 else.
  pub stop_lem :
      (c : Config) (suspend : Bool) {c' : Config} (w : World) {w' : World}
      → HasKeys c
      → stop env runtime c suspend w ≡ (ok c', w')
      → (c' ≡ Map.insert enabled_key (if suspend then one else chars "0") c)
        × NoneOf env server_programs w'
        × ((s : Text) × (w'.files config_file ≡ some s) × (parse s ≡ ok c'))
  stop_lem c suspend w shape run =
      let (same, (none_left, (s, there, rendered))) = Ensures-run (stop-Ensures c suspend) tt run in
      let parsed =
        parse-render (stopped c suspend) s
          (HasKeys-insert c enabled_key _ (enabled_key-known c shape) shape) rendered in
      (same, none_left, (s, there, parsed ∙ ap ok (sym same)))
