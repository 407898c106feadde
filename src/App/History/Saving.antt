-- ===== src/App/History/Saving.antt =====
-- The invariant of App/History over `save` and the actions of main.rs that launch no server.
use android_smb_for_ksu.Common.{
  ◌+◌, [], Result, arith, ◌≡◌, refl, Bool, false, ◌||◌, Option, none, some, inl, inr, Bool-cases,
  ok, err, Result-cases,
}
use android_smb_for_ksu.Text.{Text, str_eq}
use android_smb_for_ksu.Config
use android_smb_for_ksu.Config.{parse, render}
use android_smb_for_ksu.Config.Map.{Config}
use android_smb_for_ksu.Config.Shape.{HasKeys, parse-HasKeys}
use android_smb_for_ksu.Config.RoundTrip.{parse-render}
use android_smb_for_ksu.App.World.{Read, Env, World, lift, gets, write_file, set_file}
use android_smb_for_ksu.App.Rules.{
  Keeps, Ensures, Post, Keeps-bind, Keeps-if, Keeps-pure, Keeps-gets, Keeps-lift, Ensures-both,
}
use android_smb_for_ksu.App.Steps.{Keeps-given, lift-given}
use android_smb_for_ksu.App.Frame.{IsFramed}
use android_smb_for_ksu.App.Server.{config_file, passwd_file, read_config, load, save}
use android_smb_for_ksu.App.Conf.{conf_file}
use android_smb_for_ksu.App.History.{IsAccepted, IsSoundWith}

-- the files that the invariant speaks of
abbrev pub guarded : Text → Bool
guarded p = str_eq p config_file || str_eq p conf_file || str_eq p passwd_file

unguarded :
    (p : Text)
    → guarded p ≡ false
    → (str_eq p config_file ≡ false) × (str_eq p conf_file ≡ false) × (str_eq p passwd_file ≡ false)
unguarded p g = (ground arith, ground arith, ground arith)

module _ (env : Env) (runtime : Text) (X : Read → Type 0) where
  pub Sound-IsFramed : IsFramed guarded (IsSoundWith env runtime X)
  Sound-IsFramed = record {
    timeless = λ w x t h. record { loads = h.loads; made = h.made; known = h.known };
    exits = λ w p h. record { loads = h.loads; made = h.made; known = h.known };
    writes = λ w p v g h. record {
      loads = rw ((unguarded p g).0) h.loads;
      made = h.made;
      known = rw ((unguarded p g).1, (unguarded p g).2) h.known;
    };
  }

  -- a text that `load` can read is written to config.conf
  write_config-Keeps :
      (s : Text) (c : Config)
      → parse s ≡ ok c
      → Keeps (IsSoundWith env runtime X) (write_file env config_file s)
  unfolding write_file str_eq
  write_config-Keeps s c e = record {
    at = λ w h. elim (Bool-cases (env.write_ok w.now)) [
      | inl there ↦ rw (there) (written w h)
      | inr left ↦ elim (Bool-cases (env.write_lands w.now)) [
        | inl lands ↦ rw (left, lands) (written w h)
        | inr lost ↦ rw (left, lost) (record { loads = h.loads; made = h.made; known = h.known })
      ]
    ];
  }
    where
      written :
          (w : World)
          → IsSoundWith env runtime X w
          → IsSoundWith env runtime X
              (record w { files = set_file w.files config_file (some s); now = w.now + 1 })
      written w h = record { loads = inr (s, c, refl, e); made = h.made; known = h.known }

  pub save-Keeps : (c : Config) → HasKeys c → Keeps (IsSoundWith env runtime X) (save env c)
  unfolding save
  save-Keeps c shape =
      Keeps-given (λ s. render c ≡ ok s) (lift (render c)) _ (Keeps-lift (render c))
        (lift-given (render c))
        (λ s e.
          let write = write_config-Keeps s c (parse-render c s shape e) in
          Keeps-bind (gets _) _ (Keeps-gets _) (λ same. Keeps-if same _ _ (Keeps-pure tt) write))

-- what `load` returns has been accepted
load-IsAccepted :
    (file : Result (Option Text)) {c : Config} → Config.load file ≡ ok c → IsAccepted c
unfolding Config.load
load-IsAccepted (ok (some s)) e = parse-HasKeys s e
load-IsAccepted (ok none) e = parse-HasKeys [] e
load-IsAccepted (err x) e = cc

Post-IsAccepted :
    (file : Result (Option Text)) (w : World) → Post (λ c v. IsAccepted c) (Config.load file, w)
Post-IsAccepted file w = elim (Result-cases (Config.load file)) [
  | inl (c, e) ↦ rw e (load-IsAccepted file e)
  | inr (x, e) ↦ rw e tt
]

pub load-Ensures :
    {P : World → Type 0} (env : Env)
    → Keeps P (load env)
    → Ensures P (load env) (λ c w. P w × IsAccepted c)
unfolding load
load-Ensures env k =
    Ensures-both (λ c w. IsAccepted c) (load env) k
      (record { post = λ w h. Post-IsAccepted (read_config env w) _ })
