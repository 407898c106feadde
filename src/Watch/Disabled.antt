-- ===== src/Watch/Disabled.antt =====
-- What `reconcile` of watch.rs leaves running when it has nothing to serve.
use android_smb_for_ksu.Common.{
  All, All-map, ◌≡◌, ap, arith, Bool, true, false, not, List, [], ◌∷◌, if◌then◌else◌, is_empty, ok,
  Bool-cases, inl, inr,
}
use android_smb_for_ksu.Text.{Text, str_eq, is_one_of}
use android_smb_for_ksu.Config
use android_smb_for_ksu.Config.Map
use android_smb_for_ksu.Config.Map.{Config}
use android_smb_for_ksu.Os.Network.{Address}
use android_smb_for_ksu.App.World.{Server, Env, World, lift, try_ask, when, ◌>>=◌, ◌>>◌}
use android_smb_for_ksu.App.Rules.{
  Ensures, Ensures-any, Ensures-bind, Ensures-pure, Ensures-lift, Ensures-run, Ensures-fact,
  Ensures-weaken, Keeps-Ensures,
}
use android_smb_for_ksu.App.Server.{
  helpers, smbd, pids, keep_servers, halt, load, is_running, setting_is, read_config,
}
use android_smb_for_ksu.App.Card.{card}
use android_smb_for_ksu.App.Control.{one, enabled_key}
use android_smb_for_ksu.App.Control.Halt.{
  AreFound, processes-Ensures, unfound-NoneOf, NoneOf, halt-Ensures, card-NoneOf,
}
use android_smb_for_ksu.Watch.{halt_running, reconcile, reconcile_enabled}

abbrev pub NoServer : Env → World → Type 0
NoServer env w = NoneOf env (smbd ∷ []) w

-- smbd is one of the helpers
pub helpers-smbd : (env : Env) (w : World) → NoneOf env helpers w → NoServer env w
unfolding is_one_of
helpers-smbd env w h = All-map w.servers (λ s skipped runs. skipped (first s runs)) h
  where
    first : (s : Server) → is_running (smbd ∷ []) s ≡ true → is_running helpers s ≡ true
    first s runs = ground arith

none-found :
    (q : Server → Bool) (ss : List Server) → keep_servers q ss ≡ [] → All (λ s. q s ≡ false) ss
unfolding keep_servers
none-found q [] h = tt
none-found q (s ∷ ss) h = elim (Bool-cases (q s)) [
  | inl kept ↦ absurd (ground arith)
  | inr out ↦ (out, none-found q ss (ground arith))
]

module _ (env : Env) (runtime : Text) where
  pub pids-Ensures : Ensures (λ w. Unit) (pids env) (AreFound env (smbd ∷ []))
  unfolding pids
  pids-Ensures = processes-Ensures env (smbd ∷ [])

  pub none-NoServer : (w : World) → AreFound env (smbd ∷ []) [] w → NoServer env w
  none-NoServer w (t, none_there) =
      unfound-NoneOf env (smbd ∷ []) t w.servers (none-found _ w.servers none_there)

  halt-NoServer : {P : World → Type 0} → Ensures P (halt env) (λ u. NoServer env)
  halt-NoServer =
      Ensures-weaken (λ u. NoneOf env helpers) (λ u. NoServer env) (halt env) (halt-Ensures env)
        (λ u w h. helpers-smbd env w h)

  halt_if :
      (ps : List Server)
      → Ensures
          (AreFound env (smbd ∷ []) ps)
          (when (not (is_empty ps)) (halt env))
          (λ u. NoServer env)
  halt_if [] = Ensures-pure tt none-NoServer
  halt_if (p ∷ ps) = halt-NoServer

  pub halt_running-Ensures : Ensures (λ w. Unit) (halt_running env runtime) (λ u. NoServer env)
  unfolding halt_running
  halt_running-Ensures = Ensures-bind _ (pids env) _ pids-Ensures halt_if

  pub setting_is-Ensures :
      (c : Config) (k v : Text)
      → Ensures (λ w. Unit) (setting_is c k v) (λ b w. b ≡ str_eq (Map.value c k) v)
  setting_is-Ensures c k v =
      Ensures-bind (λ x w. Map.index c k ≡ ok x) (lift (Map.index c k)) _
        (Ensures-lift (Map.index c k))
        (λ x. Ensures-pure _ (λ w h. ap (λ t. str_eq t v) (Map.index-value c k h)))

  module _ (c : Config) (off : str_eq (Map.value c enabled_key) one ≡ false) where
    idle :
        (n : List Address) (b : Bool)
        → Ensures
            (λ w. b ≡ str_eq (Map.value c enabled_key) one)
            (if b
              then reconcile_enabled env runtime c n
              else (halt_running env runtime >> card env))
            (λ u. NoServer env)
    idle n true = record { post = λ w h. absurd (ground arith) }
    idle n false =
        Ensures-bind (λ u. NoServer env) (halt_running env runtime) _
          (Ensures-weaken (λ u. NoServer env) (λ u. NoServer env) (halt_running env runtime)
            halt_running-Ensures (λ u w h. h))
          (λ u. Keeps-Ensures (card-NoneOf env (smbd ∷ [])))

    decide :
        (n : List Address)
        → Ensures
            (λ w. Unit)
            (setting_is c enabled_key one >>= λ b.
              if b
              then reconcile_enabled env runtime c n
              else (halt_running env runtime >> card env))
            (λ u. NoServer env)
    decide n =
        Ensures-bind _ (setting_is c enabled_key one) _ (setting_is-Ensures c enabled_key one)
          (idle n)

  abbrev IsOff : Config → Type 0
  IsOff c = str_eq (Map.value c enabled_key) one ≡ false

  load-IsOff :
      Ensures
        (λ w. (c : Config) × (Config.load (read_config env w) ≡ ok c) × IsOff c)
        (load env)
        (λ c w. IsOff c)
  unfolding load
  load-IsOff = record { post = λ w h. rw (h.1) h.2 }

  disabled :
      Ensures
        (λ w. (c : Config) × (Config.load (read_config env w) ≡ ok c) × IsOff c)
        (reconcile env runtime)
        (λ u. NoServer env)
  unfolding reconcile
  disabled =
      Ensures-bind (λ c w. IsOff c) (load env) _ load-IsOff
        (λ c. Ensures-fact _ (λ off.
          Ensures-bind (λ n w. Unit) (try_ask env.network) _ (Ensures-any (try_ask env.network))
            (λ n. decide c off n)))

  -- After a `reconcile` that succeeds, no smbd is running but one that `os::processes` skips, if
  -- config.conf said that the server is not enabled.
  pub reconcile-NoServer :
      (c : Config) (w : World) {w' : World}
      → Config.load (read_config env w) ≡ ok c
      → str_eq (Map.value c enabled_key) one ≡ false
      → reconcile env runtime w ≡ (ok tt, w')
      → NoServer env w'
  reconcile-NoServer c w loaded off run = Ensures-run disabled (c, loaded, off) run
