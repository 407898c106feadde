-- ===== src/Watch/Unsafe.antt =====
-- What `reconcile` of watch.rs (native/smbctl/src) leaves running when the storage is locked or no
-- trusted network is there.
use android_smb_for_ksu.Common.{
  ℕ, ◌≡◌, ◌⊎◌, refl, arith, Bool, true, false, not, ◌&&◌, List, [], ◌∷◌, none, if◌then◌else◌,
  is_empty, ok, Result-cases, inl, inr,
}
use android_smb_for_ksu.Text.{Text, chars}
use android_smb_for_ksu.Config.Map.{Config}
use android_smb_for_ksu.Os.Network.{Address}
use android_smb_for_ksu.App.World.{
  Server, Env, World, ask, try_ask, exists, when, write_file, ◌>>=◌, ◌>>◌,
}
use android_smb_for_ksu.App.Rules.{
  Keeps, Ensures, Ensures-any, Ensures-bind, Ensures-pure, Ensures-if, Ensures-run, Ensures-fact,
  Keeps-Ensures, Keeps-when, keeps_rules,
}
use android_smb_for_ksu.App.Server.{smbd, helpers, pids, load, setting, setting_is, password}
use android_smb_for_ksu.App.Card.{card}
use android_smb_for_ksu.App.Control.{stop, one, enabled_key, pending_file, waiting_file}
use android_smb_for_ksu.App.Control.Halt.{AreFound, NoneOf, card-NoneOf, write_file-NoneOf}
use android_smb_for_ksu.App.Control.Stop.{stopped, IsStopped, stop-Ensures}
use android_smb_for_ksu.Watch.{
  done, halt_running, wait_network, refresh, reconcile, reconcile_enabled,
}
use android_smb_for_ksu.Watch.Disabled.{
  none-NoServer, NoServer, helpers-smbd, pids-Ensures, halt_running-Ensures,
}

-- a start waits for a password
abbrev NotPending : World → Type 0
NotPending w = w.files pending_file ≡ none

-- the storage stays locked
abbrev pub IsLocked : Env → Type 0
IsLocked env = (t : ℕ) → (path : Text) → env.storage_ready t path ≡ false

module _ (env : Env) (runtime : Text) (c : Config) where
  abbrev Found : List Server → World → Type 0
  Found ps w = AreFound env (smbd ∷ []) ps w

  settle :
      (ps : List Server) (waiting : Bool)
      → Ensures
          (Found ps)
          (if is_empty ps
            then when (not waiting) (write_file env waiting_file one)
            else done env runtime (stop env runtime c true))
          (λ u. NoServer env)
  settle [] waiting = record {
    post = λ w h.
        (Keeps-Ensures
            (Keeps-when (not waiting) _ (write_file-NoneOf env (smbd ∷ []) waiting_file one))).post
          w (none-NoServer env runtime w h);
  }
  settle (p ∷ ps) waiting = record { post = λ w h. ended.post w tt }
    where
      none_left :
          {c' : Config} (w : World)
          → (c' ≡ stopped env runtime c true) × IsStopped env runtime (stopped env runtime c true) w
          → NoneOf env helpers w
      none_left w (same, (gone, saved)) = gone

      ended : Ensures (λ w. Unit) (done env runtime (stop env runtime c true)) (λ u. NoServer env)
      ended =
          Ensures-bind
            (λ c' w.
              (c' ≡ stopped env runtime c true)
              × IsStopped env runtime (stopped env runtime c true) w)
            (stop env runtime c true) _ (stop-Ensures env runtime c true)
            (λ c'. Ensures-pure tt (λ w h. helpers-smbd env w (none_left w h)))

  exists-Keeps : (ps : List Server) → Keeps (Found ps) (exists waiting_file)
  unfolding exists
  exists-Keeps ps = record { at = λ w h. h }

  wait_network-Ensures : Ensures (λ w. Unit) (wait_network env runtime c) (λ u. NoServer env)
  unfolding wait_network
  wait_network-Ensures = Ensures-bind Found (pids env) _ (pids-Ensures env runtime) (λ ps.
      Ensures-bind (λ waiting. Found ps) (exists waiting_file) _ (exists-Found ps)
        (λ waiting. settle ps waiting))
    where
      exists-Found : (ps : List Server) → Ensures (Found ps) (exists waiting_file) (λ b. Found ps)
      exists-Found ps = Keeps-Ensures (exists-Keeps ps)

  asked :
      (n : List Address) (path : Text)
      → IsLocked env ⊎ (n ≡ [])
      → Ensures (λ w. Unit) (ask (λ t. env.storage_ready t path)) (λ b w. (b ≡ false) ⊎ (n ≡ []))
  unfolding ask
  asked n path (inl locked) = record { post = λ w u. inl (locked w.now path) }
  asked n path (inr none_there) = record { post = λ w u. inr none_there }

  -- the storage is locked, or the network has no address
  rest-Ensures :
      (n : List Address)
      → IsLocked env ⊎ (n ≡ [])
      → Ensures
          (λ w. Unit)
          (setting c (chars "SHARE_PATH") >>= λ path.
            ask (λ t. env.storage_ready t path) >>= λ unlocked.
            (if not unlocked
              then halt_running env runtime
              else if is_empty n
              then wait_network env runtime c
              else refresh env runtime c n)
            >> card env)
          (λ u. NoServer env)
  rest-Ensures n h =
      Ensures-bind (λ path w. Unit) (setting c (chars "SHARE_PATH")) _ (Ensures-any _)
        (λ path.
          Ensures-bind (λ b w. b ≡ false ⊎ (n ≡ [])) (ask (λ t. env.storage_ready t path)) _
            (asked n path h)
            (λ unlocked. Ensures-fact _ (λ unsafe.
              Ensures-bind (λ u. NoServer env) _ _
                (Ensures-if (not unlocked) _ _ (λ e. halt_running-Ensures env runtime)
                  (λ e.
                    Ensures-if (is_empty n) _ _ (λ e'. wait_network-Ensures)
                      (λ e'. record {
                        post = λ w u. absurd (contradiction unlocked n unsafe e e');
                      })))
                (λ u. Keeps-Ensures (card-NoneOf env (smbd ∷ []))))))
    where
      contradiction :
          (b : Bool) (n : List Address)
          → (b ≡ false) ⊎ (n ≡ [])
          → not b ≡ false
          → is_empty n ≡ false
          → ⊥
      contradiction false n (inl p) e e' = cc
      contradiction true n (inl p) e e' = cc
      contradiction b [] (inr p) e e' = cc
      contradiction b (x ∷ n) (inr p) e e' = cc

  enabled-Ensures :
      (n : List Address)
      → IsLocked env ⊎ (n ≡ [])
      → Ensures NotPending (reconcile_enabled env runtime c n) (λ u. NoServer env)
  unfolding reconcile_enabled exists
  enabled-Ensures n h =
      Ensures-bind (λ b w. b ≡ false) (exists pending_file) _
        (record { post = λ w no_flag. rw no_flag refl })
        (λ pending. Ensures-fact _ (λ no_flag.
          Ensures-bind (λ b w. Unit) (setting_is c (chars "AUTH_MODE") (chars "user")) _
            (Ensures-any _)
            (λ user.
              Ensures-bind (λ b w. Unit) (password env) _ (Ensures-any _)
                (λ known.
                  Ensures-if (pending && (user && not known)) _ _
                    (λ e. record { post = λ w u. absurd (ground arith) })
                    (λ e. rest-Ensures n h)))))

  off-Ensures : Ensures NotPending (halt_running env runtime >> card env) (λ u. NoServer env)
  off-Ensures =
      Ensures-bind (λ u. NoServer env) (halt_running env runtime) _
        (record { post = λ w h. (halt_running-Ensures env runtime).post w tt })
        (λ u. Keeps-Ensures (card-NoneOf env (smbd ∷ [])))

module _ (env : Env) (runtime : Text) where
  load-NotPending : Keeps NotPending (load env)
  unfolding load
  load-NotPending = record { at = λ w h. h }

  network-Ensures :
      IsLocked env ⊎ ((t : ℕ) → env.network t ≡ ok [])
      → Ensures NotPending (try_ask env.network) (λ n w. NotPending w × (IsLocked env ⊎ (n ≡ [])))
  unfolding try_ask
  network-Ensures (inl locked) = record {
    post = λ w h. elim (Result-cases (env.network w.now)) [
      | inl (n, e) ↦ rw e (h, inl locked)
      | inr (x, e) ↦ rw e tt
    ];
  }
  network-Ensures (inr away) = record { post = λ w h. rw (away w.now) (h, inr refl) }

  unsafe-Ensures :
      IsLocked env ⊎ ((t : ℕ) → env.network t ≡ ok [])
      → Ensures NotPending (reconcile env runtime) (λ u. NoServer env)
  unfolding reconcile
  unsafe-Ensures h =
      Ensures-bind (λ c. NotPending) (load env) _ (Keeps-Ensures load-NotPending)
        (λ c.
          Ensures-bind (λ n w. NotPending w × (IsLocked env ⊎ (n ≡ []))) (try_ask env.network) _
            (network-Ensures h) (λ n. record { post = λ w k. (decide c n k.1).post w k.0 }))
    where
      setting_is-Keeps : (c : Config) (k v : Text) → Keeps NotPending (setting_is c k v)
      setting_is-Keeps c k v = search keeps_rules

      decide :
          (c : Config) (n : List Address)
          → IsLocked env ⊎ (n ≡ [])
          → Ensures NotPending
              (setting_is c enabled_key one >>= λ b.
                if b
                then reconcile_enabled env runtime c n
                else (halt_running env runtime >> card env))
              (λ u. NoServer env)
      decide c n k =
          Ensures-bind (λ b. NotPending) (setting_is c enabled_key one) _
            (Keeps-Ensures (setting_is-Keeps c enabled_key one))
            (λ b.
              Ensures-if b _ _ (λ e. enabled-Ensures env runtime c n k)
                (λ e. off-Ensures env runtime c))

  -- While the storage is locked, or no trusted network is there, and no start waits for a password, a
  -- `reconcile` that succeeds leaves no smbd running but one that `os::processes` skips, whatever the
  -- settings are.
  pub reconcile_unsafe :
      (w : World) {w' : World}
      → IsLocked env ⊎ ((t : ℕ) → env.network t ≡ ok [])
      → w.files pending_file ≡ none
      → reconcile env runtime w ≡ (ok tt, w')
      → NoServer env w'
  reconcile_unsafe w h no_flag run = Ensures-run (unsafe-Ensures h) no_flag run
