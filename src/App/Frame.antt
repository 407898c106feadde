-- ===== src/App/Frame.antt =====
-- Properties of the state that outlive the system calls of `App` (native/smbctl/src/main.rs): they do
-- not speak of the time, a process may exit, and files other than the guarded ones may change. The
-- actions of `App` that write no guarded file and launch no server keep them.
use android_smb_for_ksu.Common.{
  ℕ, zero, suc, ◌+◌, ◌≡◌, Bool, true, false, not, List, [], ◌∷◌, Option, none, some, Error,
  Bool-cases, inl, inr,
}
use android_smb_for_ksu.Text.{Text}
use android_smb_for_ksu.Config.Map.{Config}
use android_smb_for_ksu.Os.Network.{Address}
use android_smb_for_ksu.App.World.{
  Server, Env, World, ask, try_ask, gets, fail_if, exists, read_or_empty, write_file, remove_file,
  set_file, set_if,
}
use android_smb_for_ksu.App.Rules.{
  IsTimeless, Keeps, Keeps-bind, Keeps-when, Keeps-ask, Keeps-fail_if, Keeps-recorded, keeps_rules,
}
use android_smb_for_ksu.App.Server.{
  keep_servers, is_among, processes, pids, terminate, halt, load, password, effective, ready_with,
  ready,
}
use android_smb_for_ksu.App.Card.{prop_file, Status, status, card_file, card}
use android_smb_for_ksu.App.Control.{
  logs_changed, logs_prepare, rotate_logs, prepare_logs, check_helpers, halt_with, await_ready,
}

pub record IsFramed (guarded : Text → Bool) (P : World → Type 0) : Type 0 where
  pub timeless : IsTimeless P
  pub exits :
      (w : World) (p : Server → Bool) → P w → P (record w { servers = keep_servers p w.servers })
  pub writes :
      (w : World) (p : Text) (v : Option Text)
      → guarded p ≡ false
      → P w
      → P (record w { files = set_file w.files p v })

module _ {guarded : Text → Bool} {P : World → Type 0} (f : IsFramed guarded P) (env : Env) where
  pub processes-Keeps : (names : List Text) → Keeps P (processes env names)
  unfolding processes
  processes-Keeps names = record { at = λ w h. f.timeless _ _ _ (f.exits w (env.alive w.now) h) }

  pub terminate-Keeps : (ps : List Server) → Keeps P (terminate env ps)
  unfolding terminate
  terminate-Keeps ps = record {
    at = λ w h. elim (Bool-cases (env.terminate_ok w.now)) [
      | inl there ↦ rw (there) (f.timeless _ _ _ (f.exits w (λ s. not (is_among ps s)) h))
      | inr left ↦ rw (left) (f.timeless _ _ _ (f.exits w (env.survives w.now) h))
    ];
  }

  pub halt-Keeps : Keeps P (halt env)
  unfolding halt
  halt-Keeps =
      let timeless = f.timeless in
      search (keeps_rules, timeless, processes-Keeps, terminate-Keeps) depth 20

  pub pids-Keeps : Keeps P (pids env)
  unfolding pids
  pids-Keeps = processes-Keeps _

  set_if-Keeps :
      (lands : Bool) (p s : Text) (w : World)
      → guarded p ≡ false
      → P w
      → P (record w { files = set_if lands p s w.files; now = w.now + 1 })
  set_if-Keeps true p s w g h = f.timeless _ _ _ (f.writes w p (some s) g h)
  set_if-Keeps false p s w g h = f.timeless _ _ _ h

  pub write_file-Keeps : (p s : Text) → guarded p ≡ false → Keeps P (write_file env p s)
  unfolding write_file
  write_file-Keeps p s g = record {
    at = λ w h. elim (Bool-cases (env.write_ok w.now)) [
      | inl there ↦ rw (there) (f.timeless _ _ _ (f.writes w p (some s) g h))
      | inr left ↦ rw (left) (set_if-Keeps (env.write_lands w.now) p s w g h)
    ];
  }

  pub remove_file-Keeps : (p : Text) → guarded p ≡ false → Keeps P (remove_file env p)
  unfolding remove_file
  remove_file-Keeps p g = record {
    at = λ w h. elim (Bool-cases (env.remove_ok w.now)) [
      | inl there ↦ rw (there) (f.timeless _ _ _ (f.writes w p none g h))
      | inr left ↦ rw (left) (f.timeless _ _ _ h)
    ];
  }

  pub load-Keeps : Keeps P (load env)
  unfolding load
  load-Keeps = record { at = λ w h. f.timeless _ _ _ h }

  pub exists-Keeps : (p : Text) → Keeps P (exists p)
  unfolding exists
  exists-Keeps p = record { at = λ w h. h }

  pub read_or_empty-Keeps : (p : Text) → Keeps P (read_or_empty env p)
  unfolding read_or_empty
  read_or_empty-Keeps p = record { at = λ w h. f.timeless _ _ _ h }

  pub password-Keeps : Keeps P (password env)
  unfolding password
  password-Keeps = search (keeps_rules, read_or_empty-Keeps)

  pub ready_with-Keeps :
      (c : Config) (n : List Address) (ps : List Server) → Keeps P (ready_with env c n ps)
  unfolding ready_with
  ready_with-Keeps c n [] = search (keeps_rules)
  ready_with-Keeps c n (p ∷ ps) =
      let timeless = f.timeless in search (keeps_rules, timeless) depth 20

  pub ready-Keeps : (c : Config) → Keeps P (ready env c)
  unfolding ready
  ready-Keeps c =
      let timeless = f.timeless in
      search (keeps_rules, timeless, pids-Keeps, ready_with-Keeps) depth 20

  pub effective-Keeps : (path : Text) → Keeps P (effective env path)
  unfolding effective
  effective-Keeps path = let timeless = f.timeless in search (keeps_rules, timeless)

  pub status-Keeps : Keeps P (status env)
  unfolding status
  status-Keeps =
      let timeless = f.timeless in
      Keeps-bind (load env) _ load-Keeps (λ c.
        Keeps-bind (try_ask env.network) _ (search (keeps_rules, timeless)) (λ n.
          Keeps-bind (pids env) _ pids-Keeps (λ ps.
            Keeps-bind (ready_with env c n ps) _ (ready_with-Keeps c n ps) (λ b.
              search (keeps_rules, timeless, exists-Keeps, effective-Keeps, password-Keeps) depth
                40))))

  card_file-Keeps :
      (s : Status) (file : Option Text) → guarded prop_file ≡ false → Keeps P (card_file env s file)
  unfolding card_file
  card_file-Keeps s none g = search (keeps_rules)
  card_file-Keeps s (some t) g =
      let timeless = f.timeless in
      let write : (x : Text) → Keeps P (write_file env prop_file x) =
        λ x. write_file-Keeps prop_file x g in
      search (keeps_rules, timeless, write) depth 20

  pub card-Keeps : guarded prop_file ≡ false → Keeps P (card env)
  unfolding card
  card-Keeps g = Keeps-bind (status env) _ status-Keeps (λ s.
      Keeps-bind (gets (λ w. w.files prop_file)) _ (search (keeps_rules))
        (λ file. card_file-Keeps s file g))

  module _ (runtime : Text) where
    logs_changed-Keeps : (boot : Text) → Keeps P (logs_changed env runtime boot)
    unfolding logs_changed
    logs_changed-Keeps boot = Keeps-recorded f.timeless _

    logs_prepare-Keeps : (boot : Text) → Keeps P (logs_prepare env runtime boot)
    unfolding logs_prepare
    logs_prepare-Keeps boot = Keeps-recorded f.timeless _

    rotate_logs-Keeps : (boot : Text) → Keeps P (rotate_logs env runtime boot)
    unfolding rotate_logs
    rotate_logs-Keeps boot =
        search (keeps_rules, logs_prepare-Keeps, pids-Keeps, halt-Keeps) depth 20

    pub prepare_logs-Keeps : Keeps P (prepare_logs env runtime)
    unfolding prepare_logs
    prepare_logs-Keeps =
        let timeless = f.timeless in
        search (keeps_rules, timeless, logs_changed-Keeps, rotate_logs-Keeps) depth 20

    pub check_helpers-Keeps : (names : List Text) → Keeps P (check_helpers env runtime names)
    unfolding check_helpers
    check_helpers-Keeps [] = search (keeps_rules)
    check_helpers-Keeps (name ∷ names) =
        let timeless = f.timeless in
        Keeps-bind (try_ask (λ t. env.helper t name)) _ (search (keeps_rules, timeless)) (λ there.
          Keeps-bind (fail_if (not there) Error.helper_missing) _ (search (keeps_rules))
            (λ u. check_helpers-Keeps names))

    pub halt_with-Keeps : (e : Error) → Keeps P (halt_with env runtime e)
    unfolding halt_with
    halt_with-Keeps e = search (keeps_rules, halt-Keeps)

    pub await_ready-Keeps : (c : Config) (n : ℕ) → Keeps P (await_ready env runtime c n)
    unfolding await_ready
    await_ready-Keeps c zero = search (keeps_rules, ready-Keeps, halt_with-Keeps) depth 20
    await_ready-Keeps c (suc n) = Keeps-bind (ready env c) _ (ready-Keeps c) (λ there.
        Keeps-when (not there) _ (
          Keeps-bind (ask env.poll_ok) _ (Keeps-ask f.timeless _) (λ polled.
            Keeps-bind (fail_if (not polled) Error.io) _ (Keeps-fail_if (not polled) Error.io)
              (λ u. await_ready-Keeps c n))))
