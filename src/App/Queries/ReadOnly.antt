-- ===== src/App/Queries/ReadOnly.antt =====
-- What the commands that only print (native/smbctl/src/main.rs) leave as it is.
use android_smb_for_ksu.Common.{
  ℕ, ◌-◌, ◌*◌, ◌≤◌, ◌≡◌, refl, subst, arith, List, [], ◌∷◌, ◌++◌, drop, length, length-append,
  Option, ok, suc, zero, Bool, true,
}
use android_smb_for_ksu.Text.{Text, lines}
use android_smb_for_ksu.App.World.{Read, ask, Env, World}
use android_smb_for_ksu.App.Rules.{
  Keeps-ask, IsTimeless, Post, Keeps, Ensures, Ensures-bind, Ensures-pure, Ensures-any, keeps_rules,
  Keeps-bind, Keeps-pure,
}
use android_smb_for_ksu.App.Frame.{
  IsFramed, load-Keeps, password-Keeps, ready-Keeps, read_or_empty-Keeps,
}
use android_smb_for_ksu.App.Server.{load, password, ready}
use android_smb_for_ksu.App.Queries.{
  Query, tail, header, log_names, show_logs, check, answer, get_config, is_running, interface_key,
  trusted_lan, show_conf, show_log, selfcheck,
}

-- the files, and the launches of smbd, are these
abbrev pub IsAsBefore : (Text → Option Text) → List Read → World → Type 0
IsAsBefore files launches w = (w.files ≡ files) × (w.launches ≡ launches)

-- all files are guarded
abbrev pub every_file : Text → Bool
every_file p = true

module _ (env : Env) (files : Text → Option Text) (launches : List Read) where
  pub frame : IsFramed every_file (IsAsBefore files launches)
  frame = record { timeless = λ w x t h. h; exits = λ w p h. h; writes = λ w p v never h. cc }

  pub timeless : IsTimeless (IsAsBefore files launches)
  timeless = frame.timeless

  show_logs-Keeps : (names : List Text) → Keeps (IsAsBefore files launches) (show_logs env names)
  unfolding show_logs
  show_logs-Keeps [] = search keeps_rules
  show_logs-Keeps (name ∷ names) =
      Keeps-bind (ask (λ t. env.log_text t name)) _ (Keeps-ask timeless _) (λ s.
        Keeps-bind (show_logs env names) _ (show_logs-Keeps names)
          (λ rest. Keeps-pure (header name ∷ (tail s ++ rest))))

  loaded : Keeps (IsAsBefore files launches) (load env)
  loaded = load-Keeps frame env

  pub check-Keeps : Keeps (IsAsBefore files launches) (check env)
  unfolding check
  check-Keeps = search (keeps_rules, timeless, loaded) depth 20

  pub answer-Keeps : (q : Query) → Keeps (IsAsBefore files launches) (answer env q)
  unfolding answer
  answer-Keeps get_config =
      Keeps-bind (load env) _ (load-Keeps frame env)
        (λ c. Keeps-bind (password env) _ (password-Keeps frame env) (λ known. Keeps-pure _))
  answer-Keeps is_running =
      Keeps-bind (load env) _ (load-Keeps frame env)
        (λ c. Keeps-bind (ready env c) _ (ready-Keeps frame env c) (λ there. search keeps_rules))
  answer-Keeps interface_key = search (keeps_rules, timeless)
  answer-Keeps trusted_lan = search (keeps_rules, timeless)
  answer-Keeps show_conf = let read = read_or_empty-Keeps frame env in search (keeps_rules, read)
  answer-Keeps show_log = show_logs-Keeps log_names
  answer-Keeps selfcheck = search (keeps_rules, check-Keeps)

length-drop : {A : Type 0} (n : ℕ) (xs : List A) → length (drop n xs) ≡ length xs - n
length-drop zero xs = omega arith
length-drop (suc n) [] = omega arith
length-drop (suc n) (x ∷ xs) = omega (arith, length-drop n xs)

length-tail : (s : Text) → length (tail s) ≤ 250
unfolding tail
length-tail s = omega (arith, length-drop (length (lines s) - 250) (lines s))

show_logs-short :
    (env : Env) (names : List Text)
    → Ensures (λ w. Unit) (show_logs env names) (λ out w. length out ≤ 251 * length names)
unfolding show_logs
show_logs-short env [] = Ensures-pure [] (λ w h. omega arith)
show_logs-short env (name ∷ names) =
    Ensures-bind (λ s w. Unit) (ask (λ t. env.log_text t name)) _ (Ensures-any _)
      (λ s.
        Ensures-bind (λ rest w. length rest ≤ 251 * length names) (show_logs env names) _
          (show_logs-short env names)
          (λ rest.
            Ensures-pure (header name ∷ (tail s ++ rest))
              (λ w h. omega (arith, length-append (tail s) rest, length-tail s))))

show_log-short :
    (env : Env) (w : World) (out : List Text)
    → (answer env show_log w).0 ≡ ok out
    → length out ≤ 1004
unfolding answer
show_log-short env w out run =
    subst (λ r. Post (λ out v. length out ≤ 1004) (r, (show_logs env log_names w).1)) run
      ((show_logs-short env log_names).post w tt)

-- A command that only prints writes no file and launches no server, whatever the system answers, and
-- `log` prints at most 251 lines for each of the four logs.
answer-same :
    (env : Env) (q : Query) (w : World)
    → ((answer env q w).1.files ≡ w.files)
      × ((answer env q w).1.launches ≡ w.launches)
      × ((out : List Text) → (answer env show_log w).0 ≡ ok out → length out ≤ 1004)
answer-same env q w =
    let same = (answer-Keeps env w.files w.launches q).at w (refl, refl) in
    (same.0, same.1, λ out run. show_log-short env w out run)
