-- ===== src/App/Control/Halt.antt =====
-- What `halt`, `stop` and `start` (main.rs) leave running.
use android_smb_for_ksu.Common.{
  ℕ, ==_iff, All, All-map, ◌&&◌, ◌||◌, true, subst, ◌≡◌, refl, Bool, not, List, [], ◌∷◌, arith,
  false, Bool-cases, inl, inr,
}
use android_smb_for_ksu.Text.{Text}
use android_smb_for_ksu.Text.Lemmas.{str_eq_refl}
use android_smb_for_ksu.Config.Map.{Config}
use android_smb_for_ksu.App.World.{Server, Env, World, write_file, remove_file}
use android_smb_for_ksu.App.Card.{card}
use android_smb_for_ksu.App.Rules.{Keeps, Ensures, Keeps-Ensures, Ensures-bind, keeps_rules}
use android_smb_for_ksu.App.Frame.{
  IsFramed, halt-Keeps, write_file-Keeps, remove_file-Keeps, card-Keeps,
}
use android_smb_for_ksu.App.Server.{
  keep_servers, is_among, is_running, helpers, processes, terminate, halt, save,
}

-- `os::processes` has skipped the process, or would skip it
abbrev pub IsSkipped : Env → Server → Type 0
IsSkipped env s = (t : ℕ) × (env.seen t s ≡ false)

-- no process of these programs is running but those that `os::processes` skips
abbrev pub NoneOf : Env → List Text → World → Type 0
NoneOf env names w = All (λ s. is_running names s ≡ true → IsSkipped env s) w.servers

is_among_self : (s : Server) (ps : List Server) → is_among (s ∷ ps) s ≡ true
is_among_self s ps = rw ((==_iff s.pid s.pid).1 refl, str_eq_refl s.exe) refl

or_later : (a b : Bool) → b ≡ true → (a || b) ≡ true
or_later a b h = ground arith

-- what is left when the processes that were found are taken away
found-gone :
    (q : Server → Bool) (ps ss : List Server)
    → ((s : Server) → is_among (keep_servers q ss) s ≡ true → is_among ps s ≡ true)
    → All (λ s. q s ≡ false) (keep_servers (λ s. not (is_among ps s)) ss)
unfolding keep_servers
found-gone q ps [] h = tt
found-gone q ps (s ∷ ss) h = elim (Bool-cases (q s)) [
  | inl kept ↦
      let gone : is_among ps s ≡ true = h s (rw kept (is_among_self s (keep_servers q ss))) in
      rw gone (found-gone q ps ss (λ x e. h x (rw kept (or_later _ _ e))))
  | inr out ↦ elim (Bool-cases (is_among ps s)) [
    | inl gone ↦ rw gone (found-gone q ps ss (λ x e. h x (rw out e)))
    | inr left ↦ rw left (out, found-gone q ps ss (λ x e. h x (rw out e)))
  ]
]

-- processes only leave
keep-All :
    (P : Server → Type 0) (q : Server → Bool) (ss : List Server)
    → All P ss
    → All P (keep_servers q ss)
unfolding keep_servers
keep-All P q [] h = tt
keep-All P q (s ∷ ss) h = elim (Bool-cases (q s)) [
  | inl kept ↦ rw kept (h.0, keep-All P q ss h.1)
  | inr out ↦ rw out (keep-All P q ss h.1)
]

-- those that are not found are skipped
pub unfound-NoneOf :
    (env : Env) (names : List Text) (t : ℕ) (ss : List Server)
    → All (λ s. (is_running names s && env.seen t s) ≡ false) ss
    → All (λ s. is_running names s ≡ true → IsSkipped env s) ss
unfound-NoneOf env names t ss h = All-map ss (λ s out runs. (t, ground arith)) h

-- no file is guarded
abbrev no_file : Text → Bool
no_file p = false

pub NoneOf-IsFramed : (env : Env) (ns : List Text) → IsFramed no_file (NoneOf env ns)
NoneOf-IsFramed env ns = record {
  timeless = λ w x t h. h;
  exits = λ w p h. keep-All _ p w.servers h;
  writes = λ w p v g h. h;
}

module _ (env : Env) where
  -- the processes of these programs that were seen
  abbrev pub AreFound : List Text → List Server → World → Type 0
  AreFound names ps w =
      (t : ℕ) × (keep_servers (λ s. is_running names s && env.seen t s) w.servers ≡ ps)

  pub processes-Ensures :
      (names : List Text) → Ensures (λ w. Unit) (processes env names) (AreFound names)
  unfolding processes
  processes-Ensures names = record {
    post = λ w h. elim (Bool-cases (env.processes_ok w.now)) [
      | inl there ↦ rw (there) (w.now, refl)
      | inr left ↦ rw (left) tt
    ];
  }

  terminate-Ensures :
      (names : List Text) (ps : List Server)
      → Ensures (AreFound names ps) (terminate env ps) (λ u. NoneOf env names)
  unfolding terminate
  terminate-Ensures names ps = record {
    post = λ w h. elim (Bool-cases (env.terminate_ok w.now)) [
      | inl there ↦ rw (there) (
          unfound-NoneOf env names h.0 (keep_servers (λ s. not (is_among ps s)) w.servers) (
            found-gone (λ s. is_running names s && env.seen h.0 s) ps w.servers
              (λ s e. subst (λ l. is_among l s ≡ true) h.1 e)))
      | inr left ↦ rw (left) tt
    ];
  }

  pub halt-Ensures : Ensures (λ w. Unit) (halt env) (λ u. NoneOf env helpers)
  unfolding halt
  halt-Ensures =
      let timeless = (NoneOf-IsFramed env helpers).timeless in
      Ensures-bind (AreFound helpers) (processes env helpers) _ (processes-Ensures helpers) (λ ss.
        Ensures-bind (λ u. NoneOf env helpers) (terminate env ss) _ (terminate-Ensures helpers ss)
          (λ u. Keeps-Ensures (search (keeps_rules, timeless))))

  pub halt-NoneOf : (ns : List Text) → Keeps (NoneOf env ns) (halt env)
  halt-NoneOf ns = halt-Keeps (NoneOf-IsFramed env ns) env

  pub write_file-NoneOf : (ns : List Text) (p s : Text) → Keeps (NoneOf env ns) (write_file env p s)
  write_file-NoneOf ns p s = write_file-Keeps (NoneOf-IsFramed env ns) env p s refl

  pub remove_file-NoneOf : (ns : List Text) (p : Text) → Keeps (NoneOf env ns) (remove_file env p)
  remove_file-NoneOf ns p = remove_file-Keeps (NoneOf-IsFramed env ns) env p refl

  pub save-NoneOf : (ns : List Text) (c : Config) → Keeps (NoneOf env ns) (save env c)
  unfolding save
  save-NoneOf ns c = search (keeps_rules, write_file-NoneOf ns)

  pub card-NoneOf : (ns : List Text) → Keeps (NoneOf env ns) (card env)
  card-NoneOf ns = card-Keeps (NoneOf-IsFramed env ns) env refl
