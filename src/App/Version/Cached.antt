-- ===== src/App/Version/Cached.antt =====
-- What `version` (native/smbctl/src/main.rs) answers when it is asked again.
use android_smb_for_ksu.Common.{
  ℕ, ◌≡◌, refl, inl, inr, arith, [], ◌∷◌, ◌++◌, Option, none, some, Bool, true, false,
  if◌then◌else◌, All, All-append, ◌==◌, all, Bool-cases, Option-cases,
}
use android_smb_for_ksu.Text.{Text, str_eq, split_once, is_digit}
use android_smb_for_ksu.Text.Lemmas.{str_eq_iff, split_once-append}
use android_smb_for_ksu.Storage.Decimal.{show_from, show_from-digits}
use android_smb_for_ksu.App.Version.{
  Answers, stamp, read, fresh, cached, first_line, renew, version,
}

digits-line : (s : Text) → all (λ c. is_digit c) s ≡ true → All (λ c. (c == b'\n') ≡ false) s
digits-line [] h = tt
digits-line (c ∷ s) h = (ground arith, digits-line s (ground arith))

stamp-line : (p : Option (ℕ × ℕ)) → All (λ c. (c == b'\n') ≡ false) (stamp p)
unfolding stamp
stamp-line none = tt
stamp-line (some (len, nanos)) =
    All-append (λ c. (c == b'\n') ≡ false) (show_from 20 len) (b':' ∷ show_from 39 nanos)
      (digits-line (show_from 20 len) (show_from-digits 20 len))
      (refl, digits-line (show_from 39 nanos) (show_from-digits 39 nanos))

-- the file holds the version `v` for the stamp `key`
IsFor : Text → Text → Option Text → Type 0
IsFor key v file = (t : Text) × (file ≡ some t) × (split_once t b'\n' ≡ some (key, v))

fresh-some :
    (key : Text) (o : Option (Text × Text)) {v : Text} → fresh key o ≡ some v → o ≡ some (key, v)
fresh-some key none h = cc
fresh-some key (some (k, w)) h = elim (Bool-cases (str_eq k key)) [
  | inl same ↦ ground (arith, (str_eq_iff k key).0)
  | inr other_key ↦ absurd (ground arith)
]

cached-IsFor :
    (key : Text) (reads : Bool) (file : Option Text) {v : Text}
    → cached key (read reads file) ≡ some v
    → IsFor key v file
unfolding IsFor
cached-IsFor key false file h = absurd (ground arith)
cached-IsFor key true none h = absurd (ground arith)
cached-IsFor key true (some t) h = (t, refl, fresh-some key (split_once t b'\n') h)

renew-IsFor :
    (a : Answers) (file : Option Text)
    → a.lands ≡ true
    → IsFor (stamp a.program) (renew (stamp a.program) a file).0 (renew (stamp a.program) a file).1
unfolding IsFor
renew-IsFor a file lands =
    let key = stamp a.program in
    let v = first_line a.output in
    (key ++ b'\n' ∷ v, rw lands refl, split_once-append b'\n' key v (stamp-line a.program))

version-IsFor :
    (a : Answers) (file : Option Text)
    → a.lands ≡ true
    → IsFor (stamp a.program) (version a file).0 (version a file).1
unfolding version IsFor
version-IsFor a file lands =
    let key = stamp a.program in
    elim (Option-cases (cached key (read a.reads file))) [
      | inl gone ↦ rw gone (renew-IsFor a file lands)
      | inr (v, hit) ↦ rw hit (cached-IsFor key a.reads file hit)
    ]

IsFor-version :
    (b : Answers) (key v : Text) (file : Option Text)
    → IsFor key v file
    → b.reads ≡ true
    → (version b file).0 ≡ (if str_eq key (stamp b.program) then v else first_line b.output)
unfolding version IsFor
IsFor-version b key v file (t, e, s) reads = elim (Bool-cases (str_eq key (stamp b.program))) [
  | inl same ↦ rw (reads, e, s, same) refl
  | inr other_program ↦ rw (reads, e, s, other_program) refl
]

-- Once the file has been written, `version` answers from it for the same size and time of the
-- program, and asks the program anew for any other.
version_again :
    (a b : Answers) (file : Option Text)
    → a.lands ≡ true
    → b.reads ≡ true
    → (version b (version a file).1).0 ≡ (
        if str_eq (stamp a.program) (stamp b.program)
        then (version a file).0
        else first_line b.output)
version_again a b file lands reads =
    IsFor-version b (stamp a.program) (version a file).0 (version a file).1
      (version-IsFor a file lands) reads
