-- ===== src/App/Log/Bounded.antt =====
-- The size and the lines of the module's own log (`log`, native/smbctl/src/main.rs).
use android_smb_for_ksu.Common.{
  ℕ, zero, suc, ◌+◌, ◌≤◌, ◌≡◌, refl, sym, ◌⊎◌, inl, inr, arith, true, false, ◌&&◌, [], ◌∷◌, ◌++◌,
  Option, none, some, take, unwrap_or, all, Bool-cases, append-nil,
}
use android_smb_for_ksu.Text.{Text, chars, byte_len, is_digit}
use android_smb_for_ksu.Text.Lemmas.{byte_len-append}
use android_smb_for_ksu.Storage.Decimal.{show_from, show_from-digits}
use android_smb_for_ksu.App.Template.Lines.{newlines, newlines-append}
use android_smb_for_ksu.App.Log.{Logs, Answers, max_log_bytes, one_line, log_line, is_big, log}

-- what is in the file
abbrev pub content : Option Text → Text
content o = unwrap_or o []

byte_len-take : (n : ℕ) (s : Text) → byte_len (take n s) ≤ byte_len s
unfolding byte_len
byte_len-take zero s = omega arith
byte_len-take (suc n) [] = omega arith
byte_len-take (suc n) (c ∷ s) = omega (arith, byte_len-take n s)

newlines-take : (n : ℕ) (s : Text) → newlines (take n s) ≤ newlines s
unfolding newlines
newlines-take zero s = omega arith
newlines-take (suc n) [] = omega arith
newlines-take (suc n) (c ∷ s) = ground (arith, newlines-take n s)

newlines-nil : newlines [] ≡ 0
unfolding newlines
newlines-nil = refl

byte_len-nil : byte_len [] ≡ 0
unfolding byte_len
byte_len-nil = refl

not_big :
    (a : Answers) (o : Option Text)
    → (is_big a o && a.rename) ≡ false
    → (a.metadata && a.rename) ≡ true
    → byte_len (content o) ≤ max_log_bytes
not_big a none kept h = omega (arith, byte_len-nil)
not_big a (some t) kept h = ground arith

newlines-digits : (s : Text) → all (λ c. is_digit c) s ≡ true → newlines s ≡ 0
unfolding newlines
newlines-digits [] h = refl
newlines-digits (c ∷ s) h = ground (arith, newlines-digits s)

newlines-one_line : (s : Text) → newlines (one_line s) ≡ 0
unfolding newlines one_line
newlines-one_line [] = refl
newlines-one_line (c ∷ s) = ground (arith, newlines-one_line s)

newlines-log_line : (o : Option ℕ) (pid : ℕ) (s : Text) → newlines (log_line o pid s) ≡ 1
unfolding log_line newlines
newlines-log_line o pid s =
    let time = show_from 20 (unwrap_or o 0) in
    let number = show_from 10 pid in
    let end = one_line s ++ b'\n' ∷ [] in
    let label : newlines (chars " component=smbctl pid=") ≡ 0 = refl in
    let blank : newlines (b' ' ∷ end) ≡ newlines end = ground arith in
    let last : newlines (b'\n' ∷ []) ≡ 1 = refl in
    omega (
      arith,
      newlines-append time (chars " component=smbctl pid=" ++ (number ++ (b' ' ∷ end))),
      newlines-digits time (show_from-digits 20 (unwrap_or o 0)),
      newlines-append (chars " component=smbctl pid=") (number ++ (b' ' ∷ end)),
      newlines-append number (b' ' ∷ end),
      newlines-digits number (show_from-digits 10 pid),
      newlines-append (one_line s) (b'\n' ∷ []),
      newlines-one_line s,
    )

-- `log` adds one line at most, whatever the message is: the file has as many lines as before and at
-- most one more. It is never larger than 1 MiB and a line if the file's size can be read and the file
-- can be renamed. What it held is still there: before what is added, or in the older file.
pub log_lem :
    (pid : ℕ) (a : Answers) (s : Text) (d : Logs)
    → let d' = log pid a s d in
      (newlines (content d'.current) ≤ newlines (content d.current) + 1)
      × ((a.metadata && a.rename) ≡ true
          → byte_len (content d'.current) ≤ max_log_bytes + byte_len (log_line a.seconds pid s))
      × ((d'.older ≡ d.current)
          ⊎ ((t : Text) × (content d'.current ≡ content d.current ++ t) × (d'.older ≡ d.older)))
unfolding log
log_lem pid a s d =
    let line = log_line a.seconds pid s in
    let adds = newlines-append (content d.current) (take a.written line) in
    let few = newlines-take a.written line in
    let short = byte_len-take a.written line in
    let grows = byte_len-append (content d.current) (take a.written line) in
    let one = newlines-log_line a.seconds pid s in
    elim (Bool-cases (is_big a d.current && a.rename)) [
      | inl moved ↦ elim (Bool-cases a.opened) [
        | inl there ↦ rw (moved, there) (omega arith, λ h. omega arith, inl refl)
        | inr none_there ↦
            rw (moved, none_there) (omega (arith, newlines-nil), λ h. omega arith, inl refl)
      ]
      | inr kept ↦ elim (Bool-cases a.opened) [
        | inl there ↦
            rw (kept, there)
              (
                omega arith,
                λ h. omega (arith, not_big a d.current kept h),
                inr (take a.written line, refl, refl),
              )
        | inr none_there ↦
            rw (kept, none_there)
              (
                omega arith,
                λ h. omega (arith, not_big a d.current kept h),
                inr ([], sym (append-nil (content d.current)), refl),
              )
      ]
    ]
