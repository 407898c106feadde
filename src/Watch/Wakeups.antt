-- ===== src/Watch/Wakeups.antt =====
-- When the watcher (native/smbctl/src/watch.rs) sleeps, and what wakes it.
use android_smb_for_ksu.Common.{
  ℕ, ◌+◌, ◌-◌, ◌≤◌, ◌≡◌, refl, sym, subst, ◌∙◌, Bool, true, false, ◌&&◌, ◌||◌, some, arith, Result,
  Error, ok, err, Bool-cases, Option-cases, Result-cases, inl, inr, ◌⊎◌,
}
use android_smb_for_ksu.Text.{Text, str_eq}
use android_smb_for_ksu.Text.Lemmas.{str_eq_refl}
use android_smb_for_ksu.Watch.Loop.{
  Loop, observe, is_due, pass, pass_invalid, on_storage, poll_timeout, clamp, passed,
}
use android_smb_for_ksu.Watch.Run.{
  Watcher, Events, Answers, next, reconciles, look, polled, after_look, turn,
}

not_due :
    (l : Loop) (s : Text) (now : ℕ)
    → is_due l s now ≡ false
    → (str_eq s l.signature ≡ true) × (l.force ≡ false)
unfolding is_due
not_due l s now h = ground (arith)

-- a pass has seen its snapshot, and nothing forces the next one
pass-seen :
    (l : Loop) (s : Text) (now later : ℕ) (succeeds : Bool)
    → (str_eq s (pass l s now later succeeds).signature ≡ true)
      × ((pass l s now later succeeds).force ≡ false)
unfolding pass
pass-seen l s now later succeeds = elim (Bool-cases (is_due (observe l s) s now)) [
  | inl due ↦ rw due (str_eq_refl s, refl)
  | inr idle ↦ rw idle (not_due (observe l s) s now idle)
]

due-retry :
    (l : Loop) (s : Text) (t : ℕ)
    → str_eq s l.signature ≡ true
    → l.force ≡ false
    → is_due l s t ≡ passed l.retry t
unfolding is_due
due-retry l s t same free = rw (same, free) refl

clamp-ends : (now r : ℕ) → clamp (r - now) ≡ 1 ⊎ now + clamp (r - now) ≤ r
clamp-ends now r = grind arith

retry-ends :
    (l : Loop) (t now : ℕ)
    → passed l.retry t ≡ true
    → (r ms : ℕ) × (l.retry ≡ some r)
      × (r ≤ t)
      × (poll_timeout l now ≡ some ms)
      × (ms ≡ 1 ⊎ now + ms ≤ r)
unfolding poll_timeout
retry-ends l t now h = elim (Option-cases l.retry) [
  | inl e ↦ ground (arith, subst (λ o. passed o t ≡ true) e h)
  | inr (r, e) ↦ rw e (
    r,
    clamp (r - now),
    refl,
    ground (arith, subst (λ o. passed o t ≡ true) e h),
    refl,
    clamp-ends now r,
  )
]

look-pass :
    (w : Watcher) (a : Answers) (s : Text) {v : Watcher}
    → look w a (ok s) ≡ ok v
    → v.loop ≡ pass w.loop s a.now a.later a.succeeds
unfolding look
look-pass w a s h = elim (Bool-cases (reconciles w (ok s) a.now)) [
  | inl due ↦ elim (Result-cases a.pids) [ inl (cs, e) ↦ ground arith | inr (e', e) ↦ ground arith ]
  | inr idle ↦ ground arith
]

-- The watcher does not sleep past work. Behind a look at a snapshot, should the same snapshot become
-- due again at some time `t` without an event, a retry is planned for a time `r`, not after `t`, and
-- `poll` ends by itself: at `r` at the latest, or after a single millisecond.
pub look-sleeps :
    (w : Watcher) (a : Answers) (s : Text) (t : ℕ) {v : Watcher}
    → look w a (ok s) ≡ ok v
    → is_due v.loop s t ≡ true
    → (r ms : ℕ) × (v.loop.retry ≡ some r)
      × (r ≤ t)
      × (poll_timeout v.loop a.at_poll ≡ some ms)
      × (ms ≡ 1 ⊎ a.at_poll + ms ≤ r)
look-sleeps w a s t {v = v} h due =
    let run = look-pass w a s h in
    let (same, free) = pass-seen w.loop s a.now a.later a.succeeds in
    let same' = subst (λ l. str_eq s l.signature ≡ true) (sym run) same in
    let free' = subst (λ l. l.force ≡ false) (sym run) free in
    retry-ends v.loop t a.at_poll (sym (due-retry v.loop s t same' free') ∙ due)

forced : (v : Watcher) (s : Text) (t : ℕ) → v.loop.force ≡ true → reconciles v (ok s) t ≡ true
unfolding reconciles observe is_due
forced v s t h = ground arith

after_look-forces :
    (a : Answers) (r : Result Watcher) {ev : Events} {v : Watcher}
    → a.events ≡ ok ev
    → (ev.property || ev.dirs) ≡ true
    → ev.exited ≡ false
    → after_look a r ≡ next v
    → v.loop.force ≡ true
unfolding polled on_storage
after_look-forces a (err e) e₁ e₂ e₃ h = ground arith
after_look-forces a (ok w) {ev = ev} e₁ e₂ e₃ h = elim (Bool-cases (a.dirs && a.unlocked)) [
  | inl late ↦ ground arith
  | inr early ↦ elim (Bool-cases a.stopped_late) [
    | inl stop ↦ ground arith
    | inr on ↦ elim (Bool-cases ev.changes) [
      | inl more ↦ elim (Result-cases a.window) [
        | inl (u, e) ↦ ground arith
        | inr (f, e) ↦ ground arith
      ]
      | inr less ↦ ground arith
    ]
  ]
]

-- An event of the property of the storage or of its directories makes the next turn reconcile,
-- whatever the snapshot is by then, unless a server process has exited too.
turn-storage :
    (w : Watcher) (a : Answers) (s : Text) (t : ℕ) {ev : Events} {v : Watcher}
    → a.events ≡ ok ev
    → (ev.property || ev.dirs) ≡ true
    → ev.exited ≡ false
    → turn w a ≡ next v
    → reconciles v (ok s) t ≡ true
unfolding turn
turn-storage w a s t {v = v} e₁ e₂ e₃ h =
    let live : after_look a (look w a a.snapshot) ≡ next v = ground arith in
    forced v s t (after_look-forces a (look w a a.snapshot) e₁ e₂ e₃ live)

invalid-quiet :
    (l : Loop) (s : Text) (t : ℕ)
    → str_eq s l.signature ≡ true
    → is_due (observe (pass_invalid l) s) s t ≡ false
unfolding observe is_due pass_invalid
invalid-quiet l s t same = ground arith

after_look-quiet :
    (a : Answers) (w : Watcher) {ev : Events} {v : Watcher}
    → a.dirs ≡ false
    → a.events ≡ ok ev
    → (ev.property || ev.dirs) ≡ false
    → ev.exited ≡ false
    → after_look a (ok w) ≡ next v
    → v.loop ≡ w.loop
unfolding polled
after_look-quiet a w {ev = ev} e₁ e₂ e₃ e₄ h = elim (Bool-cases a.stopped_late) [
  | inl stop ↦ ground arith
  | inr on ↦ elim (Bool-cases ev.changes) [
    | inl more ↦ elim (Result-cases a.window) [
      | inl (u, e) ↦ ground arith
      | inr (f, e) ↦ ground arith
    ]
    | inr less ↦ ground arith
  ]
]

-- What is planned is dropped by a turn in which the configuration cannot be read and nothing else
-- happens: the snapshot that the watcher had seen before does not bring back a forced pass, as
-- behind a crash of the server, nor a retry.
pub turn-drops :
    (w : Watcher) (a : Answers) (s : Text) (t : ℕ) {e : Error} {ev : Events} {v : Watcher}
    → str_eq s w.loop.signature ≡ true
    → a.snapshot ≡ err e
    → a.dirs ≡ false
    → a.events ≡ ok ev
    → (ev.property || ev.dirs) ≡ false
    → ev.exited ≡ false
    → turn w a ≡ next v
    → reconciles v (ok s) t ≡ false
unfolding turn look
turn-drops w a s t {v = v} same e₁ e₂ e₃ e₄ e₅ h =
    let drop : Watcher = record { loop = pass_invalid w.loop; children = w.children } in
    let live : after_look a (ok drop) ≡ next v = ground arith in
    let kept = after_look-quiet a drop e₂ e₃ e₄ e₅ live in
    subst (λ l. is_due (observe l s) s t ≡ false) (sym kept) (invalid-quiet w.loop s t same)
