-- ===== src/Os/Terminate.antt =====
-- `terminate` of os.rs: SIGTERM to every process, a wait for their exits, SIGKILL to those left, and
-- a second wait. The kernel's answers are a script: the outcome of each signal, and the rounds of
-- each wait, up to the one at which the clock is past the deadline.
use android_smb_for_ksu.Common.{
  ℕ, ◌≡◌, refl, inl, inr, Bool, true, false, not, ◌&&◌, List, [], ◌∷◌, ◌++◌, map, arith, any,
  length, if◌then◌else◌, Result, Error, ok, err, ◌>>=◌, reject_if, ◌>>◌, sym, ap, zero, suc, ◌<◌,
  any-append, Result-cases, ◌∙◌,
}

-- `pidfd_send_signal`: sent, no such process, or another error
pub data Signal : Type 0 where
  sent gone failed : Signal

-- one round of a wait: which pidfds `poll` found readable (an interrupted call finds none), or its
-- error
pub data Round : Type 0 where
  polled : List Bool → Round
  poll_failed : Round

unfoldable pub send_terms : List Signal → Result (Unit {0})
send_terms [] = ok tt
send_terms (failed ∷ ss) = err Error.io
send_terms (sent ∷ ss) = send_terms ss
send_terms (gone ∷ ss) = send_terms ss

-- `if p.revents != 0 { p.fd = -1 }`; true is an fd that is still waited for
unfoldable pub settle : List Bool → List Bool → List Bool
settle [] ready = []
settle (p ∷ ps) [] = p ∷ ps
settle (p ∷ ps) (r ∷ rs) = (p && not r) ∷ settle ps rs

abbrev pub any_left : List Bool → Bool
any_left = any (λ p. p)

-- `while any left && now < deadline`: a script that ends is a clock past the deadline
unfoldable pub wait : List Bool → List Round → Result (List Bool)
unfolding settle
wait left [] = ok left
wait left (poll_failed ∷ rs) = if any_left left then err Error.io else ok left
wait left (polled ready ∷ rs) = elim (any_left left) [
  | false ↦ ok left
  | true ↦ wait (settle left ready) rs
]

abbrev pub waiting : List Signal → List Bool
waiting = map (λ s. true)

-- what `terminate` returns, and the processes that it sent SIGKILL
unfoldable pub terminate : List Signal → List Round → List Round → Result (List Bool)
terminate signals first second = do
  send_terms signals
  left ← wait (waiting signals) first
  left' ← wait left second
  reject_if (any_left left') Error.process_survived
  ok left

-- entry `i`, false behind the end
unfoldable pub at : List Bool → ℕ → Bool
at [] i = false
at (b ∷ bs) zero = b
at (b ∷ bs) (suc i) = at bs i

-- the round found the exit of process `i`
unfoldable pub saw_exit : ℕ → Round → Bool
unfolding at
saw_exit i (polled ready) = at ready i
saw_exit i poll_failed = false

at-settle :
    (left ready : List Bool) (i : ℕ) → at (settle left ready) i ≡ (at left i && not (at ready i))
unfolding at settle
at-settle [] ready i = refl
at-settle (p ∷ ps) [] i = ground arith
at-settle (p ∷ ps) (r ∷ rs) zero = refl
at-settle (p ∷ ps) (r ∷ rs) (suc i) = at-settle ps rs i

at-any_left : (left : List Bool) (i : ℕ) → any_left left ≡ false → at left i ≡ false
unfolding at
at-any_left [] i h = refl
at-any_left (p ∷ ps) zero h = ground arith
at-any_left (p ∷ ps) (suc i) h = at-any_left ps i (ground arith)

at-waiting : (ss : List Signal) (i : ℕ) → i < length ss → at (waiting ss) i ≡ true
unfolding at
at-waiting [] i h = absurd (omega arith)
at-waiting (s ∷ ss) zero h = refl
at-waiting (s ∷ ss) (suc i) h = at-waiting ss i (omega arith)

wait_settled :
    (rs : List Round) (left l : List Bool) (i : ℕ)
    → wait left rs ≡ ok l
    → at left i ≡ false
    → at l i ≡ false
unfolding wait
wait_settled [] left l i h a = ground arith
wait_settled (poll_failed ∷ rs) left l i h a = ground arith
wait_settled (polled ready ∷ rs) left l i h a =
    ground (arith, wait_settled rs (settle left ready) l i, at-settle left ready i)

-- After a wait, a process that was waited for is left exactly if no round saw its exit.
wait_left :
    (rs : List Round) (left l : List Bool) (i : ℕ)
    → wait left rs ≡ ok l
    → at left i ≡ true
    → at l i ≡ not (any (λ r. saw_exit i r) rs)
unfolding wait saw_exit
wait_left [] left l i h a = ground arith
wait_left (poll_failed ∷ rs) left l i h a = ground (arith, at-any_left left i)
wait_left (polled ready ∷ rs) left l i h a = ground (
  arith,
  at-any_left left i,
  at-settle left ready i,
  wait_left rs (settle left ready) l i,
  wait_settled rs (settle left ready) l i,
)

terminate-parts :
    (signals : List Signal) (first second : List Round) {killed : List Bool}
    → terminate signals first second ≡ ok killed
    → (wait (waiting signals) first ≡ ok killed)
      × ((l : List Bool) × (wait killed second ≡ ok l) × (any_left l ≡ false))
unfolding terminate
terminate-parts signals first second {killed} h =
    elim (Result-cases (wait (waiting signals) first)) [
      | inr (e, bad) ↦ absurd (ground arith)
      | inl (left, one) ↦ elim (Result-cases (wait left second)) [
        | inr (e, bad) ↦ absurd (ground arith)
        | inl (l, two) ↦
            let same : left ≡ killed = ground arith in
            (one ∙ ap ok same, (l, ap (λ x. wait x second) (sym same) ∙ two, ground arith))
      ]
    ]

-- A successful `terminate` has seen the exit of every process, in one of the two waits, and has
-- sent SIGKILL to exactly those whose exit the first wait did not see.
pub terminate_all_exited :
    (signals : List Signal) (first second : List Round) {killed : List Bool} (i : ℕ)
    → terminate signals first second ≡ ok killed
    → i < length signals
    → (any (λ r. saw_exit i r) (first ++ second) ≡ true)
      × (at killed i ≡ not (any (λ r. saw_exit i r) first))
terminate_all_exited signals first second {killed} i h lt =
    let (one, (l, two, none_left)) = terminate-parts signals first second h in
    let kill = wait_left first (waiting signals) killed i one (at-waiting signals i lt) in
    let gone = at-any_left l i none_left in
    (
      ground (
        arith,
        any-append (λ r. saw_exit i r) first second,
        wait_left second killed l i two,
        kill,
        gone,
      ),
      kill,
    )
