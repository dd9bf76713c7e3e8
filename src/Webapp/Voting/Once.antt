-- ===== src/Webapp/Voting/Once.antt =====
-- That components/VoteModal casts a vote once at a time.
use nouns_monorepo.Prelude.{
  ◌⊎◌, ◌≡◌, ◌≤◌, refl, arith, Bool, true, false, ◌&&◌, List, [], ◌∷◌, length, length-append,
  Bool-cases, inl, inr,
}
use nouns_monorepo.Webapp.Slices.Transactions.{is_mining}
use nouns_monorepo.Webapp.Voting.{
  VoteModal, Cast, Event, chosen, typed, submitted, changed, dismissed, hidden, submit,
  handle_vote_state_change, step, run, has_buttons,
}

-- Neither an outcome nor a dismissal
unfoldable pub all_waiting : List Event → Bool
all_waiting [] = true
all_waiting (chosen v ∷ events) = all_waiting events
all_waiting (typed t ∷ events) = all_waiting events
all_waiting (submitted ∷ events) = all_waiting events
all_waiting (changed tx ∷ events) = is_mining tx && all_waiting events
all_waiting (dismissed ∷ events) = false
all_waiting (hidden ∷ events) = all_waiting events

waiting_step :
    (e : Event) (m : VoteModal)
    → m.is_loading ≡ true
    → all_waiting (e ∷ []) ≡ true
    → ((step e m).1 ≡ []) × ((step e m).0.is_loading ≡ true)
unfolding step submit handle_vote_state_change all_waiting
waiting_step (chosen v) m l w = (refl, ground (arith, l))
waiting_step (typed t) m l w = (refl, ground (arith, l))
waiting_step submitted m l w = ground (arith, l)
waiting_step (changed tx) m l w = (refl, ground (arith, l, w))
waiting_step dismissed m l w = absurd (ground (arith, w))
waiting_step hidden m l w = (refl, l)

all_waiting-cons :
    (e : Event) (events : List Event)
    → all_waiting (e ∷ events) ≡ true
    → (all_waiting (e ∷ []) ≡ true) × (all_waiting events ≡ true)
unfolding all_waiting
all_waiting-cons e events w = ground (arith, w)

-- While a vote is loading nothing is cast before an outcome or a dismissal.
pub run-waiting :
    (events : List Event) (m : VoteModal)
    → m.is_loading ≡ true
    → all_waiting events ≡ true
    → run events m ≡ []
unfolding run
run-waiting [] m l w = refl
run-waiting (e ∷ events) m l w =
    let (w1, w2) = all_waiting-cons e events w in
    let (none_cast, still) = waiting_step e m l w1 in
    rw none_cast (run-waiting events (step e m).0 still w2)

abbrev is_single : List Cast → Bool
is_single (c ∷ []) = true
is_single _ = false

submit_casts :
    (m : VoteModal)
    → ((submit m).1 ≡ []) ⊎ ((is_single (submit m).1 ≡ true) × ((submit m).0.is_loading ≡ true))
unfolding submit
submit_casts m = ground arith

step_casts :
    (e : Event) (m : VoteModal)
    → ((step e m).1 ≡ []) ⊎ ((is_single (step e m).1 ≡ true) × ((step e m).0.is_loading ≡ true))
unfolding step
step_casts (chosen v) m = inl refl
step_casts (typed t) m = inl refl
step_casts submitted m = elim (Bool-cases (has_buttons m)) [
  | inl h ↦ rw h (submit_casts m)
  | inr h ↦ rw h (inl refl)
]
step_casts (changed tx) m = inl refl
step_casts dismissed m = inl refl
step_casts hidden m = inl refl

length_single : (casts : List Cast) → is_single casts ≡ true → length casts ≡ 1
length_single casts h = ground (arith, h)

-- However the modal is used, at most one vote is cast before its transaction has an outcome or the
-- modal is dismissed.
pub run_once :
    (events : List Event) (m : VoteModal) → all_waiting events ≡ true → length (run events m) ≤ 1
unfolding run
run_once [] m w = omega arith
run_once (e ∷ events) m w =
    let (w1, w2) = all_waiting-cons e events w in
    elim (step_casts e m) [
      | inl none_cast ↦ rw none_cast (run_once events (step e m).0 w2)
      | inr (single, loading) ↦
          rw (run-waiting events (step e m).0 loading w2)
            (omega (arith, length-append (step e m).1 [], length_single (step e m).1 single))
    ]
