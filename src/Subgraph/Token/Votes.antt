-- ===== src/Subgraph/Token/Votes.antt =====
-- What the two delegation handlers of nouns-erc-721.ts do to the delegates, and the tally of the
-- delegated votes in the governance entity.
use Prim.Native.String.{String}
use text.Mathlib.Text.{◌==◌}
use text.Mathlib.TextEquality.{eq_iff}
use nouns_monorepo.Prelude.{
  ℕ, true, ◌≡◌, refl, [], ◌∷◌, if◌then◌else◌, arith, ◌∙◌, Bool-cases, inl, inr, List,
}
use nouns_monorepo.Prelude.Int.{ℤ, pos, ◌+ℤ◌, ◌-ℤ◌, int_laws, add_regroup, move_over}
use nouns_monorepo.Prelude.Texts.{count}
use nouns_monorepo.Subgraph.Schema.{Governance, Delegate}
use nouns_monorepo.Subgraph.Store.{Database, Store, save_delegate}
use nouns_monorepo.Subgraph.Helpers.{get_governance, delegate_of}
use nouns_monorepo.Subgraph.Helpers.Counts.{id-get_governance, get_governance-save}
use nouns_monorepo.Subgraph.Helpers.Reads.{
  delegate_of-delegate_at, delegate_of-load, id-delegate_at,
}
use nouns_monorepo.Subgraph.Views.{delegate_at}
use nouns_monorepo.Subgraph.Token.{
  DelegateVotesChanged, handle_delegate_votes_changed, recount_delegates,
}

module _ {D : Database} where
  pub delegate_at-save :
      (d : Delegate) (s : Store D) (k : String)
      → delegate_at (save_delegate d s) k ≡ (if d.id == k then d else delegate_at s k)
  delegate_at-save d s k = ground (arith, D.delegates.load-save s.delegates d k)

  pub id-delegate_of : (id : String) (s : Store D) → (delegate_of id s).0.id ≡ id
  id-delegate_of id s = rw (delegate_of-delegate_at id s) (id-delegate_at id s id)

-- What the handlers write over a delegate's row.
abbrev pub with_votes : ℕ → Delegate → Delegate
with_votes n d = record d { delegated_votes_raw = pos n; delegated_votes = pos n }

abbrev pub with_tally : ℤ → Governance → Governance
with_tally n g = record g { delegated_votes_raw = n; delegated_votes = n }

id-recount_delegates : (p n : ℕ) (g : Governance) → (recount_delegates p n g).id ≡ g.id
unfolding recount_delegates
id-recount_delegates p n g = ground arith

module _ {D : Database} (ev : DelegateVotesChanged) (s : Store D) where
  -- The event's delegate gets the new votes; no other delegate changes.
  pub votes_changed-delegate_at :
      (k : String)
      → delegate_at (handle_delegate_votes_changed ev s) k ≡ (
          if ev.delegate == k then with_votes ev.new_balance (delegate_at s k) else delegate_at s k)
  unfolding handle_delegate_votes_changed
  votes_changed-delegate_at k =
      let (d, s1) = delegate_of ev.delegate s in
      ground (
        arith,
        delegate_at-save (with_votes ev.new_balance d) s1 k,
        delegate_of-delegate_at ev.delegate s,
        delegate_of-load ev.delegate s k,
        id-delegate_of ev.delegate s,
        eq_iff ev.delegate k,
      )

  -- The governance entity, from the one before the event.
  pub votes_changed-get_governance : get_governance (handle_delegate_votes_changed ev s) ≡ (
      let g = recount_delegates ev.previous_balance ev.new_balance (get_governance s) in
      with_tally (g.delegated_votes_raw +ℤ (pos ev.new_balance -ℤ pos ev.previous_balance)) g)
  unfolding handle_delegate_votes_changed
  votes_changed-get_governance = get_governance-save _ _ (
      id-recount_delegates ev.previous_balance ev.new_balance (get_governance s)
      ∙ id-get_governance s)

raw-recount_delegates :
    (p n : ℕ) (g : Governance)
    → (recount_delegates p n g).delegated_votes_raw ≡ g.delegated_votes_raw
unfolding recount_delegates
raw-recount_delegates p n g = ground arith

-- The votes of the listed delegates together.
module _ {D : Database} where
  unfoldable pub votes_of : List String → Store D → ℤ
  votes_of [] s = pos 0
  votes_of (k ∷ ks) s = (delegate_at s k).delegated_votes_raw +ℤ votes_of ks s

  module _ (ev : DelegateVotesChanged) (s : Store D)
      (known : (delegate_at s ev.delegate).delegated_votes_raw ≡ pos ev.previous_balance) where
    votes_of_others :
        (ks : List String)
        → count ev.delegate ks ≡ 0
        → votes_of ks (handle_delegate_votes_changed ev s) ≡ votes_of ks s
    unfolding votes_of
    votes_of_others [] h = refl
    votes_of_others (k ∷ ks) h = ground (
      arith,
      votes_changed-delegate_at ev s k,
      votes_of_others ks,
      eq_iff k ev.delegate,
      eq_iff ev.delegate k,
    )

    votes_at :
        (k : String)
        → (delegate_at (handle_delegate_votes_changed ev s) k).delegated_votes_raw
          ≡ (if k == ev.delegate then pos ev.new_balance else (delegate_at s k).delegated_votes_raw)
    votes_at k =
        ground (arith, votes_changed-delegate_at ev s k, eq_iff k ev.delegate, eq_iff ev.delegate k)

    votes_before :
        (k : String)
        → (k == ev.delegate) ≡ true
        → (delegate_at s k).delegated_votes_raw ≡ pos ev.previous_balance
    votes_before k h = rw ((eq_iff k ev.delegate).0 h) known

    votes_of_changed :
        (ks : List String)
        → count ev.delegate ks ≡ 1
        → votes_of ks (handle_delegate_votes_changed ev s) +ℤ pos ev.previous_balance
          ≡ votes_of ks s +ℤ pos ev.new_balance
    unfolding votes_of
    votes_of_changed [] h = absurd (omega arith)
    votes_of_changed (k ∷ ks) h = elim (Bool-cases (k == ev.delegate)) [
      | inl e ↦
          let rest = votes_of_others ks (ground arith) in
          let here : (delegate_at (handle_delegate_votes_changed ev s) k).delegated_votes_raw
              ≡ pos ev.new_balance =
            votes_at k ∙ rw e in
          rw (here, rest, votes_before k e) (omega int_laws)
      | inr e ↦
          let rest = votes_of_changed ks (ground arith) in
          let here : (delegate_at (handle_delegate_votes_changed ev s) k).delegated_votes_raw
              ≡ (delegate_at s k).delegated_votes_raw =
            votes_at k ∙ rw e in
          rw here (add_regroup _ _ _ _ _ rest)
    ]

  -- The tally of the governance entity is the sum over a list of all delegates, each listed once.
  abbrev pub IsTallied : List String → Store D → Type 0
  IsTallied ks s =
      ((get_governance s).delegated_votes_raw ≡ votes_of ks s)
      × ((get_governance s).delegated_votes ≡ (get_governance s).delegated_votes_raw)

  -- Over a list of delegates that holds the event's delegate once: if the event tells the votes
  -- that the delegate had, the governance entity's tally stays the sum of all votes.
  pub votes_changed-IsTallied :
      (ev : DelegateVotesChanged) (s : Store D) (ks : List String)
      → IsTallied ks s
      → count ev.delegate ks ≡ 1
      → (delegate_at s ev.delegate).delegated_votes_raw ≡ pos ev.previous_balance
      → IsTallied ks (handle_delegate_votes_changed ev s)
  votes_changed-IsTallied ev s ks tally once known =
      let moved = votes_of_changed ev s known ks once in
      let kept = raw-recount_delegates ev.previous_balance ev.new_balance (get_governance s) in
      rw (votes_changed-get_governance ev s) (rw (kept, tally.0) (move_over _ _ _ _ moved), refl)
