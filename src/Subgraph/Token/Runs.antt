-- ===== src/Subgraph/Token/Runs.antt =====
-- Sequences of the token's events, in the order in which the chain can emit them.
use Prim.Native.String.{String}
use text.Mathlib.TextEquality.{eq_iff}
use nouns_monorepo.Prelude.{◌≡◌, some, arith, ap, ◌∙◌, Option-cases, inl, inr}
use nouns_monorepo.Subgraph.Schema.{Account}
use nouns_monorepo.Subgraph.Store.{Database, Store}
use nouns_monorepo.Subgraph.Helpers.{account_of, delegate_of}
use nouns_monorepo.Subgraph.Helpers.Reads.{account_of_only, delegate_of_only}
use nouns_monorepo.Subgraph.Views.{balance, holdings, owner}
use nouns_monorepo.Subgraph.Token.{
  NounCreated, DelegateChanged, DelegateVotesChanged, handle_noun_created, handle_delegate_changed,
  handle_delegate_votes_changed,
}
use nouns_monorepo.Subgraph.Token.Delegation.{delegate_changed-account_at}
use nouns_monorepo.Subgraph.Token.Transfer.{Transfer, handle_transfer}
use nouns_monorepo.Subgraph.Token.Ledger.{IsLedger, IsTransferable, handle_transfer-IsLedger}

-- One event after another; a transfer as the token contract allows it, between two addresses.
pub data Run {D : Database} (s : Store D) : Store D → Type 0 where
  start : Run s s
  transferred :
      {t : Store D} (ev : Transfer) → Run s t → IsTransferable ev t → Run s (handle_transfer ev t)
  created : {t : Store D} (ev : NounCreated) → Run s t → Run s (handle_noun_created ev t)
  delegated : {t : Store D} (ev : DelegateChanged) → Run s t → Run s (handle_delegate_changed ev t)
  votes_moved :
      {t : Store D} (ev : DelegateVotesChanged)
      → Run s t
      → Run s (handle_delegate_votes_changed ev t)

module _ {D : Database} where
  -- The ledger is read through the nouns and balances of the accounts and the nouns' owners.
  IsLedger-views :
      (s t : Store D)
      → IsLedger s
      → ((k : String) → holdings t k ≡ holdings s k)
      → ((k : String) → balance t k ≡ balance s k)
      → ((n : String) → owner t n ≡ owner s n)
      → IsLedger t
  IsLedger-views s t l hs bs os = record {
    held = λ k n. rw (hs k, os n) (l.held k n);
    balanced = λ k. rw (hs k, bs k) (l.balanced k);
  }

  created-owner :
      (ev : NounCreated) (s : Store D) (n : String) → owner (handle_noun_created ev s) n ≡ owner s n
  unfolding handle_noun_created
  created-owner ev s n = elim (Option-cases (D.nouns.load s.nouns ev.token_id)) [
    | inl e ↦ rw (e, handle_noun_created)
    | inr (x, e) ↦
        rw (e, handle_noun_created)
          (ground (
            arith,
            e,
            D.nouns.load-save s.nouns (record x { seed = some ev.token_id }) n,
            D.nouns.id-load s.nouns ev.token_id x e,
            eq_iff ev.token_id n,
          ))
  ]

  created-accounts :
      (ev : NounCreated) (s : Store D) → (handle_noun_created ev s).accounts ≡ s.accounts
  unfolding handle_noun_created
  created-accounts ev s = ground arith

  delegated-nouns :
      (ev : DelegateChanged) (s : Store D) → (handle_delegate_changed ev s).nouns ≡ s.nouns
  unfolding handle_delegate_changed
  delegated-nouns ev s =
      let s1 = (account_of ev.delegator s).1 in
      let s2 = (delegate_of ev.from_delegate s1).1 in
      ap (λ (t : Store D). t.nouns) (delegate_of_only ev.to_delegate s2)
      ∙ ap (λ (t : Store D). t.nouns) (delegate_of_only ev.from_delegate s1)
      ∙ ap (λ (t : Store D). t.nouns) (account_of_only ev.delegator s)

  votes_moved-only :
      (ev : DelegateVotesChanged) (s : Store D)
      → ((handle_delegate_votes_changed ev s).accounts ≡ s.accounts)
        × ((handle_delegate_votes_changed ev s).nouns ≡ s.nouns)
  unfolding handle_delegate_votes_changed
  votes_moved-only ev s = (
    ap (λ (t : Store D). t.accounts) (delegate_of_only ev.delegate s),
    ap (λ (t : Store D). t.nouns) (delegate_of_only ev.delegate s),
  )

  -- Every store that token events lead to from a ledger is a ledger, if each transfer is of a noun
  -- by its owner, or a mint, between two different addresses.
  pub Run-IsLedger : {s t : Store D} → IsLedger s → Run s t → IsLedger t
  Run-IsLedger l start = l
  Run-IsLedger l (transferred {t} ev r ok) = handle_transfer-IsLedger ev t ok (Run-IsLedger l r)
  Run-IsLedger l (created {t} ev r) =
      IsLedger-views t (handle_noun_created ev t) (Run-IsLedger l r)
        (λ k. rw (created-accounts ev t)) (λ k. rw (created-accounts ev t)) (created-owner ev t)
  Run-IsLedger l (delegated {t} ev r) =
      IsLedger-views t (handle_delegate_changed ev t) (Run-IsLedger l r)
        (λ k. ground (arith, ap (λ (a : Account). a.nouns) (delegate_changed-account_at ev t k)))
        (λ k.
          ground
            (arith, ap (λ (a : Account). a.token_balance_raw) (delegate_changed-account_at ev t k)))
        (λ n. rw (delegated-nouns ev t))
  Run-IsLedger l (votes_moved {t} ev r) =
      IsLedger-views t (handle_delegate_votes_changed ev t) (Run-IsLedger l r)
        (λ k. rw ((votes_moved-only ev t).0)) (λ k. rw ((votes_moved-only ev t).0))
        (λ n. rw ((votes_moved-only ev t).1))
