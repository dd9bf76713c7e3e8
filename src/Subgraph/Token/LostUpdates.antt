-- ===== src/Subgraph/Token/LostUpdates.antt =====
-- Where a handler of nouns-erc-721.ts saves a copy that it read before another one was written: the
-- transfer of a noun to its own holder, the number of delegates, and a repeated delegation.
use text.Mathlib.TextPositions.{eq_refl}
use nouns_monorepo.Prelude.{ℕ, ◌≡◌, some, [], ◌∷◌, arith, ap, ◌∙◌}
use nouns_monorepo.Prelude.Int.{ℤ, pos, ◌+ℤ◌}
use nouns_monorepo.Prelude.Texts.{count, count-append}
use nouns_monorepo.Subgraph.Schema.{Account, Governance}
use nouns_monorepo.Subgraph.Store.{Database, Store}
use nouns_monorepo.Subgraph.Helpers.{governance_id, get_governance, account_of}
use nouns_monorepo.Subgraph.Helpers.Counts.{
  id-get_governance, get_governance-save, get_governance-account_of,
}
use nouns_monorepo.Subgraph.Helpers.Reads.{account_of-account_at, account_of-load}
use nouns_monorepo.Subgraph.Views.{balance, holdings, owner, delegate_at}
use nouns_monorepo.Subgraph.Token.{
  DelegateVotesChanged, handle_delegate_votes_changed, recount_delegates,
}
use nouns_monorepo.Subgraph.Token.Transfer.{
  Transfer, recount_holders, save_recounted, debit, leave, burn, add_represented, set_owner, arrive,
  handle_transfer,
}
use nouns_monorepo.Subgraph.Token.Votes.{votes_changed-get_governance, votes_changed-delegate_at}
use nouns_monorepo.Subgraph.Token.Ledger.{IsLedger, holdings_after, balance_after}

total-recount_delegates :
    (p n : ℕ) (g : Governance) → (recount_delegates p n g).total_delegates ≡ g.total_delegates
unfolding recount_delegates
total-recount_delegates p n g = ground arith

module _ {D : Database} where
  -- In a ledger, a holder that sends a noun that it owns to itself, as the token allows, ends up
  -- with the noun listed twice and a balance that is one too high: the debited copy is overwritten
  -- by the credited one.
  pub self_transfer_duplicates :
      (ev : Transfer) (s : Store D)
      → IsLedger s
      → ev.from ≡ ev.to
      → owner s ev.token_id ≡ some ev.from
      → (count ev.token_id (holdings (handle_transfer ev s) ev.to) ≡ 2)
        × (balance (handle_transfer ev s) ev.to ≡ balance s ev.to +ℤ pos 1)
  self_transfer_duplicates ev s ledger same owned = (
    ground (
      arith,
      ledger.held ev.to ev.token_id,
      holdings_after ev s ev.to,
      count-append ev.token_id (holdings s ev.to) (ev.token_id ∷ []),
      eq_refl ev.to,
      eq_refl ev.token_id,
    ),
    ground (arith, balance_after ev s ev.to, eq_refl ev.to),
  )

  leave_keeps :
      (ev : Transfer) (h : Account) (g : Governance) (s : Store D)
      → ((leave ev h g s).0.total_delegates ≡ g.total_delegates) × ((leave ev h g s).0.id ≡ g.id)
  unfolding leave debit recount_holders
  leave_keeps ev h g s = ground arith

  burn_keeps :
      (ev : Transfer) (g : Governance) (s : Store D)
      → ((burn ev g s).0.total_delegates ≡ g.total_delegates) × ((burn ev g s).0.id ≡ g.id)
  unfolding burn
  burn_keeps ev g s = ground arith

  -- For a first noun the copy is saved over whatever the store has counted since.
  overwritten_total :
      (before : ℤ) (g : Governance) (s : Store D)
      → g.id ≡ governance_id
      → before ≡ pos 0
      → (get_governance (save_recounted before (before +ℤ pos 1) g s)).total_delegates
        ≡ g.total_delegates
  unfolding save_recounted recount_holders ◌+ℤ◌
  overwritten_total before g s h e = rw e (
      ground (
        arith,
        get_governance-save (record g { current_token_holders = g.current_token_holders +ℤ pos 1 })
            s,
      ))

  arrive_total :
      (ev : Transfer) (h : Account) (g : Governance) (s : Store D)
      → g.id ≡ governance_id
      → h.token_balance_raw ≡ pos 0
      → (get_governance (arrive ev h g s)).total_delegates ≡ g.total_delegates
  unfolding arrive set_owner get_governance
  arrive_total ev h g s i e =
      overwritten_total h.token_balance_raw g (add_represented ev.token_id h s) i e

  -- When a noun reaches a holder that had none, the number of delegates stays as it was before the
  -- transfer, whether or not the handler has created (and counted) delegates on its way.
  pub first_noun_loses_delegates :
      (ev : Transfer) (s : Store D)
      → balance s ev.to ≡ pos 0
      → (get_governance (handle_transfer ev s)).total_delegates ≡ (get_governance s).total_delegates
  unfolding handle_transfer
  first_noun_loses_delegates ev s none_yet =
      let (h, s1) = account_of ev.from s in
      let (r, s2) = account_of ev.to s1 in
      let (g1, s3) = leave ev h (get_governance s2) s2 in
      let (g2, s4) = burn ev g1 s3 in
      let receiver : r.token_balance_raw ≡ balance s ev.to =
        ap (λ (a : Account). a.token_balance_raw)
          (account_of-account_at ev.to s1 ∙ account_of-load ev.from s ev.to) in
      let same = get_governance-account_of ev.to s1 ∙ get_governance-account_of ev.from s in
      let left = leave_keeps ev h (get_governance s2) s2 in
      let burnt = burn_keeps ev g1 s3 in
      arrive_total ev r g2 s4 (burnt.1 ∙ left.1 ∙ id-get_governance s2) (receiver ∙ none_yet)
      ∙ burnt.0
      ∙ left.0
      ∙ ap (λ (g : Governance). g.total_delegates) same

  -- After DelegateVotesChanged the number of delegates is the old one, although the delegate may
  -- just have been created, and the delegate has the votes of the event.
  pub votes_changed_loses_delegates :
      (ev : DelegateVotesChanged) (s : Store D)
      → ((get_governance (handle_delegate_votes_changed ev s)).total_delegates
          ≡ (get_governance s).total_delegates)
        × (delegate_at (handle_delegate_votes_changed ev s) ev.delegate
            ≡ record (delegate_at s ev.delegate) {
              delegated_votes_raw = pos ev.new_balance;
              delegated_votes = pos ev.new_balance;
            })
  votes_changed_loses_delegates ev s = (
    ap (λ (g : Governance). g.total_delegates) (votes_changed-get_governance ev s)
        ∙ total-recount_delegates ev.previous_balance ev.new_balance (get_governance s),
    rw (votes_changed-delegate_at ev s ev.delegate, eq_refl ev.delegate),
  )
