-- ===== src/Subgraph/Tests.antt =====
-- The subgraph's theorems at concrete stores and events, and the handlers run on the database of
-- function tables.
mod Events
use Prim.Native.String.{String}
use text.Mathlib.Text.{◌==◌}
use text.Mathlib.TextEquality.{eq_iff}
use nouns_monorepo.Prelude.{
  ℕ, ◌+◌, ◌≡◌, ◌≢◌, refl, true, false, not, ◌&&◌, Option, none, some, List, [], ◌∷◌, if◌then◌else◌,
  arith,
}
use nouns_monorepo.Prelude.Int.{ℤ, pos, ◌+ℤ◌, ◌-ℤ◌}
use nouns_monorepo.Prelude.Texts.{count, includes, without, without_all}
use nouns_monorepo.Subgraph.Schema.{
  Auction, Noun, Delegate, pending, active, queued, ProposalStatus,
}
use nouns_monorepo.Subgraph.Store.{Store, auction_not_found_on_bid}
use nouns_monorepo.Subgraph.Memory.{memory, empty_store}
use nouns_monorepo.Subgraph.Helpers.{
  zero_address, get_governance, get_or_create_account, get_or_create_delegate, account_of,
  delegate_of, count_delegate, proposal_of, vote_of, is_none,
}
use nouns_monorepo.Subgraph.Views.{
  account_at, delegate_at, proposal_at, vote_at, balance, holdings, owner, owned_by,
}
use nouns_monorepo.Subgraph.Token.{
  DelegateChanged, DelegateVotesChanged, handle_delegate_changed, handle_delegate_votes_changed,
  recount_delegates, wrap_i32,
}
use nouns_monorepo.Subgraph.Token.Transfer.{
  Transfer, debited, credited, recount_holders, save_recounted, drop_represented, debit, leave,
  burn, add_represented, set_owner, arrive, handle_transfer,
}
use nouns_monorepo.Subgraph.Token.Balances.{handle_transfer-account_at}
use nouns_monorepo.Subgraph.Token.Ledger.{
  IsLedger, IsTransferable, handle_transfer-owner, handle_transfer-IsLedger,
}
use nouns_monorepo.Subgraph.Token.Counts.{current, recount, handle_transfer-current}
use nouns_monorepo.Subgraph.Token.Votes.{IsTallied, votes_of, votes_changed-IsTallied, with_votes}
use nouns_monorepo.Subgraph.Token.Delegation.{delegate_changed_moves, redelegation_duplicates}
use nouns_monorepo.Subgraph.Token.Runs.{Run, start, transferred, delegated, Run-IsLedger}
use nouns_monorepo.Subgraph.Token.LostUpdates.{
  self_transfer_duplicates, first_noun_loses_delegates, votes_changed_loses_delegates,
}

-- What a test of the token's handlers computes with.
token_code : Unit {0}
unfolding handle_transfer leave burn arrive debit debited credited save_recounted recount_holders
    drop_represented add_represented set_owner account_of delegate_of get_governance count_delegate
    without handle_delegate_changed handle_delegate_votes_changed recount_delegates wrap_i32
    without_all includes ◌+ℤ◌ ◌-ℤ◌ votes_of recount
token_code = tt

abbrev mint : Transfer
mint = record { from = zero_address; to = "0xa1"; token_id = "7" }

abbrev sale : Transfer
sale = record { from = "0xa1"; to = "0xb2"; token_id = "7" }

abbrev to_self : Transfer
to_self = record { from = "0xa1"; to = "0xa1"; token_id = "7" }

empty-IsLedger : IsLedger empty_store
empty-IsLedger = record { held = λ k n. refl; balanced = λ k. refl }

minted : Store memory
minted = handle_transfer mint empty_store

mint-IsTransferable : IsTransferable mint empty_store
mint-IsTransferable = (ground (arith, eq_iff zero_address "0xa1"), refl)

minted-IsLedger : IsLedger minted
unfolding minted
minted-IsLedger = handle_transfer-IsLedger mint empty_store mint-IsTransferable empty-IsLedger

sale-IsTransferable : IsTransferable sale minted
unfolding minted token_code
sale-IsTransferable = (ground (arith, eq_iff "0xa1" "0xb2"), refl)

-- A mint and a sale: one noun, one holder.
sale_test :
    (holdings (handle_transfer sale minted) "0xb2" ≡ "7" ∷ [])
    × (balance (handle_transfer sale minted) "0xa1" ≡ pos 0)
    × (current (get_governance (handle_transfer sale minted)) ≡ pos 1)
unfolding minted token_code
sale_test = (refl, refl, refl)

handle_transfer-IsLedger_example : IsLedger (handle_transfer sale minted)
handle_transfer-IsLedger_example =
    handle_transfer-IsLedger sale minted sale-IsTransferable minted-IsLedger

two_events : Run empty_store (handle_transfer sale minted)
unfolding minted
two_events = transferred sale (transferred mint start mint-IsTransferable) sale-IsTransferable

Run-IsLedger_example : IsLedger (handle_transfer sale minted)
Run-IsLedger_example = Run-IsLedger empty-IsLedger two_events

handle_transfer-current_example :
    current (get_governance (handle_transfer mint empty_store))
    ≡ recount (balance empty_store "0xa1") (balance empty_store "0xa1" +ℤ pos 1) (
        if zero_address == zero_address
        then current (get_governance empty_store)
        else recount
            (balance empty_store zero_address)
            (balance empty_store zero_address -ℤ pos 1)
            (current (get_governance empty_store)))
handle_transfer-current_example = handle_transfer-current mint empty_store

minted_owner : owner minted "7" ≡ some "0xa1"
unfolding minted token_code
minted_owner = refl

self_transfer_duplicates_example :
    (count "7" (holdings (handle_transfer to_self minted) "0xa1") ≡ 2)
    × (balance (handle_transfer to_self minted) "0xa1" ≡ balance minted "0xa1" +ℤ pos 1)
self_transfer_duplicates_example =
    self_transfer_duplicates to_self minted minted-IsLedger refl minted_owner

-- The mint has created a delegate, and none is counted.
minted_delegate : is_none (memory.delegates.load minted.delegates "0xa1") ≡ false
unfolding minted token_code
minted_delegate = refl

abbrev votes_event : DelegateVotesChanged
votes_event = record { delegate = "0xa1"; previous_balance = 0; new_balance = 3 }

empty-IsTallied : IsTallied ("0xb2" ∷ "0xa1" ∷ []) empty_store
unfolding token_code
empty-IsTallied = (refl, refl)

votes_changed-IsTallied_example :
    IsTallied ("0xb2" ∷ "0xa1" ∷ []) (handle_delegate_votes_changed votes_event empty_store)
votes_changed-IsTallied_example =
    votes_changed-IsTallied votes_event empty_store ("0xb2" ∷ "0xa1" ∷ []) empty-IsTallied refl refl

abbrev delegation : DelegateChanged
delegation = record { delegator = "0xa1"; from_delegate = "0xa1"; to_delegate = "0xb2" }

abbrev redelegation : DelegateChanged
redelegation = record { delegator = "0xa1"; from_delegate = "0xa1"; to_delegate = "0xa1" }

delegate_changed_moves_example :
    (includes (delegate_at (handle_delegate_changed delegation minted) "0xa1").nouns_represented "7"
      ≡ (includes (delegate_at minted "0xa1").nouns_represented "7"
          && not (includes (holdings minted "0xa1") "7")))
    × (count "7" (delegate_at (handle_delegate_changed delegation minted) "0xb2").nouns_represented
        ≡ count "7" (delegate_at minted "0xb2").nouns_represented
          + count "7" (holdings minted "0xa1"))
delegate_changed_moves_example =
    delegate_changed_moves delegation minted (ground (arith, eq_iff "0xa1" "0xb2")) "7"
