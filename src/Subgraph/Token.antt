-- ===== src/Subgraph/Token.antt =====
-- packages/nouns-subgraph/src/nouns-erc-721.ts: the handlers of the Nouns token's events. Each
-- local entity is a copy of the stored row, as in the source: a save writes the copy back whole.
pub mod Transfer
pub mod Balances
pub mod Ledger
pub mod Counts
pub mod Votes
pub mod Delegation
pub mod Runs
pub mod LostUpdates
use Prim.Native.String.{String}
use text.Mathlib.Text.{◌==◌}
use nouns_monorepo.Prelude.{
  ℕ, ◌^◌, Bool, true, false, ◌&&◌, Option, none, some, List, [], ◌∷◌, ◌++◌, if◌then◌else◌,
}
use nouns_monorepo.Prelude.Int.{ℤ, pos, negsuc, ◌+ℤ◌, ◌-ℤ◌, ltb_ℤ, eqb_ℤ}
use nouns_monorepo.Prelude.Texts.{without, without_all}
use nouns_monorepo.Subgraph.Schema.{Seed, Noun, Account, Delegate, Governance}
use nouns_monorepo.Subgraph.Store.{
  Database, Store, save_account, save_delegate, save_governance, save_noun, save_seed, log_error,
  noun_not_found_on_created, negative_balance,
}
use nouns_monorepo.Subgraph.Helpers.{zero_address, get_governance, account_of, delegate_of}

pub record NounCreated : Type 0 where
  pub token_id : String
  pub background : ℕ
  pub body : ℕ
  pub accessory : ℕ
  pub head : ℕ
  pub glasses : ℕ
  pub transaction_hash : String

pub record DelegateChanged : Type 0 where
  pub delegator : String
  pub from_delegate : String
  pub to_delegate : String

pub record DelegateVotesChanged : Type 0 where
  pub delegate : String
  pub previous_balance : ℕ
  pub new_balance : ℕ

-- A sum of `i32` values with a step of one, which wraps.
unfoldable pub wrap_i32 : ℤ → ℤ
wrap_i32 n =
    if ltb_ℤ n (negsuc 2147483647)
    then n +ℤ pos 4294967296
    else if ltb_ℤ (pos 2147483647) n
    then n -ℤ pos 4294967296
    else n

-- The change of `currentDelegates`, by the two tests in turn.
unfoldable pub recount_delegates : ℕ → ℕ → Governance → Governance
recount_delegates previous new g =
    let g1 =
      if eqb_ℤ (pos previous) (pos 0) && ltb_ℤ (pos 0) (pos new)
      then record g { current_delegates = g.current_delegates +ℤ pos 1 }
      else g in
    if eqb_ℤ (pos new) (pos 0)
    then record g1 { current_delegates = g1.current_delegates -ℤ pos 1 }
    else g1

module _ {D : Database} where
  unfoldable pub handle_noun_created : NounCreated → Store D → Store D
  handle_noun_created ev s =
      let seed : Seed = record {
        id = ev.token_id;
        background = ev.background;
        body = ev.body;
        accessory = ev.accessory;
        head = ev.head;
        glasses = ev.glasses;
      } in
      let s1 = save_seed seed s in
      elim (D.nouns.load s1.nouns ev.token_id) [
        | none ↦ log_error (noun_not_found_on_created ev.token_id ev.transaction_hash) s1
        | some noun ↦ save_noun (record noun { seed = some seed.id }) s1
      ]

  unfoldable pub handle_delegate_changed : DelegateChanged → Store D → Store D
  handle_delegate_changed ev s =
      let (token_holder, s1) = account_of ev.delegator s in
      let (previous_delegate, s2) = delegate_of ev.from_delegate s1 in
      let (new_delegate, s3) = delegate_of ev.to_delegate s2 in
      let account_nouns = token_holder.nouns in
      let s4 = save_account (record token_holder { delegate = some new_delegate.id }) s3 in
      let previous' = record previous_delegate {
        token_holders_represented_amount =
            wrap_i32 (previous_delegate.token_holders_represented_amount -ℤ pos 1);
        nouns_represented = without_all account_nouns previous_delegate.nouns_represented;
      } in
      let new' = record new_delegate {
        token_holders_represented_amount =
            wrap_i32 (new_delegate.token_holders_represented_amount +ℤ pos 1);
        nouns_represented = new_delegate.nouns_represented ++ account_nouns;
      } in
      save_delegate new' (save_delegate previous' s4)

  -- The governance entity is read before the delegate is created, and saved after.
  unfoldable pub handle_delegate_votes_changed : DelegateVotesChanged → Store D → Store D
  handle_delegate_votes_changed ev s =
      let governance = get_governance s in
      let (delegate, s1) = delegate_of ev.delegate s in
      let votes_difference = pos ev.new_balance -ℤ pos ev.previous_balance in
      let s2 =
        save_delegate
          (record delegate {
            delegated_votes_raw = pos ev.new_balance;
            delegated_votes = pos ev.new_balance;
          })
          s1 in
      let g1 = recount_delegates ev.previous_balance ev.new_balance governance in
      let raw = g1.delegated_votes_raw +ℤ votes_difference in
      save_governance (record g1 { delegated_votes_raw = raw; delegated_votes = raw }) s2
