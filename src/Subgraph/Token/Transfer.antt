-- ===== src/Subgraph/Token/Transfer.antt =====
-- `handleTransfer` of packages/nouns-subgraph/src/nouns-erc-721.ts, in the order of the source: both
-- holders and the governance entity are read first, and the copies are saved back one by one.
use Prim.Native.String.{String}
use text.Mathlib.Text.{◌==◌}
use nouns_monorepo.Prelude.{◌&&◌, ◌||◌, not, none, some, [], ◌∷◌, ◌++◌, if◌then◌else◌}
use nouns_monorepo.Prelude.Int.{ℤ, pos, ◌+ℤ◌, ◌-ℤ◌, ltb_ℤ, eqb_ℤ}
use nouns_monorepo.Prelude.Texts.{without}
use nouns_monorepo.Subgraph.Schema.{Noun, Account, Governance}
use nouns_monorepo.Subgraph.Store.{
  Database, Store, save_account, save_delegate, save_governance, save_noun, log_error,
  negative_balance,
}
use nouns_monorepo.Subgraph.Helpers.{zero_address, get_governance, account_of, delegate_of, or_else}

pub record Transfer : Type 0 where
  pub from : String
  pub to : String
  pub token_id : String

-- How the number of current holders moves when a balance does, by the two tests in turn.
unfoldable pub recount_holders : ℤ → ℤ → Governance → Governance
recount_holders before after g =
    if eqb_ℤ after (pos 0) && ltb_ℤ (pos 0) before
    then record g { current_token_holders = g.current_token_holders -ℤ pos 1 }
    else if ltb_ℤ (pos 0) after && eqb_ℤ before (pos 0)
    then record g { current_token_holders = g.current_token_holders +ℤ pos 1 }
    else g

-- The sender's copy as it is saved: a balance that falls to zero also loses its delegate.
unfoldable pub debited : String → Account → Account
debited noun_id holder =
    let before = holder.token_balance_raw in
    let after = before -ℤ pos 1 in
    record holder {
      token_balance_raw = after;
      token_balance = after;
      nouns = without noun_id holder.nouns;
      delegate = if eqb_ℤ after (pos 0) && ltb_ℤ (pos 0) before then none else holder.delegate;
    }

-- The receiver's copy as it is saved: a balance that leaves zero makes it its own delegate.
unfoldable pub credited : String → Account → Account
credited noun_id holder =
    let before = holder.token_balance_raw in
    let after = before +ℤ pos 1 in
    let held = holder.total_tokens_held_raw +ℤ pos 1 in
    let first_noun =
      not (eqb_ℤ after (pos 0) && ltb_ℤ (pos 0) before)
      && (ltb_ℤ (pos 0) after && eqb_ℤ before (pos 0)) in
    record holder {
      token_balance_raw = after;
      token_balance = after;
      total_tokens_held_raw = held;
      total_tokens_held = held;
      nouns = holder.nouns ++ noun_id ∷ [];
      delegate = if first_noun then some holder.id else holder.delegate;
    }

module _ {D : Database} where
  -- The governance entity is saved exactly where one of the two tests holds.
  unfoldable pub save_recounted : ℤ → ℤ → Governance → Store D → Store D
  save_recounted before after g s =
      if (eqb_ℤ after (pos 0) && ltb_ℤ (pos 0) before)
        || (ltb_ℤ (pos 0) after && eqb_ℤ before (pos 0))
      then save_governance (recount_holders before after g) s
      else s

  -- The noun leaves the delegate of its old holder.
  unfoldable pub drop_represented : String → Account → Store D → Store D
  drop_represented noun_id holder s = elim (holder.delegate) [
    | none ↦ s
    | some id ↦
        let (d, s1) = delegate_of id s in
        save_delegate (record d { nouns_represented = without noun_id d.nouns_represented }) s1
  ]

  -- The branch for a sender that is not the zero address. The row is saved last.
  unfoldable pub debit : String → Account → Governance → Store D → Governance × Store D
  debit noun_id holder g s =
      let before = holder.token_balance_raw in
      let after = before -ℤ pos 1 in
      let s1 = drop_represented noun_id holder s in
      let s2 =
        if ltb_ℤ after (pos 0) then log_error (negative_balance holder.id after) s1 else s1 in
      (
        recount_holders before after g,
        save_account (debited noun_id holder) (save_recounted before after g s2),
      )

  -- `fromHolder`: a mint counts a holder, any other transfer debits the sender.
  unfoldable pub leave : Transfer → Account → Governance → Store D → Governance × Store D
  leave ev holder g s =
      if ev.from == zero_address
      then (let g' = record g { total_token_holders = g.total_token_holders +ℤ pos 1 } in
          (g', save_governance g' s))
      else debit ev.token_id holder g s

  -- The test for a burn.
  unfoldable pub burn : Transfer → Governance → Store D → Governance × Store D
  burn ev g s =
      if ev.to == zero_address
      then (let g' = record g { total_token_holders = g.total_token_holders -ℤ pos 1 } in
          (g', save_governance g' s))
      else (g, s)

  -- The noun joins the delegate entity that has the receiver's own id.
  unfoldable pub add_represented : String → Account → Store D → Store D
  add_represented noun_id holder s =
      let (d, s1) = delegate_of holder.id s in
      save_delegate (record d { nouns_represented = d.nouns_represented ++ noun_id ∷ [] }) s1

  -- `noun.owner = toHolder.id`, on the stored noun or a new one.
  unfoldable pub set_owner : String → Account → Store D → Store D
  set_owner noun_id holder s =
      let fresh : Noun = record { id = noun_id; seed = none; owner = none } in
      let noun = or_else (D.nouns.load s.nouns noun_id) fresh in
      save_noun (record noun { owner = some holder.id }) s

  -- `toHolder`: its delegate entity, the count of holders, the noun's owner, and its own row.
  unfoldable pub arrive : Transfer → Account → Governance → Store D → Store D
  arrive ev holder g s =
      let before = holder.token_balance_raw in
      let s1 = add_represented ev.token_id holder s in
      let s2 = save_recounted before (before +ℤ pos 1) g s1 in
      save_account (credited ev.token_id holder) (set_owner ev.token_id holder s2)

  unfoldable pub handle_transfer : Transfer → Store D → Store D
  handle_transfer ev s =
      let (from_holder, s1) = account_of ev.from s in
      let (to_holder, s2) = account_of ev.to s1 in
      let (g1, s3) = leave ev from_holder (get_governance s2) s2 in
      let (g2, s4) = burn ev g1 s3 in arrive ev to_holder g2 s4
