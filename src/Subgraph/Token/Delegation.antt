-- ===== src/Subgraph/Token/Delegation.antt =====
-- What `handleDelegateChanged` of nouns-erc-721.ts does to the delegates and to the account.
use Prim.Native.String.{String}
use text.Mathlib.Text.{◌==◌}
use text.Mathlib.TextEquality.{eq_iff}
use text.Mathlib.TextPositions.{eq_refl}
use nouns_monorepo.Prelude.{◌+◌, not, ◌≡◌, ◌≢◌, ◌&&◌, some, ◌++◌, if◌then◌else◌, arith, ap, List}
use nouns_monorepo.Prelude.Int.{pos, ◌+ℤ◌, ◌-ℤ◌}
use nouns_monorepo.Prelude.Texts.{count, count-append, without_all, includes, includes-without_all}
use nouns_monorepo.Subgraph.Schema.{Account, Delegate}
use nouns_monorepo.Subgraph.Store.{Database, Store, save_delegate, save_account}
use nouns_monorepo.Subgraph.Helpers.{account_of, delegate_of}
use nouns_monorepo.Subgraph.Helpers.Reads.{
  account_of-account_at, account_of-load, account_of_only, delegate_of_only,
  delegate_of-delegate_at, delegate_of-load,
}
use nouns_monorepo.Subgraph.Views.{account_at, delegate_at, holdings}
use nouns_monorepo.Subgraph.Token.{DelegateChanged, handle_delegate_changed, wrap_i32}
use nouns_monorepo.Subgraph.Token.Votes.{delegate_at-save, id-delegate_of}
use nouns_monorepo.Subgraph.Token.Balances.{id-account_of}

-- The rows that the handler writes, from the rows that it read.
abbrev pub released : List String → Delegate → Delegate
released nouns d = record d {
  token_holders_represented_amount = wrap_i32 (d.token_holders_represented_amount -ℤ pos 1);
  nouns_represented = without_all nouns d.nouns_represented;
}

abbrev pub engaged : List String → Delegate → Delegate
engaged nouns d = record d {
  token_holders_represented_amount = wrap_i32 (d.token_holders_represented_amount +ℤ pos 1);
  nouns_represented = d.nouns_represented ++ nouns;
}

module _ {D : Database} (ev : DelegateChanged) (s : Store D) where
  account_of_delegates : (id k : String) → delegate_at (account_of id s).1 k ≡ delegate_at s k
  account_of_delegates id k = ap (λ (t : Store D). delegate_at t k) (account_of_only id s)

  -- The new delegate gains the account's nouns, the previous one loses them, no third one
  -- changes; where both are one delegate, only the gain is kept.
  pub delegate_changed-delegate_at :
      (k : String)
      → delegate_at (handle_delegate_changed ev s) k ≡ (
          if ev.to_delegate == k
          then engaged (holdings s ev.delegator) (delegate_at s k)
          else if ev.from_delegate == k
          then released (holdings s ev.delegator) (delegate_at s k)
          else delegate_at s k)
  unfolding handle_delegate_changed
  delegate_changed-delegate_at k =
      let (a, s1) = account_of ev.delegator s in
      let (p, s2) = delegate_of ev.from_delegate s1 in
      let (n, s3) = delegate_of ev.to_delegate s2 in
      let s4 = save_account (record a { delegate = some n.id }) s3 in
      let s5 = save_delegate (released a.nouns p) s4 in
      let nouns : a.nouns ≡ holdings s ev.delegator =
        ap (λ (x : Account). x.nouns) (account_of-account_at ev.delegator s) in
      ground (
        arith,
        nouns,
        delegate_at-save (engaged a.nouns n) s5 k,
        delegate_at-save (released a.nouns p) s4 k,
        delegate_of-delegate_at ev.from_delegate s1,
        delegate_of-delegate_at ev.to_delegate s2,
        delegate_of-load ev.from_delegate s1 k,
        delegate_of-load ev.from_delegate s1 ev.to_delegate,
        delegate_of-load ev.to_delegate s2 k,
        account_of_delegates ev.delegator k,
        account_of_delegates ev.delegator ev.from_delegate,
        account_of_delegates ev.delegator ev.to_delegate,
        id-delegate_of ev.from_delegate s1,
        id-delegate_of ev.to_delegate s2,
        eq_iff ev.from_delegate k,
        eq_iff ev.to_delegate k,
      )

  -- The delegator's account names the new delegate; every other account stays.
  pub delegate_changed-account_at :
      (k : String)
      → account_at (handle_delegate_changed ev s) k ≡ (
          if ev.delegator == k
          then record (account_at s k) { delegate = some ev.to_delegate }
          else account_at s k)
  unfolding handle_delegate_changed
  delegate_changed-account_at k =
      let (a, s1) = account_of ev.delegator s in
      let (p, s2) = delegate_of ev.from_delegate s1 in
      let (n, s3) = delegate_of ev.to_delegate s2 in
      ground (
        arith,
        D.accounts.load-save s3.accounts (record a { delegate = some n.id }) k,
        account_of-account_at ev.delegator s,
        account_of-load ev.delegator s k,
        ap (λ (t : Store D). t.accounts) (delegate_of_only ev.from_delegate s1),
        ap (λ (t : Store D). t.accounts) (delegate_of_only ev.to_delegate s2),
        id-account_of ev.delegator s,
        id-delegate_of ev.to_delegate s2,
        eq_iff ev.delegator k,
      )

  -- A delegation between two different delegates: no noun of the account is left with the previous
  -- one, the previous one keeps its other nouns, and the new one gains each noun as often as the
  -- account lists it.
  pub delegate_changed_moves :
      ev.from_delegate ≢ ev.to_delegate
      → (n : String)
      → (includes (delegate_at (handle_delegate_changed ev s) ev.from_delegate).nouns_represented n
          ≡ (includes (delegate_at s ev.from_delegate).nouns_represented n
              && not (includes (holdings s ev.delegator) n)))
        × (count n (delegate_at (handle_delegate_changed ev s) ev.to_delegate).nouns_represented
            ≡ count n (delegate_at s ev.to_delegate).nouns_represented
              + count n (holdings s ev.delegator))
  delegate_changed_moves ne n = (
    ground (
      arith,
      delegate_changed-delegate_at ev.from_delegate,
      includes-without_all (holdings s ev.delegator)
          (delegate_at s ev.from_delegate).nouns_represented n,
      eq_iff ev.to_delegate ev.from_delegate,
      eq_refl ev.from_delegate,
    ),
    ground (
      arith,
      delegate_changed-delegate_at ev.to_delegate,
      count-append n (delegate_at s ev.to_delegate).nouns_represented (holdings s ev.delegator),
      eq_refl ev.to_delegate,
    ),
  )

  -- A delegation to the delegate that the account already has, as the token allows, lists the
  -- account's nouns once more and counts one more holder, although nothing has changed.
  pub redelegation_duplicates :
      ev.from_delegate ≡ ev.to_delegate
      → (n : String)
      → (count n (delegate_at (handle_delegate_changed ev s) ev.to_delegate).nouns_represented
          ≡ count n (delegate_at s ev.to_delegate).nouns_represented
            + count n (holdings s ev.delegator))
        × ((delegate_at
              (handle_delegate_changed ev s)
              ev.to_delegate).token_holders_represented_amount
            ≡ wrap_i32 ((delegate_at s ev.to_delegate).token_holders_represented_amount +ℤ pos 1))
  redelegation_duplicates same n = (
    ground (
      arith,
      delegate_changed-delegate_at ev.to_delegate,
      count-append n (delegate_at s ev.to_delegate).nouns_represented (holdings s ev.delegator),
      eq_refl ev.to_delegate,
    ),
    ground (arith, delegate_changed-delegate_at ev.to_delegate, eq_refl ev.to_delegate),
  )
