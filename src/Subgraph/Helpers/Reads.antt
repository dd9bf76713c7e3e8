-- ===== src/Subgraph/Helpers/Reads.antt =====
-- What the store holds after a helper of utils/helpers.ts has run with its default arguments: the
-- entity that was asked for, and every other row as before.
use Prim.Native.String.{String}
use text.Mathlib.TextEquality.{eq_iff}
use nouns_monorepo.Prelude.{◌≡◌, arith, Option-cases, inl, inr}
use nouns_monorepo.Subgraph.Store.{Database, Store}
use nouns_monorepo.Subgraph.Helpers.{new_account, new_delegate, account_of, delegate_of}
use nouns_monorepo.Subgraph.Views.{account_at, delegate_at}

module _ {D : Database} (id : String) (s : Store D) where
  pub account_of-account_at : (account_of id s).0 ≡ account_at s id
  unfolding account_of
  account_of-account_at = ground arith

  pub account_of-load : (k : String) → account_at (account_of id s).1 k ≡ account_at s k
  unfolding account_of
  account_of-load k =
      ground (arith, eq_iff id k, D.accounts.load-save s.accounts (new_account id) k)

  pub id-account_at : (k : String) → (account_at s k).id ≡ k
  id-account_at k = elim (Option-cases (D.accounts.load s.accounts k)) [
    | inl e ↦ rw e
    | inr (a, e) ↦ rw e (D.accounts.id-load s.accounts k a e)
  ]

  -- Every other table is left alone.
  pub account_of_only : (account_of id s).1 ≡ record s { accounts = (account_of id s).1.accounts }
  unfolding account_of
  account_of_only = ground arith

  pub delegate_of-delegate_at : (delegate_of id s).0 ≡ delegate_at s id
  unfolding delegate_of
  delegate_of-delegate_at = ground arith

  pub delegate_of-load : (k : String) → delegate_at (delegate_of id s).1 k ≡ delegate_at s k
  unfolding delegate_of
  delegate_of-load k =
      ground (arith, eq_iff id k, D.delegates.load-save s.delegates (new_delegate id) k)

  pub id-delegate_at : (k : String) → (delegate_at s k).id ≡ k
  id-delegate_at k = elim (Option-cases (D.delegates.load s.delegates k)) [
    | inl e ↦ rw e
    | inr (d, e) ↦ rw e (D.delegates.id-load s.delegates k d e)
  ]

  -- A new delegate is counted in the governance entity; no third table changes.
  pub delegate_of_only : (delegate_of id s).1 ≡ record s {
    delegates = (delegate_of id s).1.delegates;
    governances = (delegate_of id s).1.governances;
  }
  unfolding delegate_of
  delegate_of_only = ground arith
