-- ===== src/Subgraph/Token/Ledger.antt =====
-- The accounts of the subgraph's store against the nouns' owners, under `handleTransfer`.
use Prim.Native.String.{String}
use text.Mathlib.Text.{◌==◌}
use text.Mathlib.TextEquality.{eq_iff}
use nouns_monorepo.Prelude.{
  not, ◌≡◌, ◌≢◌, ◌&&◌, none, some, [], ◌∷◌, ◌++◌, if◌then◌else◌, arith, ap, ◌∙◌, length,
  length-append, Option-cases, inl, inr,
}
use nouns_monorepo.Prelude.Int.{ℤ, pos, ◌+ℤ◌, ◌-ℤ◌}
use nouns_monorepo.Prelude.Texts.{without, count, count-append, count-without, length-without}
use nouns_monorepo.Subgraph.Schema.{Account, Governance}
use nouns_monorepo.Subgraph.Store.{Database, Store}
use nouns_monorepo.Subgraph.Helpers.{zero_address, account_of}
use nouns_monorepo.Subgraph.Helpers.Reads.{account_of_only, delegate_of_only}
use nouns_monorepo.Subgraph.Views.{balance, holdings, owner, owned_by}
use nouns_monorepo.Subgraph.Token.Transfer.{
  Transfer, debited, credited, save_recounted, drop_represented, debit, leave, burn,
  add_represented, set_owner, arrive, handle_transfer,
}
use nouns_monorepo.Subgraph.Token.Balances.{handle_transfer-account_at, id-account_of}

module _ {D : Database} where
  drop_represented_nouns :
      (n : String) (h : Account) (s : Store D) → (drop_represented n h s).nouns ≡ s.nouns
  unfolding drop_represented
  drop_represented_nouns n h s = elim (Option-cases h.delegate) [
    | inl e ↦ rw (e, drop_represented)
    | inr (d, e) ↦ rw (e, drop_represented) (ap (λ (t : Store D). t.nouns) (delegate_of_only d s))
  ]

  save_recounted_nouns :
      (b a : ℤ) (g : Governance) (s : Store D) → (save_recounted b a g s).nouns ≡ s.nouns
  unfolding save_recounted
  save_recounted_nouns b a g s = ground arith

  leave-nouns :
      (ev : Transfer) (h : Account) (g : Governance) (s : Store D)
      → (leave ev h g s).1.nouns ≡ s.nouns
  unfolding leave debit
  leave-nouns ev h g s = grind (arith, save_recounted_nouns, drop_represented_nouns)

  burn-nouns : (ev : Transfer) (g : Governance) (s : Store D) → (burn ev g s).1.nouns ≡ s.nouns
  unfolding burn
  burn-nouns ev g s = ground arith

  add_represented_nouns :
      (n : String) (h : Account) (s : Store D) → (add_represented n h s).nouns ≡ s.nouns
  unfolding add_represented
  add_represented_nouns n h s = ap (λ (t : Store D). t.nouns) (delegate_of_only h.id s)

  owner-set_owner :
      (t : String) (h : Account) (s : Store D) (n : String)
      → owner (set_owner t h s) n ≡ (if t == n then some h.id else owner s n)
  unfolding set_owner
  owner-set_owner t h s n = elim (Option-cases (D.nouns.load s.nouns t)) [
    | inl e ↦ rw (e, D.nouns.load-save) (ground (arith, eq_iff t n))
    | inr (x, e) ↦
        rw (e, D.nouns.load-save) (ground (arith, eq_iff t n, D.nouns.id-load s.nouns t x e))
  ]

  owner-arrive :
      (ev : Transfer) (h : Account) (g : Governance) (s : Store D) (n : String)
      → owner (arrive ev h g s) n ≡ (if ev.token_id == n then some h.id else owner s n)
  unfolding arrive
  owner-arrive ev h g s n = simp (owner-set_owner, save_recounted_nouns, add_represented_nouns)

  account_of_nouns : (id : String) (s : Store D) → (account_of id s).1.nouns ≡ s.nouns
  account_of_nouns id s = ap (λ (t : Store D). t.nouns) (account_of_only id s)

  -- The transferred noun belongs to the receiver; no other noun changes hands.
  pub handle_transfer-owner :
      (ev : Transfer) (s : Store D) (n : String)
      → owner (handle_transfer ev s) n ≡ (if ev.token_id == n then some ev.to else owner s n)
  unfolding handle_transfer
  handle_transfer-owner ev s n =
      simp (owner-arrive, burn-nouns, leave-nouns, account_of_nouns, id-account_of)

module _ {D : Database} (ev : Transfer) (s : Store D) (k : String) where
  pub holdings_after : holdings (handle_transfer ev s) k ≡ (
      if ev.to == k
      then holdings s k ++ ev.token_id ∷ []
      else if ev.from == k && not (ev.from == zero_address)
      then without ev.token_id (holdings s k)
      else holdings s k)
  unfolding credited debited
  holdings_after = ap (λ (a : Account). a.nouns) (handle_transfer-account_at ev s k) ∙ ground arith

  pub balance_after : balance (handle_transfer ev s) k ≡ (
      if ev.to == k
      then balance s k +ℤ pos 1
      else if ev.from == k && not (ev.from == zero_address)
      then balance s k -ℤ pos 1
      else balance s k)
  unfolding credited debited
  balance_after =
      ap (λ (a : Account). a.token_balance_raw) (handle_transfer-account_at ev s k) ∙ ground arith

-- Every account lists each noun that it owns once and no other noun, and its balance is the
-- length of that list.
pub record IsLedger {D : Database} (s : Store D) : Type 0 where
  pub held : (k n : String) → count n (holdings s k) ≡ (if owned_by (owner s n) k then 1 else 0)
  pub balanced : (k : String) → balance s k ≡ pos (length (holdings s k))

-- What the token contract ensures of a Transfer event between two addresses: a mint is of a noun
-- that has no owner, any other transfer is by the owner.
abbrev pub IsTransferable : {D : Database} → Transfer → Store D → Type 0
IsTransferable ev s =
    (ev.from ≢ ev.to)
    × (owner s ev.token_id ≡ (if ev.from == zero_address then none else some ev.from))

module _ {D : Database} (ev : Transfer) (s : Store D) (valid : IsTransferable ev s)
    (ledger : IsLedger s) where
  held_after :
      (k n : String)
      → count n (holdings (handle_transfer ev s) k)
        ≡ (if owned_by (owner (handle_transfer ev s) n) k then 1 else 0)
  held_after k n =
      rw (holdings_after ev s k, handle_transfer-owner ev s n)
        (ground (
          arith,
          ledger.held k n,
          count-append n (holdings s k) (ev.token_id ∷ []),
          count-without ev.token_id n (holdings s k),
          eq_iff ev.to k,
          eq_iff ev.from k,
          eq_iff ev.token_id n,
          eq_iff ev.from zero_address,
        ))

  balanced_after :
      (k : String)
      → balance (handle_transfer ev s) k ≡ pos (length (holdings (handle_transfer ev s) k))
  unfolding ◌+ℤ◌ ◌-ℤ◌
  balanced_after k =
      rw (holdings_after ev s k, balance_after ev s k)
        (ground (
          arith,
          ledger.held k ev.token_id,
          ledger.balanced k,
          length-append (holdings s k) (ev.token_id ∷ []),
          length-without ev.token_id (holdings s k),
          eq_iff ev.from k,
          eq_iff ev.from zero_address,
        ))

  -- If the noun belongs to the sender, or to nobody on a mint, its transfer between two different
  -- addresses keeps the ledger: each account lists exactly the nouns that it owns, once each, and
  -- its balance is their number.
  pub handle_transfer-IsLedger : IsLedger (handle_transfer ev s)
  handle_transfer-IsLedger = record { held = held_after; balanced = balanced_after }
