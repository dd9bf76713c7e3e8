-- ===== src/Subgraph/Token/Balances.antt =====
-- What `handleTransfer` does to the accounts: each phase by itself, then the whole handler.
use Prim.Native.String.{String}
use text.Mathlib.Text.{◌==◌}
use text.Mathlib.TextEquality.{eq_iff}
use nouns_monorepo.Prelude.{not, ◌≡◌, refl, ◌&&◌, if◌then◌else◌, arith, ap, Option-cases, inl, inr}
use nouns_monorepo.Prelude.Int.{ℤ}
use nouns_monorepo.Subgraph.Schema.{Account, Governance}
use nouns_monorepo.Subgraph.Store.{Database, Store}
use nouns_monorepo.Subgraph.Helpers.{zero_address, get_governance, account_of}
use nouns_monorepo.Subgraph.Helpers.Reads.{
  account_of-account_at, account_of-load, id-account_at, delegate_of_only,
}
use nouns_monorepo.Subgraph.Views.{account_at}
use nouns_monorepo.Subgraph.Token.Transfer.{
  Transfer, save_recounted, drop_represented, debit, leave, burn, arrive, debited, credited,
  add_represented, set_owner, handle_transfer,
}

id-debited : (n : String) (h : Account) → (debited n h).id ≡ h.id
unfolding debited
id-debited n h = refl

id-credited : (n : String) (h : Account) → (credited n h).id ≡ h.id
unfolding credited
id-credited n h = refl

module _ {D : Database} where
  pub drop_represented_accounts :
      (n : String) (h : Account) (s : Store D) → (drop_represented n h s).accounts ≡ s.accounts
  unfolding drop_represented
  drop_represented_accounts n h s = elim (Option-cases h.delegate) [
    | inl e ↦ rw (e, drop_represented)
    | inr (d, e) ↦
        rw (e, drop_represented) (ap (λ (t : Store D). t.accounts) (delegate_of_only d s))
  ]

  pub add_represented_accounts :
      (n : String) (h : Account) (s : Store D) → (add_represented n h s).accounts ≡ s.accounts
  unfolding add_represented
  add_represented_accounts n h s = ap (λ (t : Store D). t.accounts) (delegate_of_only h.id s)

  pub save_recounted_accounts :
      (b a : ℤ) (g : Governance) (s : Store D) → (save_recounted b a g s).accounts ≡ s.accounts
  unfolding save_recounted
  save_recounted_accounts b a g s = ground arith

  debit-accounts :
      (n : String) (h : Account) (g : Governance) (s : Store D)
      → (debit n h g s).1.accounts ≡ D.accounts.save s.accounts (debited n h)
  unfolding debit
  debit-accounts n h g s = grind (arith, save_recounted_accounts, drop_represented_accounts)

  arrive-accounts :
      (ev : Transfer) (h : Account) (g : Governance) (s : Store D)
      → (arrive ev h g s).accounts ≡ D.accounts.save s.accounts (credited ev.token_id h)
  unfolding arrive set_owner
  arrive-accounts ev h g s = simp (save_recounted_accounts, add_represented_accounts)

  burn-accounts :
      (ev : Transfer) (g : Governance) (s : Store D) → (burn ev g s).1.accounts ≡ s.accounts
  unfolding burn
  burn-accounts ev g s = ground arith

  leave-accounts :
      (ev : Transfer) (h : Account) (g : Governance) (s : Store D)
      → (leave ev h g s).1.accounts ≡ (
          if ev.from == zero_address
          then s.accounts
          else D.accounts.save s.accounts (debited ev.token_id h))
  unfolding leave
  leave-accounts ev h g s = ground (arith, debit-accounts ev.token_id h g s)

  leave-account_at :
      (ev : Transfer) (h : Account) (g : Governance) (s : Store D) (k : String)
      → account_at (leave ev h g s).1 k ≡ (
          if h.id == k && not (ev.from == zero_address)
          then debited ev.token_id h
          else account_at s k)
  leave-account_at ev h g s k = rw (leave-accounts ev h g s) (
      ground (
        arith,
        id-debited ev.token_id h,
        D.accounts.load-save s.accounts (debited ev.token_id h) k,
      ))

  arrive-account_at :
      (ev : Transfer) (h : Account) (g : Governance) (s : Store D) (k : String)
      → account_at (arrive ev h g s) k
        ≡ (if h.id == k then credited ev.token_id h else account_at s k)
  arrive-account_at ev h g s k = rw (arrive-accounts ev h g s) (
      ground (
        arith,
        id-credited ev.token_id h,
        D.accounts.load-save s.accounts (credited ev.token_id h) k,
      ))

  burn-account_at :
      (ev : Transfer) (g : Governance) (s : Store D) (k : String)
      → account_at (burn ev g s).1 k ≡ account_at s k
  burn-account_at ev g s k = rw (burn-accounts ev g s)

  -- The copy that a handler reads first is the row under that id.
  pub id-account_of : (id : String) (s : Store D) → (account_of id s).0.id ≡ id
  id-account_of id s = rw (account_of-account_at id s) (id-account_at id s id)

  -- The row of every account after a transfer, also of the two that take part: the receiver's is
  -- its row from before the transfer, credited; the sender's is debited, unless it is the zero
  -- address or the receiver.
  pub handle_transfer-account_at :
      (ev : Transfer) (s : Store D) (k : String)
      → account_at (handle_transfer ev s) k ≡ (
          if ev.to == k
          then credited ev.token_id (account_at s k)
          else if ev.from == k && not (ev.from == zero_address)
          then debited ev.token_id (account_at s k)
          else account_at s k)
  unfolding handle_transfer
  handle_transfer-account_at ev s k =
      let (h, s1) = account_of ev.from s in
      let (r, s2) = account_of ev.to s1 in
      let (g1, s3) = leave ev h (get_governance s2) s2 in
      let (g2, s4) = burn ev g1 s3 in
      ground (
        arith,
        arrive-account_at ev r g2 s4 k,
        burn-account_at ev g1 s3 k,
        leave-account_at ev h (get_governance s2) s2 k,
        account_of-account_at ev.from s,
        account_of-account_at ev.to s1,
        account_of-load ev.from s k,
        account_of-load ev.from s ev.to,
        account_of-load ev.to s1 k,
        id-account_of ev.from s,
        id-account_of ev.to s1,
        eq_iff ev.to k,
        eq_iff ev.from k,
      )
