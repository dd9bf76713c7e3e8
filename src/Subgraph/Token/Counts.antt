-- ===== src/Subgraph/Token/Counts.antt =====
-- What `handleTransfer` of nouns-erc-721.ts does to the governance entity.
use Prim.Native.String.{String}
use text.Mathlib.Text.{◌==◌}
use nouns_monorepo.Prelude.{
  Bool, true, false, ◌≡◌, refl, ◌&&◌, if◌then◌else◌, arith, ap, sym, ◌∙◌, Option-cases, inl, inr,
}
use nouns_monorepo.Prelude.Int.{ℤ, pos, ◌+ℤ◌, ◌-ℤ◌, ltb_ℤ, eqb_ℤ}
use nouns_monorepo.Subgraph.Schema.{Account, Governance}
use nouns_monorepo.Subgraph.Store.{Database, Store, LogError, log_error, negative_balance}
use nouns_monorepo.Subgraph.Helpers.{
  zero_address, governance_id, get_governance, account_of, delegate_of,
}
use nouns_monorepo.Subgraph.Helpers.Counts.{
  id-get_governance, get_governance-save, get_governance-delegate_of, get_governance-account_of,
}
use nouns_monorepo.Subgraph.Views.{balance}
use nouns_monorepo.Subgraph.Helpers.Reads.{account_of-account_at, account_of-load}
use nouns_monorepo.Subgraph.Token.Transfer.{
  Transfer, recount_holders, save_recounted, drop_represented, debit, leave, burn, add_represented,
  set_owner, arrive, handle_transfer,
}

-- The number of holders alone.
abbrev pub current : Governance → ℤ
current g = g.current_token_holders

-- The same recount, on the number alone.
unfoldable pub recount : ℤ → ℤ → ℤ → ℤ
recount before after n =
    if eqb_ℤ after (pos 0) && ltb_ℤ (pos 0) before
    then n -ℤ pos 1
    else if ltb_ℤ (pos 0) after && eqb_ℤ before (pos 0)
    then n +ℤ pos 1
    else n

current-recount_holders :
    (b a : ℤ) (g : Governance) → current (recount_holders b a g) ≡ recount b a (current g)
unfolding recount_holders recount
current-recount_holders b a g = ground arith

id-recount_holders : (b a : ℤ) (g : Governance) → (recount_holders b a g).id ≡ g.id
unfolding recount_holders
id-recount_holders b a g = ground arith

module _ {D : Database} where
  current-delegate_of :
      (id : String) (s : Store D)
      → current (get_governance (delegate_of id s).1) ≡ current (get_governance s)
  current-delegate_of id s = ground (arith, get_governance-delegate_of id s)

  current-drop_represented :
      (n : String) (h : Account) (s : Store D)
      → current (get_governance (drop_represented n h s)) ≡ current (get_governance s)
  unfolding drop_represented get_governance
  current-drop_represented n h s = elim (Option-cases h.delegate) [
    | inl e ↦ rw (e, drop_represented)
    | inr (d, e) ↦ rw (e, drop_represented) (current-delegate_of d s)
  ]

  current-add_represented :
      (n : String) (h : Account) (s : Store D)
      → current (get_governance (add_represented n h s)) ≡ current (get_governance s)
  unfolding add_represented get_governance
  current-add_represented n h s = current-delegate_of h.id s

  -- Where the copy `g` agrees with what is stored, the stored count moves with it.
  current-save_recounted :
      (b a : ℤ) (g : Governance) (s : Store D)
      → g.id ≡ governance_id
      → current (get_governance s) ≡ current g
      → current (get_governance (save_recounted b a g s)) ≡ recount b a (current g)
  unfolding save_recounted recount
  current-save_recounted b a g s h e = ground (
    arith,
    get_governance-save (recount_holders b a g) s,
    id-recount_holders b a g,
    current-recount_holders b a g,
  )

  -- The copy of the governance entity that a phase hands on agrees with the store it leaves.
  abbrev Agrees : Governance × Store D → Type 0
  Agrees (g, s) = (g.id ≡ governance_id) × (current (get_governance s) ≡ current g)

  get_governance-log_error :
      (c : Bool) (e : LogError) (s : Store D)
      → get_governance (if c then log_error e s else s) ≡ get_governance s
  unfolding get_governance
  get_governance-log_error true e s = refl
  get_governance-log_error false e s = refl

  debit-Agrees :
      (n : String) (h : Account) (g : Governance) (s : Store D)
      → Agrees (g, s)
      → Agrees (debit n h g s)
        × (current (debit n h g s).0
            ≡ recount h.token_balance_raw (h.token_balance_raw -ℤ pos 1) (current g))
  unfolding debit get_governance
  debit-Agrees n h g s a =
      let after = h.token_balance_raw -ℤ pos 1 in
      let moved = current-recount_holders h.token_balance_raw after g in
      let stored = current-save_recounted h.token_balance_raw after g _ a.0 (
        ap current (
          get_governance-log_error (ltb_ℤ after (pos 0)) (negative_balance h.id after)
            (drop_represented n h s))
        ∙ current-drop_represented n h s
        ∙ a.1) in
      ((id-recount_holders h.token_balance_raw after g ∙ a.0, stored ∙ sym moved), moved)

  leave-Agrees :
      (ev : Transfer) (h : Account) (g : Governance) (s : Store D)
      → Agrees (g, s)
      → Agrees (leave ev h g s)
        × (current (leave ev h g s).0 ≡ (
            if ev.from == zero_address
            then current g
            else recount h.token_balance_raw (h.token_balance_raw -ℤ pos 1) (current g)))
  unfolding leave
  leave-Agrees ev h g s a = ground (
    arith,
    get_governance-save (record g { total_token_holders = g.total_token_holders +ℤ pos 1 }) s,
    debit-Agrees ev.token_id h g s a,
  )

  burn-Agrees :
      (ev : Transfer) (g : Governance) (s : Store D)
      → Agrees (g, s)
      → Agrees (burn ev g s) × (current (burn ev g s).0 ≡ current g)
  unfolding burn
  burn-Agrees ev g s a = ground (
    arith,
    get_governance-save (record g { total_token_holders = g.total_token_holders -ℤ pos 1 }) s,
  )

  current-arrive :
      (ev : Transfer) (h : Account) (g : Governance) (s : Store D)
      → Agrees (g, s)
      → current (get_governance (arrive ev h g s))
        ≡ recount h.token_balance_raw (h.token_balance_raw +ℤ pos 1) (current g)
  unfolding arrive set_owner get_governance
  current-arrive ev h g s a =
      current-save_recounted h.token_balance_raw (h.token_balance_raw +ℤ pos 1) g
        (add_represented ev.token_id h s) a.0 (current-add_represented ev.token_id h s ∙ a.1)

  -- The count of holders follows the two balances: it falls when the sender's last noun leaves,
  -- and rises when the receiver's first noun arrives.
  pub handle_transfer-current :
      (ev : Transfer) (s : Store D)
      → current (get_governance (handle_transfer ev s))
        ≡ recount (balance s ev.to) (balance s ev.to +ℤ pos 1) (
            if ev.from == zero_address
            then current (get_governance s)
            else recount
                (balance s ev.from)
                (balance s ev.from -ℤ pos 1)
                (current (get_governance s)))
  unfolding handle_transfer
  handle_transfer-current ev s =
      let (h, s1) = account_of ev.from s in
      let (r, s2) = account_of ev.to s1 in
      let (g1, s3) = leave ev h (get_governance s2) s2 in
      let (g2, s4) = burn ev g1 s3 in
      let left = leave-Agrees ev h (get_governance s2) s2 (id-get_governance s2, refl) in
      let burnt = burn-Agrees ev g1 s3 left.0 in
      let arrived = current-arrive ev r g2 s4 burnt.0 in
      let same : current (get_governance s2) ≡ current (get_governance s) =
        ap current (get_governance-account_of ev.to s1 ∙ get_governance-account_of ev.from s) in
      let sender : h.token_balance_raw ≡ balance s ev.from =
        ap (λ (a : Account). a.token_balance_raw) (account_of-account_at ev.from s) in
      let receiver : r.token_balance_raw ≡ balance s ev.to =
        ap (λ (a : Account). a.token_balance_raw)
          (account_of-account_at ev.to s1 ∙ account_of-load ev.from s ev.to) in
      ground (arith, arrived, burnt.1, left.1, same, sender, receiver)
