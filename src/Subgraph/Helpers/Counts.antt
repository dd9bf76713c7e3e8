-- ===== src/Subgraph/Helpers/Counts.antt =====
-- What the helpers of utils/helpers.ts do to the governance entity, and what is read back of it.
use Prim.Native.String.{String}
use text.Mathlib.Text.{◌==◌}
use text.Mathlib.TextEquality.{eq_iff}
use nouns_monorepo.Prelude.{not, ◌≡◌, refl, ◌&&◌, if◌then◌else◌, arith, Option-cases, inl, inr}
use nouns_monorepo.Prelude.Int.{pos, ◌+ℤ◌}
use nouns_monorepo.Subgraph.Schema.{Governance, Delegate}
use nouns_monorepo.Subgraph.Store.{Database, Store, save_governance, save_delegate}
use nouns_monorepo.Subgraph.Helpers.{
  zero_address, governance_id, is_none, new_delegate, get_governance, count_delegate, delegate_of,
  count_proposal, proposal_of, account_of,
}

-- A governance entity with one more delegate, or one more proposal.
abbrev pub with_delegate : Governance → Governance
with_delegate g = record g { total_delegates = g.total_delegates +ℤ pos 1 }

abbrev pub with_proposal : Governance → Governance
with_proposal g = record g { proposals = g.proposals +ℤ pos 1 }

module _ {D : Database} where
  pub id-get_governance : (s : Store D) → (get_governance s).id ≡ governance_id
  unfolding get_governance
  id-get_governance s = elim (Option-cases (D.governances.load s.governances governance_id)) [
    | inl e ↦ rw e
    | inr (g, e) ↦ rw e (D.governances.id-load s.governances governance_id g e)
  ]

  pub get_governance-save :
      (g : Governance) (s : Store D)
      → g.id ≡ governance_id
      → get_governance (save_governance g s) ≡ g
  unfolding get_governance
  get_governance-save g s h =
      ground
        (arith, D.governances.load-save s.governances g governance_id, eq_iff g.id governance_id)

  pub get_governance-count_delegate :
      (id : String) (s : Store D)
      → get_governance (count_delegate id s)
        ≡ (if id == zero_address then get_governance s else with_delegate (get_governance s))
  unfolding count_delegate
  get_governance-count_delegate id s =
      ground (arith, id-get_governance s, get_governance-save (with_delegate (get_governance s)) s)

  -- Only a change of the governance table is seen.
  get_governance-save_delegate :
      (s : Store D) (d : Delegate) → get_governance (save_delegate d s) ≡ get_governance s
  unfolding get_governance
  get_governance-save_delegate s d = refl

  -- A delegate that is new and not the zero address is counted.
  pub get_governance-delegate_of :
      (id : String) (s : Store D)
      → get_governance (delegate_of id s).1 ≡ (
          if is_none (D.delegates.load s.delegates id) && not (id == zero_address)
          then with_delegate (get_governance s)
          else get_governance s)
  unfolding delegate_of
  get_governance-delegate_of id s = ground (
    arith,
    get_governance-count_delegate id s,
    get_governance-save_delegate (count_delegate id s) (new_delegate id),
  )

  pub get_governance-proposal_of :
      (id : String) (s : Store D)
      → get_governance (proposal_of id s).1 ≡ (
          if is_none (D.proposals.load s.proposals id)
          then with_proposal (get_governance s)
          else get_governance s)
  unfolding proposal_of count_proposal
  get_governance-proposal_of id s =
      ground (arith, id-get_governance s, get_governance-save (with_proposal (get_governance s)) s)

  pub get_governance-account_of :
      (id : String) (s : Store D) → get_governance (account_of id s).1 ≡ get_governance s
  unfolding account_of get_governance
  get_governance-account_of id s = ground arith
