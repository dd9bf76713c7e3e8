-- ===== src/Subgraph/Dao/Ballots.antt =====
-- What `handleVoteCast` of nouns-dao.ts records, and the description of a proposal.
use Prim.Native.Char.{Char, code}
use Prim.Native.String.{String}
use text.Mathlib.Text.{◌==◌}
use text.Mathlib.TextEquality.{eq_iff}
use nouns_monorepo.Prelude.{
  Bool, true, false, ◌≡◌, refl, ◌&&◌, ◌||◌, if◌then◌else◌, arith, ap, ◌∙◌, Option-cases, Bool-cases,
  inl, inr, ◌==◌ as nat_eq,
}
use nouns_monorepo.Subgraph.Schema.{Proposal}
use nouns_monorepo.Subgraph.Store.{
  Database, Store, LogError, log_error, delegate_not_found_on_vote, save_vote,
}
use nouns_monorepo.Subgraph.Helpers.{proposal_of, vote_of, delegate_of}
use nouns_monorepo.Subgraph.Helpers.Reads.{delegate_of_only, delegate_of-delegate_at}
use nouns_monorepo.Subgraph.Views.{vote_at, delegate_at}
use nouns_monorepo.Subgraph.Dao.Proposals.{proposal_of_lem, id-proposal_at}
use nouns_monorepo.Subgraph.Dao.{
  VoteCast, check_delegate, activate, cast_vote, handle_vote_cast, vote_id, unescape_lines,
}

module _ {D : Database} where
  id-vote_at : (id : String) (s : Store D) → (vote_at s id).id ≡ id
  id-vote_at id s = elim (Option-cases (D.votes.load s.votes id)) [
    | inl e ↦ rw e
    | inr (v, e) ↦ rw e (D.votes.id-load s.votes id v e)
  ]

  vote_of_lem :
      (id : String) (s : Store D) → ((vote_of id s).0 ≡ vote_at s id) × ((vote_of id s).1 ≡ s)
  unfolding vote_of
  vote_of_lem id s = ground arith

  proposal_of_keeps :
      (id : String) (s : Store D)
      → ((proposal_of id s).1.votes ≡ s.votes) × ((proposal_of id s).1.delegates ≡ s.delegates)
  unfolding proposal_of
  proposal_of_keeps id s = ground arith

  check_delegate_keeps :
      (error : String → LogError) (id : String) (s : Store D)
      → ((check_delegate (λ i. log_error (error i)) id s).votes ≡ s.votes)
        × ((check_delegate (λ i. log_error (error i)) id s).delegates ≡ s.delegates)
  unfolding check_delegate
  check_delegate_keeps error id s = ground arith

  activate_votes : (p : Proposal) (s : Store D) → (activate p s).votes ≡ s.votes
  unfolding activate
  activate_votes p s = ground arith

  -- The vote under the voter's and the proposal's ids holds the event's ballot, with the nouns
  -- that the voter represents; it keeps its earlier reason if the event has none. No other vote
  -- changes.
  pub handle_vote_cast-vote_at :
      (ev : VoteCast) (s : Store D) (k : String)
      → vote_at (handle_vote_cast ev s) k ≡ (
          if vote_id ev.voter ev.proposal_id == k
          then cast_vote ev ev.proposal_id (delegate_at s ev.voter) (vote_at s k)
          else vote_at s k)
  unfolding handle_vote_cast
  handle_vote_cast-vote_at ev s k =
      let (p, s1) = proposal_of ev.proposal_id s in
      let (v, s2) = vote_of (vote_id ev.voter ev.proposal_id) s1 in
      let s3 =
        check_delegate (λ i. log_error (delegate_not_found_on_vote i ev.transaction_hash)) ev.voter
          s2 in
      let (d, s4) = delegate_of ev.voter s3 in
      ground (
        arith,
        activate_votes p (save_vote (cast_vote ev p.id d v) s4),
        D.votes.load-save s4.votes (cast_vote ev p.id d v) k,
        ap (λ (t : Store D). t.votes) (delegate_of_only ev.voter s3),
        delegate_of-delegate_at ev.voter s3,
        check_delegate_keeps (λ i. delegate_not_found_on_vote i ev.transaction_hash) ev.voter s2,
        vote_of_lem (vote_id ev.voter ev.proposal_id) s1,
        proposal_of_keeps ev.proposal_id s,
        proposal_of_lem ev.proposal_id s,
        id-proposal_at ev.proposal_id s,
        id-vote_at (vote_id ev.voter ev.proposal_id) s,
        eq_iff (vote_id ev.voter ev.proposal_id) k,
      )

-- A backslash with an `n` behind it, somewhere in the text.
abbrev pub is_escape : Char → Char → Bool
is_escape c d = nat_eq (code c) b'\\' && nat_eq (code d) b'n'

unfoldable pub has_escape : String → Bool
has_escape String.[] = false
has_escape (String.◌∷◌ c String.[]) = false
has_escape (String.◌∷◌ c (String.◌∷◌ d s)) = is_escape c d || has_escape (String.◌∷◌ d s)

-- A line break neither begins nor ends an escape.
has_escape-newline : (r : String) → has_escape (String.◌∷◌ "\n" r) ≡ has_escape r
unfolding has_escape
has_escape-newline String.[] = refl
has_escape-newline (String.◌∷◌ c r) = refl

has_escape-cons :
    (c d : Char) (s : String)
    → is_escape c d ≡ false
    → has_escape (String.◌∷◌ c (unescape_lines (String.◌∷◌ d s)))
      ≡ has_escape (unescape_lines (String.◌∷◌ d s))
unfolding has_escape unescape_lines
has_escape-cons c d String.[] h = rw h
has_escape-cons c d (String.◌∷◌ e s) h = elim (Bool-cases (is_escape d e)) [
  | inl _ ↦ ground (arith, h)
  | inr _ ↦ ground (arith, h)
]

has_escape_nil : has_escape (unescape_lines String.[]) ≡ false
unfolding has_escape unescape_lines
has_escape_nil = refl

has_escape_one : (c : Char) → has_escape (unescape_lines (String.◌∷◌ c String.[])) ≡ false
unfolding has_escape unescape_lines
has_escape_one c = refl

unescape_lines-escape :
    (c d : Char) (s : String)
    → is_escape c d ≡ true
    → unescape_lines (String.◌∷◌ c (String.◌∷◌ d s)) ≡ String.◌∷◌ "\n" (unescape_lines s)
unfolding unescape_lines
unescape_lines-escape c d s e = ground arith

unescape_lines-plain :
    (c d : Char) (s : String)
    → is_escape c d ≡ false
    → unescape_lines (String.◌∷◌ c (String.◌∷◌ d s))
      ≡ String.◌∷◌ c (unescape_lines (String.◌∷◌ d s))
unfolding unescape_lines
unescape_lines-plain c d s e = ground arith

-- After the replacement no escaped line break is left.
pub unescape_lines-has_escape : (t : String) → has_escape (unescape_lines t) ≡ false
unescape_lines-has_escape String.[] = has_escape_nil
unescape_lines-has_escape (String.◌∷◌ c String.[]) = has_escape_one c
unescape_lines-has_escape (String.◌∷◌ c (String.◌∷◌ d s)) = elim (Bool-cases (is_escape c d)) [
  | inl e ↦
      rw (unescape_lines-escape c d s e)
        (has_escape-newline (unescape_lines s) ∙ unescape_lines-has_escape s)
  | inr e ↦
      rw (unescape_lines-plain c d s e)
        (has_escape-cons c d s e ∙ unescape_lines-has_escape (String.◌∷◌ d s))
]
