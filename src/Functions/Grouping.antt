-- ===== src/Functions/Grouping.antt =====
-- How v0-proposal-votes regroups the votes of the nouns.
use mathlib.Core.List.{append_assoc, append-nil}
use nouns_monorepo.Prelude.{
  ℕ, ◌≡◌, refl, Bool, true, false, List, [], ◌∷◌, ◌++◌, if◌then◌else◌, Option, arith, ap, sym, ◌∙◌,
  Bool-cases, inl, inr, ◌↔◌,
}
use nouns_monorepo.Functions.Nouns.{NormalizedVote, NormalizedNoun}
use nouns_monorepo.Functions.Votes.{
  ProposalVote, ProposalVotes, same_key, built_proposal_vote, push_vote, push_votes, reduce_nouns,
  reduce_proposal_votes,
}

-- `acc[k]`, no votes without an entry
unfoldable pub votes_for : Option ℕ → ProposalVotes → List ProposalVote
votes_for k [] = []
votes_for k ((j, vs) ∷ acc) = if same_key j k then vs else votes_for k acc

-- The votes on a proposal among those of a noun, and of nouns, in their order
unfoldable pub cast_by : Option ℕ → NormalizedNoun → List NormalizedVote → List ProposalVote
unfolding built_proposal_vote
cast_by k noun [] = []
cast_by k noun (vote ∷ votes) =
    let rest = cast_by k noun votes in
    if same_key vote.proposal_id k then built_proposal_vote noun vote ∷ rest else rest

unfoldable pub cast_on : Option ℕ → List NormalizedNoun → List ProposalVote
unfolding cast_by
cast_on k [] = []
cast_on k (noun ∷ nouns) = cast_by k noun noun.votes ++ cast_on k nouns

same_key_iff : (j k : Option ℕ) → (same_key j k ≡ true) ↔ (j ≡ k)
same_key_iff j k = ground arith

abbrev one_if : Bool → ProposalVote → List ProposalVote
one_if same v = if same then v ∷ [] else []

same_key_move : (i j k : Option ℕ) → same_key i j ≡ true → same_key j k ≡ same_key i k
same_key_move i j k h = ap (λ o. same_key o k) (sym ((same_key_iff i j).0 h))

same_key_apart :
    (i j k : Option ℕ) → same_key i j ≡ false → same_key i k ≡ true → same_key j k ≡ false
same_key_apart i j k n h = ground (arith, same_key_iff i j, same_key_iff i k, same_key_iff j k)

votes_for-push_vote :
    (k j : Option ℕ) (v : ProposalVote) (acc : ProposalVotes)
    → votes_for k (push_vote j v acc) ≡ votes_for k acc ++ one_if (same_key j k) v
unfolding votes_for push_vote
votes_for-push_vote k j v [] = refl
votes_for-push_vote k j v ((i, vs) ∷ acc) = elim (Bool-cases (same_key i j)) [
  | inl h ↦ elim (Bool-cases (same_key i k)) [
    | inl e ↦ rw (h, e, same_key_move i j k h, e) refl
    | inr e ↦ rw (h, e, same_key_move i j k h, e) (sym (append-nil (votes_for k acc)))
  ]
  | inr h ↦ elim (Bool-cases (same_key i k)) [
    | inl e ↦ rw (h, e, same_key_apart i j k h e) (sym (append-nil vs))
    | inr e ↦ rw (h, e) (votes_for-push_vote k j v acc)
  ]
]

cast_by-cons :
    (k : Option ℕ) (noun : NormalizedNoun) (vote : NormalizedVote) (votes : List NormalizedVote)
    → one_if (same_key vote.proposal_id k) (built_proposal_vote noun vote) ++ cast_by k noun votes
      ≡ cast_by k noun (vote ∷ votes)
unfolding cast_by
cast_by-cons k noun vote votes = elim (Bool-cases (same_key vote.proposal_id k)) [
  | inl h ↦ rw h refl
  | inr h ↦ rw h refl
]

votes_for-push_votes :
    (k : Option ℕ) (noun : NormalizedNoun) (votes : List NormalizedVote) (acc : ProposalVotes)
    → votes_for k (push_votes noun votes acc) ≡ votes_for k acc ++ cast_by k noun votes
unfolding push_votes cast_by
votes_for-push_votes k noun [] acc = sym (append-nil (votes_for k acc))
votes_for-push_votes k noun (vote ∷ votes) acc =
    let v : ProposalVote = built_proposal_vote noun vote in
    votes_for-push_votes k noun votes (push_vote vote.proposal_id v acc)
    ∙ ap (λ t. t ++ cast_by k noun votes) (votes_for-push_vote k vote.proposal_id v acc)
    ∙ append_assoc (votes_for k acc) (one_if (same_key vote.proposal_id k) v) (cast_by k noun votes)
    ∙ ap (λ t. votes_for k acc ++ t) (cast_by-cons k noun vote votes)

votes_for-reduce_nouns :
    (k : Option ℕ) (nouns : List NormalizedNoun) (acc : ProposalVotes)
    → votes_for k (reduce_nouns nouns acc) ≡ votes_for k acc ++ cast_on k nouns
unfolding reduce_nouns cast_on
votes_for-reduce_nouns k [] acc = sym (append-nil (votes_for k acc))
votes_for-reduce_nouns k (noun ∷ nouns) acc =
    votes_for-reduce_nouns k nouns (push_votes noun noun.votes acc)
    ∙ ap (λ t. t ++ cast_on k nouns) (votes_for-push_votes k noun noun.votes acc)
    ∙ append_assoc (votes_for k acc) (cast_by k noun noun.votes) (cast_on k nouns)

-- Under each proposal the reduction has exactly the votes on it, noun by noun in their order; a
-- proposal without votes has none.
pub votes_for-reduce_proposal_votes :
    (k : Option ℕ) (nouns : List NormalizedNoun)
    → votes_for k (reduce_proposal_votes nouns) ≡ cast_on k nouns
unfolding reduce_proposal_votes votes_for
votes_for-reduce_proposal_votes k nouns = votes_for-reduce_nouns k nouns []
