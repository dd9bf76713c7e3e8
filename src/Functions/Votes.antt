-- ===== src/Functions/Votes.antt =====
-- packages/nouns-webapp/functions: the handlers v0-noun-owners, v0-noun-seeds, v0-noun-votes,
-- v0-proposal-votes, v0-is-noun-owner and v0-is-noun-delegate. The subgraph's answer is an argument.
use Prim.Native.String.{String}
use nouns_monorepo.Prelude.{
  ℕ, Bool, true, false, List, [], ◌∷◌, ◌++◌, if◌then◌else◌, ◌==◌, Option, none, some, map, ◌>>=◌,
}
use nouns_monorepo.Sdk.Text.{Text}
use nouns_monorepo.Functions.Nouns.{
  GqlNoun, NormalizedVote, NormalizedNoun, Seed, normalize_nouns, is_noun_owner, is_noun_delegate,
}

pub record Response (Body : Type 0) : Type 0 where
  pub status_code : ℕ
  pub allowed_origin : Option String
  pub content_type : Option String
  pub body : Body

-- An answer with the shared headers
abbrev pub ok_json : {Body : Type 0} → Body → Response Body
ok_json body = record {
  status_code = 200;
  allowed_origin = some "*";
  content_type = some "application/json";
  body = body;
}

pub record LiteNoun : Type 0 where
  pub lite_id : Option ℕ
  pub lite_owner : Text
  pub lite_delegated_to : Option Text

unfoldable pub lighten_noun : NormalizedNoun → LiteNoun
lighten_noun noun = record {
  lite_id = noun.id;
  lite_owner = noun.owner;
  lite_delegated_to = noun.delegated_to;
}

unfoldable pub noun_owners_handler : List GqlNoun → Response (List LiteNoun)
unfolding normalize_nouns lighten_noun
noun_owners_handler answer = ok_json (map lighten_noun (normalize_nouns answer))

pub record SeededNoun : Type 0 where
  pub seeded_id : Option ℕ
  pub noun_seed : Seed

unfoldable pub build_seeded_noun : NormalizedNoun → SeededNoun
build_seeded_noun noun = record { seeded_id = noun.id; noun_seed = noun.seed }

unfoldable pub noun_seeds_handler : List GqlNoun → Response (List SeededNoun)
unfolding normalize_nouns build_seeded_noun
noun_seeds_handler answer = ok_json (map build_seeded_noun (normalize_nouns answer))

pub record NounVote : Type 0 where
  pub voter_id : Option ℕ
  pub voter_owner : Text
  pub voter_delegated_to : Option Text
  pub voter_votes : List NormalizedVote

unfoldable pub build_noun_vote : NormalizedNoun → NounVote
build_noun_vote noun = record {
  voter_id = noun.id;
  voter_owner = noun.owner;
  voter_delegated_to = noun.delegated_to;
  voter_votes = noun.votes;
}

unfoldable pub noun_votes_handler : List GqlNoun → Response (List NounVote)
unfolding normalize_nouns build_noun_vote
noun_votes_handler answer = ok_json (map build_noun_vote (normalize_nouns answer))

pub record ProposalVote : Type 0 where
  pub noun_id : Option ℕ
  pub vote_owner : Text
  pub vote_delegated_to : Option Text
  pub vote_support : Option ℕ

-- An object: its entries in the order in which they came up
abbrev pub ProposalVotes : Type 0
ProposalVotes = List (Option ℕ × List ProposalVote)

abbrev pub same_key : Option ℕ → Option ℕ → Bool
same_key none none = true
same_key none (some k) = false
same_key (some j) none = false
same_key (some j) (some k) = j == k

unfoldable pub built_proposal_vote : NormalizedNoun → NormalizedVote → ProposalVote
built_proposal_vote noun vote = record {
  noun_id = noun.id;
  vote_owner = noun.owner;
  vote_delegated_to = noun.delegated_to;
  vote_support = vote.support_detailed;
}

-- `if (!acc[k]) acc[k] = []; acc[k].push(v)`
unfoldable pub push_vote : Option ℕ → ProposalVote → ProposalVotes → ProposalVotes
push_vote k v [] = (k, v ∷ []) ∷ []
push_vote k v ((j, vs) ∷ acc) =
    let rest = push_vote k v acc in if same_key j k then (j, vs ++ v ∷ []) ∷ acc else (j, vs) ∷ rest

unfoldable pub push_votes : NormalizedNoun → List NormalizedVote → ProposalVotes → ProposalVotes
unfolding push_vote built_proposal_vote
push_votes noun [] acc = acc
push_votes noun (vote ∷ votes) acc =
    push_votes noun votes (push_vote vote.proposal_id (built_proposal_vote noun vote) acc)

unfoldable pub reduce_nouns : List NormalizedNoun → ProposalVotes → ProposalVotes
unfolding push_votes
reduce_nouns [] acc = acc
reduce_nouns (noun ∷ nouns) acc = reduce_nouns nouns (push_votes noun noun.votes acc)

unfoldable pub reduce_proposal_votes : List NormalizedNoun → ProposalVotes
unfolding reduce_nouns
reduce_proposal_votes nouns = reduce_nouns nouns []

unfoldable pub proposal_votes_handler : List GqlNoun → Response ProposalVotes
unfolding normalize_nouns reduce_proposal_votes
proposal_votes_handler answer = ok_json (reduce_proposal_votes (normalize_nouns answer))

-- `none` where an address is not a number, which throws.
module _ (big_number_from : Text → Option ℕ) where
  unfoldable pub is_noun_owner_handler : Text → List GqlNoun → Option (Response Bool)
  unfolding normalize_nouns is_noun_owner
  is_noun_owner_handler address answer = do
    owns ← is_noun_owner big_number_from address (normalize_nouns answer)
    some (ok_json owns)

  unfoldable pub is_noun_delegate_handler : Text → List GqlNoun → Option (Response Bool)
  unfolding normalize_nouns is_noun_delegate
  is_noun_delegate_handler address answer = do
    represents ← is_noun_delegate big_number_from address (normalize_nouns answer)
    some (ok_json represents)
