-- ===== src/Functions/Tests.antt =====
-- The theorems about the serverless functions at concrete nouns and messages.
use nouns_monorepo.Prelude.{◌≡◌, true, List, [], ◌∷◌, Option, some, none}
use nouns_monorepo.Sdk.Text.{Text, codes}
use nouns_monorepo.Functions.Nouns.{GqlNoun, GqlVote, NormalizedNoun, normalize_noun}
use nouns_monorepo.Functions.Votes.{Response, reduce_proposal_votes}
use nouns_monorepo.Functions.Grouping.{votes_for, cast_on, votes_for-reduce_proposal_votes}
use nouns_monorepo.Functions.Signatures.{Signed, Answer}

abbrev vote : Text → Text → GqlVote
vote proposal support = record { proposal = proposal; support = support }

abbrev noun : Text → Text → List GqlVote → GqlNoun
noun id owner votes = record {
  gql_id = id;
  owner_id = owner;
  delegate_id = none;
  gql_votes = votes;
  gql_seed = record {
    gql_background = codes "0";
    gql_body = codes "1";
    gql_accessory = codes "2";
    gql_head = codes "3";
    gql_glasses = codes "4";
  };
}

abbrev nouns : List NormalizedNoun
nouns =
    normalize_noun (
      noun (codes "1") (codes "17")
        (vote (codes "5") (codes "1") ∷ vote (codes "6") (codes "0") ∷ []))
    ∷ normalize_noun (noun (codes "2") (codes "18") (vote (codes "5") (codes "2") ∷ []))
    ∷ []

votes_for-reduce_proposal_votes_example :
    votes_for (some 5) (reduce_proposal_votes nouns) ≡ cast_on (some 5) nouns
votes_for-reduce_proposal_votes_example = votes_for-reduce_proposal_votes (some 5) nouns

abbrev signed : Signed
signed = record {
  message = some (codes "hi");
  signature = some (codes "7");
  signer = some (codes "17");
}

abbrev parse : Text → Option Signed
parse t = some signed

abbrev recover : Option Text → Option Text → Option Text
recover message signature = some (codes "17")

abbrev reply : Response Answer
reply = record {
  status_code = 200;
  allowed_origin = some "*";
  content_type = some "application/json";
  body = Answer.verified (record {
    signed = signed;
    recovered_address = codes "17";
    valid_signature = true;
    participation = none;
  });
}
