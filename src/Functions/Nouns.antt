-- ===== src/Functions/Nouns.antt =====
-- packages/nouns-webapp/functions/utils.ts and theGraph.ts: the nouns of the subgraph's answer.
use nouns_monorepo.Prelude.{
  ℕ, ◌+◌, ◌-◌, ◌*◌, Bool, false, ◌&&◌, List, [], ◌∷◌, if◌then◌else◌, ltb, leb, ◌==◌, Option, none,
  some, length, ◌>>=◌,
}
use nouns_monorepo.Sdk.Text.{Text}

-- `Number(text)` of a text of decimal digits; `none` is NaN. An empty text counts as 0. (Signs,
-- fractions and other bases are left out: the subgraph's numbers have none.)
unfoldable pub number_more : ℕ → Text → Option ℕ
number_more acc [] = some acc
number_more acc (c ∷ t) =
    let rest = number_more (acc * 10 + (c - b'0')) t in
    if leb b'0' c && leb c b'9' then rest else none

unfoldable pub number : Text → Option ℕ
unfolding number_more
number t = number_more 0 t

-- The entities of the query's answer
pub record GqlVote : Type 0 where
  pub proposal : Text
  pub support : Text

pub record GqlSeed : Type 0 where
  pub gql_background : Text
  pub gql_body : Text
  pub gql_accessory : Text
  pub gql_head : Text
  pub gql_glasses : Text

pub record GqlNoun : Type 0 where
  pub gql_id : Text
  pub owner_id : Text
  pub delegate_id : Option Text
  pub gql_votes : List GqlVote
  pub gql_seed : GqlSeed

pub record NormalizedVote : Type 0 where
  pub proposal_id : Option ℕ
  pub support_detailed : Option ℕ

pub record Seed : Type 0 where
  pub background : Option ℕ
  pub body : Option ℕ
  pub accessory : Option ℕ
  pub head : Option ℕ
  pub glasses : Option ℕ

pub record NormalizedNoun : Type 0 where
  pub id : Option ℕ
  pub owner : Text
  pub delegated_to : Option Text
  pub votes : List NormalizedVote
  pub seed : Seed

unfoldable pub normalize_vote : GqlVote → NormalizedVote
unfolding number
normalize_vote vote = record {
  proposal_id = number vote.proposal;
  support_detailed = number vote.support;
}

unfoldable pub normalize_seed : GqlSeed → Seed
unfolding number
normalize_seed seed = record {
  background = number seed.gql_background;
  body = number seed.gql_body;
  glasses = number seed.gql_glasses;
  accessory = number seed.gql_accessory;
  head = number seed.gql_head;
}

unfoldable pub normalize_votes : List GqlVote → List NormalizedVote
unfolding normalize_vote
normalize_votes [] = []
normalize_votes (vote ∷ votes) = normalize_vote vote ∷ normalize_votes votes

unfoldable pub normalize_noun : GqlNoun → NormalizedNoun
unfolding number normalize_votes normalize_seed
normalize_noun noun = record {
  id = number noun.gql_id;
  owner = noun.owner_id;
  delegated_to = noun.delegate_id;
  votes = normalize_votes noun.gql_votes;
  seed = normalize_seed noun.gql_seed;
}

unfoldable pub normalize_nouns : List GqlNoun → List NormalizedNoun
unfolding normalize_noun
normalize_nouns [] = []
normalize_nouns (noun ∷ nouns) = normalize_noun noun ∷ normalize_nouns nouns

-- One step of `R.filter`: what the test says of a noun, and the rest of the nouns. A test that throws
-- is `none`.
abbrev pub keep_if :
    NormalizedNoun → Option Bool → Option (List NormalizedNoun) → Option (List NormalizedNoun)
keep_if noun none rest = none
keep_if noun (some passes) none = none
keep_if noun (some passes) (some rest) = some (if passes then noun ∷ rest else rest)

unfoldable pub filter_nouns :
    (NormalizedNoun → Option Bool) → List NormalizedNoun → Option (List NormalizedNoun)
filter_nouns test [] = some []
filter_nouns test (noun ∷ nouns) = keep_if noun (test noun) (filter_nouns test nouns)

abbrev pub has_some : Option (List NormalizedNoun) → Option Bool
has_some none = none
has_some (some nouns) = some (ltb 0 (length nouns))

-- `BigNumber.from` throws on a text that is not a number: `none`.
module _ (big_number_from : Text → Option ℕ) where
  unfoldable pub big_numbers_equal : Text → Text → Option Bool
  big_numbers_equal a b = do m ← big_number_from a; n ← big_number_from b; some (m == n)

  unfoldable pub owner_filter : Text → List NormalizedNoun → Option (List NormalizedNoun)
  unfolding big_numbers_equal filter_nouns
  owner_filter address nouns = filter_nouns (λ noun. big_numbers_equal address noun.owner) nouns

  unfoldable pub is_noun_owner : Text → List NormalizedNoun → Option Bool
  unfolding owner_filter
  is_noun_owner address nouns = has_some (owner_filter address nouns)

  -- A noun that is not delegated, or to an empty address, does not pass.
  unfoldable pub is_delegated_to : Text → Option Text → Option Bool
  unfolding big_numbers_equal
  is_delegated_to address none = some false
  is_delegated_to address (some []) = some false
  is_delegated_to address (some (c ∷ t)) = big_numbers_equal address (c ∷ t)

  unfoldable pub delegate_filter : Text → List NormalizedNoun → Option (List NormalizedNoun)
  unfolding is_delegated_to filter_nouns
  delegate_filter address nouns =
      filter_nouns (λ noun. is_delegated_to address noun.delegated_to) nouns

  unfoldable pub is_noun_delegate : Text → List NormalizedNoun → Option Bool
  unfolding delegate_filter
  is_noun_delegate address nouns = has_some (delegate_filter address nouns)
