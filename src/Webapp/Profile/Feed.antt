-- ===== src/Webapp/Profile/Feed.antt =====
-- What a noun's history shows.
use nouns_monorepo.Prelude.{ℕ, ◌≡◌, arith, false, List, ◌++◌, take-append-drop}
use nouns_monorepo.Webapp.Display.{is_nounder_noun}
use nouns_monorepo.Webapp.Proposals.{Proposal}
use nouns_monorepo.Webapp.Profile.{next_noun_id_for_query, reverse, above_fold, below_fold}

-- The two tables together show the proposals, the latest one first, and the first table has five
-- at most.
pub above_fold-below_fold :
    (proposals : List Proposal) → above_fold proposals ++ below_fold proposals ≡ reverse proposals
unfolding above_fold below_fold
above_fold-below_fold proposals = take-append-drop 5 (reverse proposals)

-- Never asks for an auction that does not exist
pub next_noun_id_for_query_lem :
    (noun_id : ℕ) → is_nounder_noun (next_noun_id_for_query noun_id) ≡ false
unfolding next_noun_id_for_query is_nounder_noun
next_noun_id_for_query_lem noun_id = ground arith
