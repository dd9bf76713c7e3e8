-- ===== src/Webapp/Filters.antt =====
-- packages/nouns-webapp/src/utils/logParsing.ts: the filters of event logs and their keys.
pub mod Keys
use nouns_monorepo.Prelude.{ℕ, Bool, List, [], ◌∷◌, ◌++◌, map, Option, none, some}
use nouns_monorepo.Sdk.Text.{Text}
use nouns_monorepo.Sdk.Text.Splits.{split, join}

-- An entry of `topics`: null, one topic or several of which one is to match.
pub data Topic : Type 0 where
  anything : Topic
  one_topic : Text → Topic
  one_of : List Text → Topic

pub record EventFilter : Type 0 where
  pub address : Option Text
  pub topics : Option (List Topic)

-- An empty topic counts as none.
unfoldable pub topic_key : Topic → Text
unfolding join
topic_key anything = 0 ∷ []
topic_key (one_topic []) = 0 ∷ []
topic_key (one_topic (c ∷ t)) = c ∷ t
topic_key (one_of ts) = join b';' ts

unfoldable pub topics_key : List Topic → List Text
unfolding topic_key
topics_key [] = []
topics_key (t ∷ ts) = topic_key t ∷ topics_key ts

unfoldable pub topics_part : Option (List Topic) → Text
unfolding join topics_key
topics_part none = []
topics_part (some ts) = join b'-' (topics_key ts)

unfoldable pub address_part : Option Text → Text
address_part none = []
address_part (some a) = a

unfoldable pub filter_to_key : EventFilter → Text
unfolding address_part topics_part
filter_to_key f = address_part f.address ++ b':' ∷ topics_part f.topics

abbrev pub topic_of_parts : List Text → Topic
topic_of_parts [] = one_of []
topic_of_parts (t ∷ []) = one_topic t
topic_of_parts (t ∷ u ∷ ts) = one_of (t ∷ u ∷ ts)

unfoldable pub key_topic : Text → Topic
unfolding split
key_topic t = topic_of_parts (split b';' t)

unfoldable pub key_topics : List Text → List Topic
unfolding key_topic
key_topics [] = []
key_topics (t ∷ ts) = key_topic t ∷ key_topics ts

abbrev pub key_address : Text → Option Text
key_address [] = none
key_address (c ∷ t) = some (c ∷ t)

-- The pieces of a key; without a second one, `pcs[1].split` throws.
unfoldable pub filter_of_pieces : List Text → Option EventFilter
unfolding split key_topics
filter_of_pieces [] = none
filter_of_pieces (a ∷ []) = none
filter_of_pieces (a ∷ r ∷ more) =
    some (record { address = key_address a; topics = some (key_topics (split b'-' r)) })

unfoldable pub key_to_filter : Text → Option EventFilter
unfolding split filter_of_pieces
key_to_filter key = filter_of_pieces (split b':' key)
