-- ===== src/Webapp/Filters/Keys.antt =====
-- What filterToKey and keyToFilter of utils/logParsing.ts do to one another.
use nouns_monorepo.Prelude.{
  ◌≡◌, refl, Bool, true, false, ◌&&◌, not, List, [], ◌∷◌, ◌++◌, Option, none, some, arith, ap, ◌∙◌,
}
use nouns_monorepo.Sdk.Text.{Text}
use nouns_monorepo.Sdk.Text.Splits.{
  split, join, is_free, all_free, split_free, split-join, split_first, join-split, is_free-append,
}
use mathlib.Core.Option.{map}
use nouns_monorepo.Webapp.Filters.{
  Topic, EventFilter, topic_key, topics_key, topics_part, address_part, filter_to_key, key_topic,
  key_topics, key_address, topic_of_parts, filter_of_pieces, key_to_filter,
}

abbrev pub bare : Option Text → EventFilter
bare address = record { address = address; topics = none }

abbrev pub with_topics : Option Text → Topic → List Topic → EventFilter
with_topics address t ts = record { address = address; topics = some (t ∷ ts) }

pub filter_to_key-bare :
    (address : Option Text) → filter_to_key (bare address) ≡ address_part address ++ b':' ∷ []
unfolding filter_to_key topics_part
filter_to_key-bare address = refl

abbrev is_blank : Text → Bool
is_blank [] = true
is_blank (c ∷ t) = false

-- The text of a topic is there and holds neither separator of a key.
abbrev is_clear : Text → Bool
is_clear t = not (is_blank t) && (is_free b'-' t && is_free b':' t)

unfoldable pub are_clear : List Topic → Bool
unfolding is_free topic_key
are_clear [] = true
are_clear (t ∷ ts) = is_clear (topic_key t) && are_clear ts

one_topic_key : (t : Text) → is_blank t ≡ false → topic_key (Topic.one_topic t) ≡ t
unfolding topic_key
one_topic_key [] h = ground arith
one_topic_key (c ∷ t) h = refl

topic_of_parts_key :
    (parts : List Text)
    → is_blank (join b';' parts) ≡ false
    → topic_key (topic_of_parts parts) ≡ join b';' parts
unfolding join topic_key
topic_of_parts_key [] h = ground arith
topic_of_parts_key (t ∷ []) h = one_topic_key t h
topic_of_parts_key (t ∷ u ∷ ts) h = refl

topic_key-key_topic : (t : Text) → is_blank t ≡ false → topic_key (key_topic t) ≡ t
unfolding key_topic
topic_key-key_topic t h =
    topic_of_parts_key (split b';' t) (rw (join-split b';' t) h) ∙ join-split b';' t

-- Reading the topics of clear texts and printing them again
topics_key-key_topics :
    (ts : List Topic)
    → are_clear ts ≡ true
    → topics_key (key_topics (topics_key ts)) ≡ topics_key ts
unfolding are_clear topics_key key_topics
topics_key-key_topics [] h = refl
topics_key-key_topics (t ∷ ts) h =
    rw
      (
        topic_key-key_topic (topic_key t) (ground (arith, h)),
        topics_key-key_topics ts (ground (arith, h)),
      )
      refl

all_free-topics_key : (ts : List Topic) → are_clear ts ≡ true → all_free b'-' (topics_key ts) ≡ true
unfolding are_clear topics_key
all_free-topics_key [] h = refl
all_free-topics_key (t ∷ ts) h = ground (arith, all_free-topics_key ts, h)

is_free-join :
    (ts : List Topic) → are_clear ts ≡ true → is_free b':' (join b'-' (topics_key ts)) ≡ true
unfolding are_clear topics_key join is_free
is_free-join [] h = refl
is_free-join (t ∷ []) h = ground (arith, h)
is_free-join (t ∷ u ∷ ts) h = ground (
  arith,
  is_free-append b':' (topic_key t) (b'-' ∷ join b'-' (topics_key (u ∷ ts))),
  is_free-join (u ∷ ts),
  h,
)

address_part-key_address : (a : Text) → address_part (key_address a) ≡ a
unfolding address_part
address_part-key_address [] = refl
address_part-key_address (c ∷ t) = refl

key_round :
    (address : Option Text) (t : Topic) (ts : List Topic)
    → is_free b':' (address_part address) ≡ true
    → are_clear (t ∷ ts) ≡ true
    → key_to_filter (filter_to_key (with_topics address t ts))
      ≡ some (record {
        address = key_address (address_part address);
        topics = some (key_topics (topics_key (t ∷ ts)));
      })
unfolding key_to_filter filter_to_key filter_of_pieces topics_part topics_key
key_round address t ts a h = rw (
  split_first b':' (address_part address) (join b'-' (topics_key (t ∷ ts))) a,
  split_free b':' (join b'-' (topics_key (t ∷ ts))) (is_free-join (t ∷ ts) h),
  split-join b'-' (topic_key t) (topics_key ts) (all_free-topics_key (t ∷ ts) h),
)

-- If a filter has topics, its address no colon, and the text of each topic is not empty and has no
-- hyphen and no colon, its key is read as a filter with the same key.
pub filter_to_key-key_to_filter :
    (address : Option Text) (t : Topic) (ts : List Topic)
    → is_free b':' (address_part address) ≡ true
    → are_clear (t ∷ ts) ≡ true
    → map filter_to_key (key_to_filter (filter_to_key (with_topics address t ts)))
      ≡ some (filter_to_key (with_topics address t ts))
unfolding filter_to_key topics_part
filter_to_key-key_to_filter address t ts a h =
    ap (map filter_to_key) (key_round address t ts a h)
    ∙ rw (address_part-key_address (address_part address), topics_key-key_topics (t ∷ ts) h)

-- The key of a filter without topics is read as one topic that is null.
pub filter_to_key_no_topics :
    (address : Option Text)
    → is_free b':' (address_part address) ≡ true
    → map filter_to_key (key_to_filter (filter_to_key (bare address)))
      ≡ some (address_part address ++ b':' ∷ 0 ∷ [])
unfolding filter_to_key key_to_filter filter_of_pieces topics_part topics_key topic_key key_topics
    key_topic split join
filter_to_key_no_topics address a =
    rw (
      split_first b':' (address_part address) [] a,
      address_part-key_address (address_part address),
    )
