-- ===== src/Webapp/Logs/Refetched.antt =====
-- The fetches of a filter without topics, in state/updaters/logs.ts and state/slices/logs.ts.
use nouns_monorepo.Prelude.{ℕ, ◌≡◌, refl, true, false, List, [], ◌∷◌, ◌++◌, arith, Option, some}
use nouns_monorepo.Sdk.Text.{Text, text_eq, text_eq_iff}
use nouns_monorepo.Sdk.Text.Splits.{is_free}
use nouns_monorepo.Webapp.Filters.{EventFilter, address_part, filter_to_key}
use nouns_monorepo.Webapp.Filters.Keys.{bare, filter_to_key-bare, filter_to_key_no_topics}
use nouns_monorepo.Webapp.Logs.{
  Entry, change_entry, fetching_logs, needs_fetch, keys_need_fetch, filters_of_keys,
  filters_need_fetch,
}
use nouns_monorepo.Webapp.Logs.Fetching.{read_back, filters_of_keys-cons}
use nouns_monorepo.Webapp.Logs.Shown.{key_longer}

filters_of_keys_none : filters_of_keys [] ≡ some []
unfolding filters_of_keys
filters_of_keys_none = refl

shorter_key : (a : Text) → text_eq (a ++ b':' ∷ []) (a ++ b':' ∷ 0 ∷ []) ≡ false
shorter_key a = ground (
  arith,
  key_longer a,
  text_eq_iff (a ++ b':' ∷ 0 ∷ []) (a ++ b':' ∷ []),
  text_eq_iff (a ++ b':' ∷ []) (a ++ b':' ∷ 0 ∷ []),
)

module _ {Log : Type 0} (block : ℕ) where
  fetching_logs_elsewhere :
      (filter : EventFilter) (k : Text) (e : Entry Log)
      → text_eq k (filter_to_key filter) ≡ false
      → fetching_logs (filter ∷ []) block ((k, e) ∷ []) ≡ (k, e) ∷ []
  unfolding fetching_logs change_entry
  fetching_logs_elsewhere filter k e n = rw n refl

  filters_need_fetch_one :
      (k : Text) (e : Entry Log) (filter : EventFilter)
      → needs_fetch block e ≡ true
      → filters_of_keys (k ∷ []) ≡ some (filter ∷ [])
      → filters_need_fetch block ((k, e) ∷ []) ≡ some (filter ∷ [])
  unfolding filters_need_fetch keys_need_fetch
  filters_need_fetch_one k e filter n f = rw n f

  -- In a state with one entry, of a filter without topics whose address has no colon: if the
  -- filter is to be fetched, the filters to fetch can be read, and the start of their fetches does
  -- not change the state, so that the filter is to be fetched again at the same block.
  pub no_topics_refetched :
      (address : Option Text) (e : Entry Log)
      → is_free b':' (address_part address) ≡ true
      → needs_fetch block e ≡ true
      → (filters : List EventFilter) × (filters_need_fetch block
            ((filter_to_key (bare address), e) ∷ [])
          ≡ some filters)
        × (fetching_logs filters block ((filter_to_key (bare address), e) ∷ [])
            ≡ (filter_to_key (bare address), e) ∷ [])
  no_topics_refetched address e a n =
      let a_key : Text = filter_to_key (bare address) in
      let printed : Text = address_part address ++ b':' ∷ 0 ∷ [] in
      let (filter, r, l) = read_back a_key printed (filter_to_key_no_topics address a) in
      (
        filter ∷ [],
        filters_need_fetch_one a_key e filter n
            (filters_of_keys-cons a_key [] filter [] r filters_of_keys_none),
        fetching_logs_elsewhere filter a_key e
            (rw (l, filter_to_key-bare address) (shorter_key (address_part address))),
      )
