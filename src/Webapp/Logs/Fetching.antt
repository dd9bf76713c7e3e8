-- ===== src/Webapp/Logs/Fetching.antt =====
-- What the updater of state/updaters/logs.ts fetches at a block.
use mathlib.Core.Path.{subst}
use nouns_monorepo.Prelude.{
  ℕ, ◌≡◌, refl, Bool, true, false, ◌||◌, List, [], ◌∷◌, if◌then◌else◌, arith, ap, sym, ◌∙◌, some,
  Bool-cases, Option-cases, inl, inr,
}
use nouns_monorepo.Sdk.Text.{Text, text_eq, text_eq_iff}
use mathlib.Core.Option.{map}
use nouns_monorepo.Webapp.Filters.{EventFilter, filter_to_key, key_to_filter}
use nouns_monorepo.Webapp.Logs.{
  Entry, LogsState, change_entry, fetching_logs, needs_fetch, keys_need_fetch, filters_of_keys,
  filters_need_fetch,
}

has_key : Text → List Text → Bool
has_key k [] = false
has_key k (j ∷ keys) = text_eq k j || has_key k keys

-- The filters' keys, in this order
abbrev keys_of : List EventFilter → List Text
keys_of [] = []
keys_of (filter ∷ filters) = filter_to_key filter ∷ keys_of filters

pub read_back :
    (k printed : Text)
    → map filter_to_key (key_to_filter k) ≡ some printed
    → (filter : EventFilter) × (key_to_filter k ≡ some filter) × (filter_to_key filter ≡ printed)
read_back k printed h = elim (Option-cases (key_to_filter k)) [
  | inl e ↦ absurd (ground (arith, sym (ap (map filter_to_key) e) ∙ h))
  | inr (filter, e) ↦ (filter, e, ground (arith, sym (ap (map filter_to_key) e) ∙ h))
]

pub filters_of_keys-cons :
    (k : Text) (keys : List Text) (filter : EventFilter) (filters : List EventFilter)
    → key_to_filter k ≡ some filter
    → filters_of_keys keys ≡ some filters
    → filters_of_keys (k ∷ keys) ≡ some (filter ∷ filters)
unfolding filters_of_keys
filters_of_keys-cons k keys filter filters e f = rw (e, f) refl

module _ {Log : Type 0} where
  -- Every key is read as a filter that has this key.
  unfoldable pub AreReadBack : LogsState Log → Type 0
  AreReadBack [] = Unit
  AreReadBack ((k, e) ∷ s) = (map filter_to_key (key_to_filter k) ≡ some k) × AreReadBack s

module _ {Log : Type 0} (block : ℕ) where
  abbrev marked : Entry Log → Entry Log
  marked e = record e { fetching_block_number = some block }

  -- The entries under the keys, marked as being fetched.
  mark : List Text → LogsState Log → LogsState Log
  unfolding has_key
  mark keys [] = []
  mark keys ((k, e) ∷ s) =
      (k, if has_key k keys then record e { fetching_block_number = some block } else e)
      ∷ mark keys s

  mark_none : (s : LogsState Log) → mark [] s ≡ s
  unfolding mark
  mark_none [] = refl
  mark_none ((k, e) ∷ s) = ap (λ t. (k, e) ∷ t) (mark_none s)

  mark_more :
      (key : Text) (keys : List Text) (s : LogsState Log)
      → mark keys (change_entry (λ e. record e { fetching_block_number = some block }) key s)
        ≡ mark (key ∷ keys) s
  unfolding mark change_entry
  mark_more key keys [] = refl
  mark_more key keys ((k, e) ∷ s) = elim (Bool-cases (text_eq k key)) [
    | inl same ↦ elim (Bool-cases (has_key k keys)) [
      | inl c ↦ rw (same, change_entry) (rw c (ap (λ t. (k, marked e) ∷ t) (mark_more key keys s)))
      | inr c ↦ rw (same, change_entry) (rw c (ap (λ t. (k, marked e) ∷ t) (mark_more key keys s)))
    ]
    | inr other ↦
        rw (other, change_entry)
          (ap (λ t. (k, if has_key k keys then marked e else e) ∷ t) (mark_more key keys s))
  ]

  fetching_logs-mark :
      (filters : List EventFilter) (s : LogsState Log)
      → fetching_logs filters block s ≡ mark (keys_of filters) s
  unfolding fetching_logs
  fetching_logs-mark [] s = sym (mark_none s)
  fetching_logs-mark (filter ∷ filters) s =
      fetching_logs-mark filters _ ∙ mark_more (filter_to_key filter) (keys_of filters) s

  -- Every entry that needs a fetch has its key in the list.
  abbrev AllListed : List Text → LogsState Log → Type 0
  AllListed keys [] = Unit
  AllListed keys ((k, e) ∷ s) =
      (needs_fetch block e ≡ true → has_key k keys ≡ true) × AllListed keys s

  AllListed-more :
      (key : Text) (keys : List Text) (s : LogsState Log)
      → AllListed keys s
      → AllListed (key ∷ keys) s
  unfolding has_key
  AllListed-more key keys [] h = tt
  AllListed-more key keys ((k, e) ∷ s) (l, h) = (ground (arith, l), AllListed-more key keys s h)

  pub keys_need_fetch_listed :
      (k : Text) (e : Entry Log) (s : LogsState Log)
      → needs_fetch block e ≡ true
      → keys_need_fetch block ((k, e) ∷ s) ≡ k ∷ keys_need_fetch block s
  unfolding keys_need_fetch
  keys_need_fetch_listed k e s h = rw (h, keys_need_fetch) refl

  keys_need_fetch_passed :
      (k : Text) (e : Entry Log) (s : LogsState Log)
      → needs_fetch block e ≡ false
      → keys_need_fetch block ((k, e) ∷ s) ≡ keys_need_fetch block s
  unfolding keys_need_fetch
  keys_need_fetch_passed k e s h = rw (h, keys_need_fetch) refl

  keys_need_fetch-AllListed : (s : LogsState Log) → AllListed (keys_need_fetch block s) s
  unfolding has_key
  keys_need_fetch-AllListed [] = tt
  keys_need_fetch-AllListed ((k, e) ∷ s) =
      let rest = keys_need_fetch block s in
      let more = keys_need_fetch-AllListed s in
      elim (Bool-cases (needs_fetch block e)) [
        | inl h ↦
            subst {A = List Text} (λ keys. AllListed keys ((k, e) ∷ s))
              (sym (keys_need_fetch_listed k e s h))
              (ground (arith, text_eq_iff k k), AllListed-more k rest s more)
        | inr h ↦
            subst {A = List Text} (λ keys. AllListed keys ((k, e) ∷ s))
              (sym (keys_need_fetch_passed k e s h)) (ground (arith, h), more)
      ]

  needs_fetch-marked : (e : Entry Log) → needs_fetch block (marked e) ≡ false
  unfolding needs_fetch
  needs_fetch-marked e = ground arith

  needs_fetch-listed :
      (listed : Bool) (e : Entry Log)
      → (needs_fetch block e ≡ true → listed ≡ true)
      → needs_fetch block (if listed then marked e else e) ≡ false
  needs_fetch-listed true e l = needs_fetch-marked e
  needs_fetch-listed false e l = ground (arith, l)

  mark-keys_need_fetch :
      (keys : List Text) (s : LogsState Log)
      → AllListed keys s
      → keys_need_fetch block (mark keys s) ≡ []
  unfolding mark keys_need_fetch
  mark-keys_need_fetch keys [] h = refl
  mark-keys_need_fetch keys ((k, e) ∷ s) (l, h) =
      keys_need_fetch_passed k (if has_key k keys then marked e else e) (mark keys s)
        (needs_fetch-listed (has_key k keys) e l)
      ∙ mark-keys_need_fetch keys s h

  -- The filters that the keys are read as
  filters_read_back :
      (s : LogsState Log)
      → AreReadBack s
      → (filters : List EventFilter) × (filters_of_keys (keys_need_fetch block s) ≡ some filters)
        × (keys_of filters ≡ keys_need_fetch block s)
  unfolding filters_of_keys AreReadBack keys_need_fetch
  filters_read_back [] h = ([], refl, refl)
  filters_read_back ((k, e) ∷ s) (h, hs) =
      let (filters, f, ks) = filters_read_back s hs in
      elim (Bool-cases (needs_fetch block e)) [
        | inl n ↦
            let (filter, g, l) = read_back k k h in
            (
              filter ∷ filters,
              ap filters_of_keys (keys_need_fetch_listed k e s n)
                  ∙ filters_of_keys-cons k (keys_need_fetch block s) filter filters g f,
              rw (l, ks) (sym (keys_need_fetch_listed k e s n)),
            )
        | inr n ↦ (
          filters,
          ap filters_of_keys (keys_need_fetch_passed k e s n) ∙ f,
          ks ∙ sym (keys_need_fetch_passed k e s n),
        )
      ]

  -- If every key in the state is read as a filter that has this key: the filters to fetch at a
  -- block can be read, and once their fetches have been started none is to be fetched again at
  -- that block.
  pub filters_need_fetch-fetching_logs :
      (s : LogsState Log)
      → AreReadBack s
      → (filters : List EventFilter) × (filters_need_fetch block s ≡ some filters)
        × (filters_need_fetch block (fetching_logs filters block s) ≡ some [])
  unfolding filters_need_fetch filters_of_keys
  filters_need_fetch-fetching_logs s h =
      let (filters, f, ks) = filters_read_back s h in
      (
        filters,
        f,
        ap filters_of_keys (
            ap (keys_need_fetch block) (fetching_logs-mark filters s ∙ ap (λ keys. mark keys s) ks)
            ∙ mark-keys_need_fetch (keys_need_fetch block s) s (keys_need_fetch-AllListed s)),
      )
