-- ===== src/Webapp/Logs.antt =====
-- packages/nouns-webapp/src/state/slices/logs.ts and state/updaters/logs.ts: the listeners to event
-- logs, and which filters are fetched at a block. The state is an object, here its entries in order.
-- An action on one filter is given the filter's key, one on several the filters.
pub mod Fetching
pub mod Answers
pub mod Shown
pub mod Listening
pub mod Blocks
pub mod Refetched
use nouns_monorepo.Prelude.{
  ℕ, ◌+◌, Bool, true, false, not, ◌&&◌, ◌||◌, List, [], ◌∷◌, ◌++◌, if◌then◌else◌, ltb, leb, Option,
  none, some, ◌>>=◌,
}
use nouns_monorepo.Prelude.Int.{ℤ, pos, ◌+ℤ◌, ◌-ℤ◌, eqb_ℤ}
use nouns_monorepo.Sdk.Text.{Text, text_eq}
use nouns_monorepo.Webapp.Filters.{EventFilter, filter_to_key, key_to_filter}

-- The last fetch that was answered: its block, and the logs unless it failed.
pub record Results (Log : Type 0) : Type 0 where
  pub block_number : ℕ
  pub logs : Option (List Log)

pub record Entry (Log : Type 0) : Type 0 where
  pub listeners : ℤ
  pub fetching_block_number : Option ℕ
  pub results : Option (Results Log)

abbrev pub LogsState : Type 0 → Type 0
LogsState Log = List (Text × Entry Log)

-- The block is not beyond one that is being fetched, or has been.
abbrev pub reached : ℕ → Option ℕ → Bool
reached block none = false
reached block (some n) = leb block n

module _ {Log : Type 0} where
  unfoldable pub entry_of : Text → LogsState Log → Option (Entry Log)
  unfolding text_eq
  entry_of key [] = none
  entry_of key ((k, e) ∷ s) = if text_eq k key then some e else entry_of key s

  -- A change of the entry under a key, if there is one.
  unfoldable pub change_entry : (Entry Log → Entry Log) → Text → LogsState Log → LogsState Log
  unfolding text_eq
  change_entry f key [] = []
  change_entry f key ((k, e) ∷ s) =
      let rest = change_entry f key s in if text_eq k key then (k, f e) ∷ rest else (k, e) ∷ rest

  unfoldable pub add_listener : Text → LogsState Log → LogsState Log
  unfolding entry_of change_entry
  add_listener key s = elim (entry_of key s) [
    | none ↦
        s ++ (key, record { listeners = pos 1; fetching_block_number = none; results = none }) ∷ []
    | some e ↦ change_entry (λ e. record e { listeners = e.listeners +ℤ pos 1 }) key s
  ]

  unfoldable pub remove_listener : Text → LogsState Log → LogsState Log
  unfolding change_entry
  remove_listener key s = change_entry (λ e. record e { listeners = e.listeners -ℤ pos 1 }) key s

  -- Each filter's key is printed again; a key that is not there is passed over.
  unfoldable pub fetching_logs : List EventFilter → ℕ → LogsState Log → LogsState Log
  unfolding change_entry filter_to_key
  fetching_logs [] block s = s
  fetching_logs (filter ∷ filters) block s =
      fetching_logs filters block (
        change_entry (λ e. record e { fetching_block_number = some block }) (filter_to_key filter)
          s)

  -- Results of an earlier block than those that are there are dropped.
  unfoldable pub keep_results : Results Log → Entry Log → Entry Log
  keep_results new e = elim (e.results) [
    | none ↦ record e { results = some new }
    | some old ↦
        if ltb new.block_number old.block_number then e else record e { results = some new }
  ]

  unfoldable pub fetched_logs : Text → Results Log → LogsState Log → LogsState Log
  unfolding change_entry keep_results
  fetched_logs key new s = change_entry (keep_results new) key s

  unfoldable pub fetched_logs_error : Text → ℕ → LogsState Log → LogsState Log
  unfolding change_entry keep_results
  fetched_logs_error key block s =
      change_entry (keep_results (record { block_number = block; logs = none })) key s

  abbrev pub block_of : Option (Results Log) → Option ℕ
  block_of none = none
  block_of (some r) = some r.block_number

  unfoldable pub needs_fetch : ℕ → Entry Log → Bool
  needs_fetch block e =
      not (eqb_ℤ e.listeners (pos 0))
      && (not (reached block e.fetching_block_number) && not (reached block (block_of e.results)))

  -- The keys that the updater's `filtersNeedFetch` keeps, at a block that is known
  unfoldable pub keys_need_fetch : ℕ → LogsState Log → List Text
  unfolding needs_fetch
  keys_need_fetch block [] = []
  keys_need_fetch block ((k, e) ∷ s) =
      let rest = keys_need_fetch block s in if needs_fetch block e then k ∷ rest else rest

-- `keys.map(key => keyToFilter(key))`; `none` where the reading of a key throws.
unfoldable pub filters_of_keys : List Text → Option (List EventFilter)
unfolding key_to_filter
filters_of_keys [] = some []
filters_of_keys (key ∷ keys) = do
  filter ← key_to_filter key
  filters ← filters_of_keys keys
  some (filter ∷ filters)

module _ {Log : Type 0} where
  -- The updater's `filtersNeedFetch`
  unfoldable pub filters_need_fetch : ℕ → LogsState Log → Option (List EventFilter)
  unfolding keys_need_fetch filters_of_keys
  filters_need_fetch block s = filters_of_keys (keys_need_fetch block s)
