-- ===== src/Webapp/Logs/Blocks.antt =====
-- The blocks of the results in state/slices/logs.ts under its actions.
use nouns_monorepo.Prelude.{
  ℕ, ◌≤◌, List, [], ◌∷◌, ◌++◌, arith, Option, none, some, Option-cases, inl, inr,
}
use nouns_monorepo.Sdk.Text.{Text}
use nouns_monorepo.Webapp.Filters.{EventFilter, filter_to_key}
use nouns_monorepo.Webapp.Logs.{
  Results, Entry, LogsState, entry_of, change_entry, add_listener, remove_listener, fetching_logs,
  keep_results, fetched_logs, fetched_logs_error, block_of,
}

-- The reducer of logs.ts, by the action's type.
pub data Action (Log : Type 0) : Type 0 where
  listened : Text → Action Log
  unlistened : Text → Action Log
  fetching : List EventFilter → ℕ → Action Log
  fetched : Text → Results Log → Action Log
  failed : Text → ℕ → Action Log

module _ {Log : Type 0} where
  unfoldable pub reduce_logs : Action Log → LogsState Log → LogsState Log
  unfolding add_listener remove_listener fetching_logs fetched_logs fetched_logs_error
  reduce_logs (listened key) s = add_listener key s
  reduce_logs (unlistened key) s = remove_listener key s
  reduce_logs (fetching filters block) s = fetching_logs filters block s
  reduce_logs (fetched key new) s = fetched_logs key new s
  reduce_logs (failed key block) s = fetched_logs_error key block s

  block_of_entry : Option (Entry Log) → ℕ
  block_of_entry none = 0
  block_of_entry (some e) = elim (block_of e.results) [ none ↦ 0 | some n ↦ n ]

  -- The block that the results under a key are of, 0 without results.
  unfoldable pub results_block : Text → LogsState Log → ℕ
  unfolding block_of_entry entry_of
  results_block key s = block_of_entry (entry_of key s)

  change_entry-ge :
      (f : Entry Log → Entry Log) (k key : Text) (s : LogsState Log)
      → ((e : Entry Log) → block_of_entry (some e) ≤ block_of_entry (some (f e)))
      → results_block key s ≤ results_block key (change_entry f k s)
  unfolding results_block change_entry
  change_entry-ge f k key [] h = omega arith
  change_entry-ge f k key ((j, e) ∷ s) h = ground (arith, h e, change_entry-ge f k key s h)

  keep_results-ge :
      (new : Results Log) (e : Entry Log)
      → block_of_entry (some e) ≤ block_of_entry (some (keep_results new e))
  unfolding keep_results block_of_entry
  keep_results-ge new e = ground arith

  results_block-append :
      (key : Text) (s more : LogsState Log) → results_block key s ≤ results_block key (s ++ more)
  unfolding results_block
  results_block-append key [] more = omega arith
  results_block-append key ((k, e) ∷ s) more = ground (arith, results_block-append key s more)

  add_listener-ge :
      (k key : Text) (s : LogsState Log)
      → results_block key s ≤ results_block key (add_listener k s)
  unfolding add_listener block_of_entry
  add_listener-ge k key s = elim (Option-cases (entry_of k s)) [
    | inl e ↦ rw (e, add_listener) (results_block-append key s _)
    | inr (x, e) ↦ rw (e, add_listener) (change_entry-ge _ k key s (λ e. omega arith))
  ]

  fetching_logs-ge :
      (filters : List EventFilter) (block : ℕ) (key : Text) (s : LogsState Log)
      → results_block key s ≤ results_block key (fetching_logs filters block s)
  unfolding fetching_logs block_of_entry
  fetching_logs-ge [] block key s = omega arith
  fetching_logs-ge (filter ∷ filters) block key s =
      let f : Entry Log → Entry Log = λ e. record e { fetching_block_number = some block } in
      omega (
        arith,
        change_entry-ge f (filter_to_key filter) key s (λ e. omega arith),
        fetching_logs-ge filters block key (change_entry f (filter_to_key filter) s),
      )

  -- No action replaces results by those of an earlier block.
  pub reduce_logs-ge :
      (action : Action Log) (key : Text) (s : LogsState Log)
      → results_block key s ≤ results_block key (reduce_logs action s)
  unfolding reduce_logs remove_listener fetched_logs fetched_logs_error block_of_entry
  reduce_logs-ge (listened k) key s = add_listener-ge k key s
  reduce_logs-ge (unlistened k) key s = change_entry-ge _ k key s (λ e. omega arith)
  reduce_logs-ge (fetching filters block) key s = fetching_logs-ge filters block key s
  reduce_logs-ge (fetched k new) key s = change_entry-ge _ k key s (keep_results-ge new)
  reduce_logs-ge (failed k block) key s = change_entry-ge _ k key s (keep_results-ge _)
