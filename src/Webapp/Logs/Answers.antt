-- ===== src/Webapp/Logs/Answers.antt =====
-- The answers that state/updaters/logs.ts waits for, and what hooks/useLogs.ts shows of them.
use mathlib.Core.Option.{map}
use nouns_monorepo.Prelude.{ℕ, List, if◌then◌else◌, leb, ◌==◌, Option, none, some}
use nouns_monorepo.Sdk.Text.{Text}
use nouns_monorepo.Webapp.Filters.{EventFilter, filter_to_key, key_to_filter}
use nouns_monorepo.Webapp.Logs.{
  Results, Entry, LogsState, entry_of, add_listener, remove_listener, fetched_logs,
  fetched_logs_error,
}

module _ {Log : Type 0} where
  -- The answer to a fetch, none if it fails; it is filed under the key of the filter that was read.
  unfoldable pub answered : Text → ℕ → Option (List Log) → LogsState Log → LogsState Log
  unfolding filter_to_key key_to_filter fetched_logs fetched_logs_error
  answered key block answer s = elim (map filter_to_key (key_to_filter key)) [
    | none ↦ s
    | some k ↦ elim answer [
      | none ↦ fetched_logs_error k block s
      | some logs ↦ fetched_logs k (record { block_number = block; logs = some logs }) s
    ]
  ]

-- The enum LogsState of the hook
pub data SyncState : Type 0 where
  invalid : SyncState
  loading : SyncState
  syncing : SyncState
  error : SyncState
  synced : SyncState

pub record UseLogsResult (Log : Type 0) : Type 0 where
  pub logs : Option (List Log)
  pub sync_state : SyncState

module _ {Log : Type 0} where
  abbrev pub results_of : Option (Entry Log) → Option (Results Log)
  results_of none = none
  results_of (some e) = e.results

  unfoldable pub shown_results : ℕ → Option (Results Log) → UseLogsResult Log
  shown_results block none = record { logs = none; sync_state = loading }
  shown_results block (some r) = elim (r.logs) [
    | none ↦ record { logs = none; sync_state = error }
    | some logs ↦ record {
      logs = some logs;
      sync_state = if leb block r.block_number then synced else syncing;
    }
  ]

  -- A key is never empty; the block 0 counts as no block.
  unfoldable pub use_logs : Option EventFilter → Option ℕ → LogsState Log → UseLogsResult Log
  unfolding filter_to_key entry_of shown_results
  use_logs none block s = record { logs = none; sync_state = invalid }
  use_logs (some f) none s = record { logs = none; sync_state = invalid }
  use_logs (some f) (some block) s =
      if block == 0
      then record { logs = none; sync_state = invalid }
      else shown_results block (results_of (entry_of (filter_to_key f) s))

  -- The effect of the hook: it listens, and stops on its clean-up.
  unfoldable pub start_listening : Option EventFilter → LogsState Log → LogsState Log
  unfolding filter_to_key add_listener
  start_listening none s = s
  start_listening (some f) s = add_listener (filter_to_key f) s

  unfoldable pub stop_listening : Option EventFilter → LogsState Log → LogsState Log
  unfolding filter_to_key remove_listener
  stop_listening none s = s
  stop_listening (some f) s = remove_listener (filter_to_key f) s
