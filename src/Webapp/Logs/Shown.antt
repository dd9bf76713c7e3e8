-- ===== src/Webapp/Logs/Shown.antt =====
-- What a hook of hooks/useLogs.ts shows after the answer to its filter, and what its listening leaves.
use mathlib.Core.Option.{map}
use nouns_monorepo.Prelude.{
  ℕ, ◌≡◌, refl, Bool, true, false, List, [], ◌∷◌, ◌++◌, if◌then◌else◌, leb, ◌==◌, arith, ap, Option,
  none, some, Bool-cases, inl, inr,
}
use nouns_monorepo.Sdk.Text.{Text, text_eq, text_eq_iff}
use nouns_monorepo.Sdk.Text.Splits.{is_free}
use nouns_monorepo.Webapp.Filters.{address_part, filter_to_key, key_to_filter}
use nouns_monorepo.Webapp.Filters.Keys.{bare, filter_to_key-bare, filter_to_key_no_topics}
use nouns_monorepo.Webapp.Logs.{
  Results, Entry, LogsState, entry_of, change_entry, keep_results, fetched_logs, fetched_logs_error,
}
use nouns_monorepo.Webapp.Logs.Answers.{answered, use_logs, results_of, shown_results, invalid}

pub key_longer : (a : Text) → text_eq (a ++ b':' ∷ 0 ∷ []) (a ++ b':' ∷ []) ≡ false
unfolding text_eq
key_longer [] = refl
key_longer (b ∷ a) = ground (arith, key_longer a)

module _ {Log : Type 0} where
  entry_of-change_entry_ne :
      (f : Entry Log → Entry Log) (k key : Text) (s : LogsState Log)
      → text_eq k key ≡ false
      → entry_of key (change_entry f k s) ≡ entry_of key s
  unfolding entry_of change_entry
  entry_of-change_entry_ne f k key [] n = refl
  entry_of-change_entry_ne f k key ((j, e) ∷ s) n = elim (Bool-cases (text_eq j k)) [
    | inl h ↦
        let other : text_eq j key ≡ false =
          ground (arith, h, n, text_eq_iff j k, text_eq_iff j key, text_eq_iff k key) in
        rw (h, other, entry_of) (entry_of-change_entry_ne f k key s n)
    | inr h ↦
        rw (h, entry_of)
          (ap (λ r. if text_eq j key then some e else r) (entry_of-change_entry_ne f k key s n))
  ]

  -- No results of a later block are there.
  abbrev is_current : ℕ → Option (Results Log) → Bool
  is_current block none = true
  is_current block (some r) = leb r.block_number block

  answered_lem :
      (key : Text) (block : ℕ) (answer : Option (List Log)) (s : LogsState Log)
      → answered key block answer s ≡ elim (map filter_to_key (key_to_filter key)) [
        | none ↦ s
        | some k ↦ change_entry (keep_results (record { block_number = block; logs = answer })) k s
      ]
  unfolding answered fetched_logs fetched_logs_error
  answered_lem key block none s = refl
  answered_lem key block (some logs) s = refl

  filed_elsewhere :
      (address : Option Text) (block : ℕ) (answer : Option (List Log)) (s : LogsState Log)
      → is_free b':' (address_part address) ≡ true
      → entry_of
          (filter_to_key (bare address))
          (answered (filter_to_key (bare address)) block answer s)
        ≡ entry_of (filter_to_key (bare address)) s
  filed_elsewhere address block answer s a =
      let new : Results Log = record { block_number = block; logs = answer } in
      rw
        (
          answered_lem (filter_to_key (bare address)) block answer s,
          filter_to_key_no_topics address a,
          filter_to_key-bare address,
        )
        (entry_of-change_entry_ne (keep_results new) (address_part address ++ b':' ∷ 0 ∷ [])
          (address_part address ++ b':' ∷ []) s (key_longer (address_part address)))

  -- If the address of a filter without topics has no colon, no answer to a fetch of its key
  -- changes what the hook shows.
  pub use_logs-answered_no_topics :
      (address : Option Text) (block : ℕ) (now : Option ℕ) (answer : Option (List Log))
      (s : LogsState Log)
      → is_free b':' (address_part address) ≡ true
      → use_logs (some (bare address)) now (answered (filter_to_key (bare address)) block answer s)
        ≡ use_logs (some (bare address)) now s
  unfolding use_logs
  use_logs-answered_no_topics address block none answer s a = refl
  use_logs-answered_no_topics address block (some now) answer s a =
      ap
        (λ r.
          if now == 0
          then record { logs = none; sync_state = invalid }
          else shown_results now (results_of r))
        (filed_elsewhere address block answer s a)
