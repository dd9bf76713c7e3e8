-- ===== src/Webapp/Logs/Listening.antt =====
-- The listening and the clean-up of hooks/useLogs.ts.
use mathlib.Core.List.{append-nil}
use nouns_monorepo.Prelude.{
  ℕ, ◌≡◌, refl, true, [], ◌∷◌, ◌++◌, arith, ap, ◌∙◌, Option, none, some, Option-cases, Bool-cases,
  inl, inr,
}
use nouns_monorepo.Prelude.Int.{pos, ◌+ℤ◌, ◌-ℤ◌, +ℤ_cancel}
use nouns_monorepo.Sdk.Text.{Text, text_eq, text_eq_iff}
use nouns_monorepo.Webapp.Filters.{EventFilter, filter_to_key}
use nouns_monorepo.Webapp.Logs.{
  Entry, LogsState, entry_of, change_entry, add_listener, remove_listener, needs_fetch,
  keys_need_fetch,
}
use nouns_monorepo.Webapp.Logs.Answers.{start_listening, stop_listening}

module _ {Log : Type 0} where
  keys_need_fetch-append :
      (block : ℕ) (s more : LogsState Log)
      → keys_need_fetch block (s ++ more) ≡ keys_need_fetch block s ++ keys_need_fetch block more
  unfolding keys_need_fetch
  keys_need_fetch-append block [] more = refl
  keys_need_fetch-append block ((k, e) ∷ s) more = elim (Bool-cases (needs_fetch block e)) [
    | inl h ↦ rw (h, keys_need_fetch-append block s more) refl
    | inr h ↦ rw (h, keys_need_fetch-append block s more) refl
  ]

  abbrev listened_once : Entry Log → Entry Log
  listened_once e = record e { listeners = e.listeners +ℤ pos 1 }

  abbrev left_once : Entry Log → Entry Log
  left_once e = record e { listeners = e.listeners -ℤ pos 1 }

  left_once-listened_once : (e : Entry Log) → left_once (listened_once e) ≡ e
  left_once-listened_once e = ap (λ n. record e { listeners = n }) (+ℤ_cancel e.listeners (pos 1))

  change_entry_back :
      (key : Text) (s : LogsState Log)
      → change_entry left_once key (change_entry listened_once key s) ≡ s
  unfolding change_entry
  change_entry_back key [] = refl
  change_entry_back key ((k, e) ∷ s) = elim (Bool-cases (text_eq k key)) [
    | inl h ↦ rw (h, change_entry, h, left_once-listened_once e, change_entry_back key s) refl
    | inr h ↦ rw (h, change_entry, h, change_entry_back key s) refl
  ]

  change_entry_absent :
      (f : Entry Log → Entry Log) (key : Text) (s : LogsState Log)
      → entry_of key s ≡ none
      → change_entry f key s ≡ s
  unfolding change_entry entry_of
  change_entry_absent f key [] n = refl
  change_entry_absent f key ((k, e) ∷ s) n = elim (Bool-cases (text_eq k key)) [
    | inl h ↦ absurd (ground (arith, h, n))
    | inr h ↦ rw (h, change_entry_absent f key s (ground (arith, h, n))) refl
  ]

  change_entry-append :
      (f : Entry Log → Entry Log) (key : Text) (s more : LogsState Log)
      → change_entry f key (s ++ more) ≡ change_entry f key s ++ change_entry f key more
  unfolding change_entry
  change_entry-append f key [] more = refl
  change_entry-append f key ((k, e) ∷ s) more = elim (Bool-cases (text_eq k key)) [
    | inl h ↦ rw (h, change_entry-append f key s more) refl
    | inr h ↦ rw (h, change_entry-append f key s more) refl
  ]

  abbrev fresh : Entry Log
  fresh = record { listeners = pos 1; fetching_block_number = none; results = none }

  idle :
      (block : ℕ) (key : Text) (s : LogsState Log)
      → s ≡ (key, fresh) ∷ []
      → keys_need_fetch block (change_entry left_once key s) ≡ []
  unfolding keys_need_fetch change_entry needs_fetch ◌-ℤ◌
  idle block key s e =
      let same : text_eq key key ≡ true = ground (arith, text_eq_iff key key) in
      rw (e, change_entry, same, keys_need_fetch) refl

  -- A hook that has come and gone leaves what is to be fetched as it was.
  pub keys_need_fetch-stop_listening :
      (f : Option EventFilter) (block : ℕ) (s : LogsState Log)
      → keys_need_fetch block (stop_listening f (start_listening f s)) ≡ keys_need_fetch block s
  unfolding stop_listening start_listening remove_listener
  keys_need_fetch-stop_listening none block s = refl
  keys_need_fetch-stop_listening (some f) block s =
      elim (Option-cases (entry_of (filter_to_key f) s)) [
        | inl n ↦
            rw (n, add_listener)
              (ap (keys_need_fetch block) (
                  change_entry-append left_once (filter_to_key f) s ((filter_to_key f, fresh) ∷ []))
                ∙ keys_need_fetch-append block (change_entry left_once (filter_to_key f) s) _
                ∙ rw
                    (
                      change_entry_absent left_once (filter_to_key f) s n,
                      idle block (filter_to_key f) ((filter_to_key f, fresh) ∷ []) refl,
                    )
                    (append-nil (keys_need_fetch block s)))
        | inr (e, h) ↦
            rw (h, add_listener)
              (ap (keys_need_fetch block) (change_entry_back (filter_to_key f) s))
      ]
