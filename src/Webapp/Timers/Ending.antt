-- ===== src/Webapp/Timers/Ending.antt =====
-- When the timers take note of an auction's end.
use nouns_monorepo.Prelude.{
  ℕ, zero, suc, ◌+◌, ◌*◌, ◌/◌, ◌≤◌, ◌<◌, ◌≡◌, refl, arith, ◌↔◌, true, some, Bool-cases, inl, inr,
}
use nouns_monorepo.Prelude.Int.{◌-ℤ◌}
use nouns_monorepo.Webapp.Timers.{has_ended, next_delay, ended_at, settle_timer}

module _ (late : ℕ → ℕ) (most : ℕ) (late-le : (now : ℕ) → late now ≤ most) where
  ended_at_within :
      (fuel end_time now : ℕ)
      → now < end_time * 1000 + 1000 + most
      → end_time * 1000 ≤ now + fuel * 1000
      → (t : ℕ) × (ended_at late fuel end_time now ≡ some t)
        × (end_time * 1000 ≤ t)
        × (t < end_time * 1000 + 1000 + most)
  unfolding ended_at has_ended next_delay
  ended_at_within zero end_time now b f = (now, ground arith, omega arith, b)
  ended_at_within (suc fuel) end_time now b f = elim (Bool-cases (has_ended end_time now)) [
    | inl h ↦ (now, rw h refl, ground (arith, h), b)
    | inr h ↦
        let (t, e, l, u) =
          ended_at_within fuel end_time (now + next_delay end_time now + late now)
            (ground (arith, h, late-le now)) (ground (arith, f)) in
        (t, rw h e, l, u)
  ]

  -- If no timer goes off more than `most` ms after the time that it is set to, and the auction has
  -- not been over for 1000 + `most` ms: a check comes after the auction's end, less than 1000 +
  -- `most` ms after it, and the auction counts as ended then, not before.
  pub ended_at_lem :
      (end_time now : ℕ)
      → now < end_time * 1000 + 1000 + most
      → (t : ℕ) × (ended_at late end_time end_time now ≡ some t)
        × (end_time * 1000 ≤ t)
        × (t < end_time * 1000 + 1000 + most)
  ended_at_lem end_time now b = ended_at_within end_time end_time now b (omega arith)

-- On the main network the button is on exactly from five minutes after the auction's end on.
pub settle_timer_iff :
    (end_time now : ℕ) → ((settle_timer 1 end_time now).1 ≡ true) ↔ (end_time + 300 ≤ now / 1000)
unfolding settle_timer ◌-ℤ◌
settle_timer_iff end_time now = ground arith
