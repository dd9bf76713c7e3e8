-- ===== src/Webapp/Timers.antt =====
-- packages/nouns-webapp/src/components/AuctionActivity, AuctionTimer and SettleManuallyBtn: the
-- timers. A moment is a number of milliseconds, the end of an auction one of seconds. A timer goes off
-- at the time that it is set to or later; how late one is that is set at a moment is a parameter. The
-- auction stays the same meanwhile.
pub mod Ending
use nouns_monorepo.Prelude.{
  ℕ, zero, suc, ◌+◌, ◌-◌, ◌*◌, ◌/◌, Bool, true, false, not, if◌then◌else◌, ltb, leb, ◌==◌, Option,
  none, some,
}
use nouns_monorepo.Prelude.Int.{ℤ, pos, ◌+ℤ◌, ◌-ℤ◌, ltb_ℤ}

-- The time left, none of it in whole seconds once the auction has ended
unfoldable pub has_ended : ℕ → ℕ → Bool
has_ended end_time now = leb end_time (now / 1000)

-- How long until the next check of components/AuctionActivity: every 30 s, and in the last five
-- minutes every second
unfoldable pub next_delay : ℕ → ℕ → ℕ
next_delay end_time now = if ltb 300 (end_time - now / 1000) then 30000 else 1000

-- The moment at which `auctionEnded` is set, with fuel for the checks before
unfoldable pub ended_at : (ℕ → ℕ) → ℕ → ℕ → ℕ → Option ℕ
unfolding has_ended next_delay
ended_at late zero end_time now = if has_ended end_time now then some now else none
ended_at late (suc fuel) end_time now =
    let later = ended_at late fuel end_time (now + next_delay end_time now + late now) in
    if has_ended end_time now then some now else later

-- What components/AuctionTimer shows at a moment: the seconds left, and whether it goes on
unfoldable pub auction_timer : ℕ → ℕ → ℕ × Bool
auction_timer end_time now =
    let time_left = end_time - now / 1000 in
    if leb end_time (now / 1000) then (0, false) else (time_left, true)

abbrev pub mins_to_enable_manual_settlement : ℕ
mins_to_enable_manual_settlement = 5

-- components/SettleManuallyBtn: the seconds left, and whether it is on
unfoldable pub settle_timer : ℕ → ℕ → ℕ → ℤ × Bool
settle_timer chain_id end_time now =
    let time_left =
      pos (mins_to_enable_manual_settlement * 60) -ℤ (pos (now / 1000) -ℤ pos end_time) in
    if not (chain_id == 1)
    then (pos 0, true)
    else if ltb_ℤ (pos 0) time_left
    then (time_left, false)
    else (pos 0, true)
