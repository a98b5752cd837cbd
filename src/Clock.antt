-- ===== src/Clock.antt =====
-- app/agent/store.py: `utc_now` and `iso_utc`. An instant is the number of microseconds since the
-- epoch; the source stores the text of `iso_utc`, and SQLite compares those texts.
-- The text is `YYYY-MM-DDTHH:MM:SS.ffffffZ`, but `isoformat` leaves `.ffffff` out where the
-- microseconds are 0, and `Z` comes after `.`: within one second the text of the whole second is
-- the greatest. `iso_rank` is the place of an instant's text in the order of texts.
use yjdlagent.Prelude.{ℕ, ◌+◌, ◌*◌, ◌/◌, ◌%◌, ◌≡◌, ◌≢◌, Bool, arith, leb, ◌==◌, if◌then◌else◌}

abbrev pub second : ℕ
second = 1000000

unfoldable pub iso_rank : ℕ → ℕ
iso_rank t = (t / 1000000) * 1000001 + (if t % 1000000 == 0 then 1000000 else t % 1000000)

-- `a <= b` on the texts of two instants.
unfoldable pub iso_le : ℕ → ℕ → Bool
unfolding iso_rank
iso_le a b = leb (iso_rank a) (iso_rank b)

-- The order of the texts is the order of the instants as long as neither is a whole second.
pub iso_le-eq-leb : (a b : ℕ) → a % 1000000 ≢ 0 → b % 1000000 ≢ 0 → iso_le a b ≡ leb a b
unfolding iso_le
iso_le-eq-leb a b ha hb = ground arith
