-- ===== src/Clock.antt =====
-- Datetimes as the checks of the program tell them apart. A number counts the microseconds since
-- the least datetime in UTC. src/ingestion/control/metadata.py, whose checks the other modules
-- repeat.
use commerce_data_platform.Prelude.{ℕ, Option, none, some}
use commerce_data_platform.Exceptions.{Result, ok, err, value_error}

-- `utc` has the offset zero, `zoned` another one, and `naive` has none.
pub data DateTime : Type 0 where
  utc zoned naive : ℕ → DateTime

-- `_assert_utc`, with the instant that a UTC datetime stands for.
unfoldable pub assert_utc : DateTime → Result ℕ
assert_utc (utc t) = ok t
assert_utc (zoned t) = err value_error
assert_utc (naive t) = err value_error

-- `_utc_now`: the injected time, or the clock's.
unfoldable pub utc_now : ℕ → Option DateTime → Result ℕ
unfolding assert_utc
utc_now clock none = ok clock
utc_now clock (some value) = assert_utc value
