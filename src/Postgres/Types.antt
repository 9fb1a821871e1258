-- ===== src/Postgres/Types.antt =====
-- parseon-postgres/src/pg_types.rs: what the columns hold, with the checks on both ways. A BIGINT is an integer
-- below 2^63 in absolute value.
use parseon.Common.{
  ℕ, zero, suc, ◌≡◌, inl, inr, length, eqb, leb, i64_max, if◌then◌else◌, Result, ok, err, ◌>>=◌,
  ◌>>◌, ensure, ok_or, arith, Bool-cases,
}
use parseon.Common.Int.{ℤ, pos, negsuc}
use parseon.Model.{Bytes, Address, Selector, B256, MonitorId, new_monitor_id}
use parseon.Errors.{Error}

-- `to_i64`
unfoldable pub to_i64 : ℕ → Result Error ℤ
to_i64 value =
    if leb value i64_max
    then ok (pos value)
    else err (Error.storage "exceeds PostgreSQL BIGINT range")

-- `from_i64`
unfoldable pub from_i64 : ℤ → Result Error ℕ
from_i64 (pos value) = ok value
from_i64 (negsuc n) = err (Error.storage "stored value must be non-negative")

-- `to_monitor_id`
unfoldable pub to_monitor_id : MonitorId → Result Error ℤ
unfolding to_i64
to_monitor_id value = to_i64 value

-- `from_monitor_id`
unfoldable pub from_monitor_id : ℤ → Result Error MonitorId
unfolding from_i64 new_monitor_id
from_monitor_id value = do
  id ← from_i64 value
  ok_or (new_monitor_id id) (Error.storage "monitor id must be positive")

-- `value.try_into()` to an array of a length.
abbrev fixed : ℕ → Bytes → Result Error Bytes
fixed size value = do
  ensure (eqb (length value) size) (Error.storage "stored value has another length")
  ok value

-- `address`
unfoldable pub address : Bytes → Result Error Address
address value = fixed 20 value

-- `selector`
unfoldable pub selector : Bytes → Result Error Selector
selector value = fixed 4 value

-- `b256`
unfoldable pub b256 : Bytes → Result Error B256
b256 value = fixed 32 value

-- What was written is read back.
pub from_i64-to_i64 :
    (value : ℕ) (stored : ℤ) → to_i64 value ≡ ok stored → from_i64 stored ≡ ok value
unfolding to_i64 from_i64
from_i64-to_i64 value stored h = elim (Bool-cases (leb value i64_max)) [
  | inl fits ↦ ground (arith, h, fits)
  | inr exceeds ↦ absurd (ground (arith, h, exceeds))
]

pub from_monitor_id-eq :
    (stored : ℤ) (id : MonitorId) → from_monitor_id stored ≡ ok id → stored ≡ pos id
unfolding from_monitor_id from_i64 new_monitor_id
from_monitor_id-eq (pos zero) id h = absurd (ground (arith, h))
from_monitor_id-eq (pos (suc n)) id h = ground (arith, h)
from_monitor_id-eq (negsuc n) id h = absurd (ground (arith, h))
