-- ===== src/Safety/Lock.antt =====
-- internal/safety/processing_lock.go. Each operation holds the mutex from start to end, so it is one
-- step; its reading of the clock, in nanoseconds, is an argument. The sums of `int64` milliseconds
-- do not reach 2 ^ 63.
pub mod Exclusion
use dingtalk_channel_sdk_go.Prelude.{
  prune, not, ℕ, zero, suc, ◌+◌, ◌/◌, Bool, true, false, Option, none, some, [], arith, ltb, leb,
  if◌then◌else◌, Text, Map, lookup, insert, remove,
}
use dingtalk_channel_sdk_go.Types.{millisecond}

-- `locks` has the instant, in milliseconds, at which a lock expires. `stopped`: `stopCh` is closed.
pub record ProcessingLock : Type 0 where
  pub locks : Map ℕ
  pub ttl_ms : ℕ
  pub stopped : Bool

-- `time.Now().UnixMilli()`
abbrev pub unix_milli : ℕ → ℕ
unix_milli now = now / millisecond

unfoldable pub new_processing_lock : ℕ → ProcessingLock
new_processing_lock ttl = record { locks = []; ttl_ms = ttl / millisecond; stopped = false }

-- `exists && exp > now`
unfoldable pub is_live : Option ℕ → ℕ → Bool
is_live none now = false
is_live (some exp) now = ltb now exp

unfoldable pub acquire : ProcessingLock → ℕ → Text → ProcessingLock × Bool
unfolding is_live
acquire pl now id =
    if is_live (lookup id pl.locks) (unix_milli now)
    then (pl, false)
    else (record pl { locks = insert id (unix_milli now + pl.ttl_ms) pl.locks }, true)

unfoldable pub release : ProcessingLock → Text → ProcessingLock
release pl id = record pl { locks = remove id pl.locks }

-- The entries with `exp <= now` are deleted.
unfoldable pub sweep : ProcessingLock → ℕ → ProcessingLock
sweep pl now = record pl { locks = prune (λ exp. not (leb exp (unix_milli now))) pl.locks }

-- `Dispose`; `none` is the panic of closing `stopCh` a second time.
unfoldable pub dispose : ProcessingLock → Option ProcessingLock
dispose pl = if pl.stopped then none else some (record pl { locks = []; stopped = true })
