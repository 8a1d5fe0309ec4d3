-- ===== src/Safety/Stale.antt =====
-- internal/safety/stale_detector.go.
use dingtalk_channel_sdk_go.Prelude.{
  ℕ, ◌-◌, ◌*◌, Bool, false, ltb, eqb, if◌then◌else◌, ℤ, pos, negsuc,
}
use dingtalk_channel_sdk_go.Types.{millisecond, minute}

pub record StaleDetector : Type 0 where
  pub window : ℕ

-- `NewStaleDetector`: a window of 0 or less is half an hour.
unfoldable pub new_stale_detector : ℤ → StaleDetector
new_stale_detector (negsuc _) = record { window = 30 * minute }
new_stale_detector (pos w) = record { window = if eqb w 0 then 30 * minute else w }

-- `IsStale` at the instant `now`, in nanoseconds since the epoch. The age of a message from the
-- future is negative in the code, and 0 here: neither exceeds the window.
unfoldable pub is_stale : StaleDetector → ℕ → ℤ → Bool
is_stale d now (negsuc _) = false
is_stale d now (pos ms) = if eqb ms 0 then false else ltb d.window (now - ms * millisecond)
