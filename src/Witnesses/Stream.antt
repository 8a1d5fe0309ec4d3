-- ===== src/Witnesses/Stream.antt =====
-- The connection: waits, frames and runs.
use dingtalk_channel_sdk_go.Prelude.{
  ◌⊎◌, bytes, pos, negsuc, ℕ, ◌+◌, ◌≤◌, ◌<◌, ◌≡◌, refl, ◌≢◌, true, false, some, List, [], ◌∷◌,
  arith,
}
use dingtalk_channel_sdk_go.Types.{second}
use dingtalk_channel_sdk_go.Frame.{Frame, FrameAck, sub_system}
use dingtalk_channel_sdk_go.Stream.{
  Action, text_frame, read_error, ends_error, pong, Attempt, open_fails, session, Wait, elapses,
  stop_comes, Round, Settings, run, backoff_delay, shifted, reconnect_max, handle_frame, writes,
}
use dingtalk_channel_sdk_go.Stream.Backoff.{backoff_delay_bounds}
use dingtalk_channel_sdk_go.Stream.Acks.{Acknowledges, Follows, handle_frame-Acknowledges}
use dingtalk_channel_sdk_go.Stream.Rounds.{readies, allowed, run-reconnects}

backoff_delay_bounds_example :
    ((3 ≤ 33)
      × ((d : ℕ) × (backoff_delay 3 70 ≡ pos d) × (second ≤ d) × (d < reconnect_max + second)))
    ⊎ (((33 < 3) × (3 < 55)) ⊎ ((55 ≤ 3) × (backoff_delay 3 70 ≡ pos 70)))
backoff_delay_bounds_example = backoff_delay_bounds 3 70 (omega arith)

-- the shift makes the wait negative at the 35th attempt
negative_wait : (d : ℕ) × (backoff_delay 34 0 ≡ negsuc d)
unfolding backoff_delay shifted
negative_wait = (_, refl)

abbrev ping : Frame
ping = record {
  spec_version = [];
  kind = sub_system;
  time = pos 0;
  headers = (bytes "topic", bytes "ping") ∷ (bytes "messageId", bytes "m1") ∷ [];
  content = bytes "{}";
}

handle_frame-Acknowledges_example :
    (ack : FrameAck) × (rest : List Action) × (handle_frame true (some ping) ≡ writes ack ∷ rest)
    × Acknowledges ping ack
    × Follows true ping ack rest
handle_frame-Acknowledges_example = handle_frame-Acknowledges true ping

abbrev turn : Attempt → Wait → Round
turn a w = record { attempt = a; stopped = false; cancelled = false; jitter = 5; wait = w }

abbrev rounds : List Round
rounds =
    turn (session (text_frame (some ping) ∷ read_error ∷ [])) elapses
    ∷ turn open_fails elapses
    ∷ turn (session (pong ∷ read_error ∷ [])) stop_comes
    ∷ []

abbrev settings : Settings
settings = record { has_hooks = true; has_handler = true; reconnects = true }

run-reconnects_example :
    ((run settings 0 true rounds).result ≢ some ends_error)
    × (readies (run settings 0 true rounds).log ≤ allowed true)
run-reconnects_example = run-reconnects settings 0 true rounds refl
