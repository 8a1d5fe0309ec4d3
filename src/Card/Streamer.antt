-- ===== src/Card/Streamer.antt =====
-- card.go: the state of a streaming card and what its operations do under the lock. Requests are made
-- without the lock: an operation leaves a task, which `Card/Requests` performs at any later time.
use dingtalk_channel_sdk_go.Prelude.{
  ltb, leb, if◌then◌else◌, is_some, Text, is_empty, ℕ, ◌-◌, ◌*◌, Bool, true, false, not, ◌&&◌, ◌||◌,
  Option, none, some, List, [], ◌∷◌, ◌++◌,
}
use dingtalk_channel_sdk_go.Types.{second, millisecond}

-- `cardFrameGap`, `cardMaxContent`, `longGapThreshold` and `longGapBatchWait`
abbrev pub card_frame_gap : ℕ
card_frame_gap = 500 * millisecond

abbrev pub card_max_content : ℕ
card_max_content = 20000

abbrev pub long_gap_threshold : ℕ
long_gap_threshold = 2 * second

abbrev pub long_gap_batch_wait : ℕ
long_gap_batch_wait = 300 * millisecond

-- `cardInstance`, without its id
pub record CardInstance : Type 0 where
  pub inputing_started : Bool

pub data Flow : Type 0 where
  inputing finished failed : Flow

-- What a streamer sends: a status with its content, a frame of content (final or not), a text over
-- the fallback, the rest of a long text; each with whether that succeeds.
pub data Action : Type 0 where
  puts : Flow → Text → Bool → Action
  streams : Text → Bool → Bool → Action
  falls_back delivers_rest : Text → Bool → Action

-- the requests that an operation still has to make, with the content that it has read
pub data Task : Type 0 where
  updating finishing watching aborting failing : Text → Task

-- `cardStreamer`. A time that was never set is `none`; `cancelled` is the end of its context.
pub record CardStreamer : Type 0 where
  pub card : Option CardInstance
  pub accumulated : Text
  pub last_update : Option ℕ
  pub closed : Bool
  pub has_pending : Bool
  pub frame_count : ℕ
  pub last_frame_at : Option ℕ
  pub watchdog : Bool
  pub aborted : Bool
  pub cancelled : Bool
  pub tasks : List Task
  pub log : List Action

-- the settings of a streamer; `norm` is `normalizeForCard`
pub record CardConfig : Type 0 where
  pub throttle : ℕ
  pub card_watchdog : ℕ
  pub has_fallback : Bool
  pub has_rest : Bool
  pub norm : Text → Text

pub data Fault : Type 0 where
  already_closed no_card ctx_done api_fault : Fault

-- `now.Sub(t) >= d`, and `> d`
unfoldable pub reached : ℕ → Option ℕ → ℕ → Bool
reached now none d = true
reached now (some t) d = leb d (now - t)

unfoldable pub passed : ℕ → Option ℕ → ℕ → Bool
passed now none d = true
passed now (some t) d = ltb d (now - t)

unfoldable pub card_delivered : CardStreamer → Bool
card_delivered s = is_some s.card

abbrev pub add_task : Task → CardStreamer → CardStreamer
add_task t s = record s { tasks = s.tasks ++ (t ∷ []) }

-- `resetWatchdogLocked`
unfoldable pub reset_watchdog : CardConfig → CardStreamer → CardStreamer
reset_watchdog cfg s = record s {
  watchdog = s.watchdog || (ltb 0 cfg.card_watchdog && is_some s.card);
}

-- A streamer as `Stream` makes it, whether or not the card could be created.
unfoldable pub new_streamer : CardConfig → Bool → CardStreamer
unfolding reset_watchdog
new_streamer cfg created = reset_watchdog cfg (record {
  card = if created then some (record { inputing_started = false }) else none;
  accumulated = [];
  last_update = none;
  closed = false;
  has_pending = false;
  frame_count = 0;
  last_frame_at = none;
  watchdog = false;
  aborted = false;
  cancelled = false;
  tasks = [];
  log = [];
})

-- what `Append` does on a card, after it has added the text
unfoldable pub place : CardConfig → ℕ → CardStreamer → CardStreamer
unfolding reached passed
place cfg now s =
    if reached now s.last_update cfg.throttle
    then (if passed now s.last_update long_gap_threshold
        then record s { has_pending = true }
        else add_task (updating s.accumulated) (record s { last_update = some now }))
    else record s { has_pending = true }

-- `Append` up to its requests; the fault is that of a closed streamer
unfoldable pub append : CardConfig → ℕ → Text → CardStreamer → Option Fault × CardStreamer
unfolding place
append cfg now delta s =
    let added = record s { accumulated = s.accumulated ++ delta } in
    if s.closed
    then (some already_closed, s)
    else (none, if is_some s.card then place cfg now added else added)

-- the timer of `schedulePendingLocked`
unfoldable pub pending_fires : ℕ → CardStreamer → CardStreamer
pending_fires now s =
    let idle = record s { has_pending = false } in
    if s.closed || not (is_some s.card)
    then idle
    else add_task (updating s.accumulated) (record idle { last_update = some now })

-- the timer of `resetWatchdogLocked`
unfoldable pub watchdog_fires : CardStreamer → CardStreamer
watchdog_fires s =
    if s.closed || not (is_some s.card)
    then s
    else add_task (watching s.accumulated) (record s { closed = true })

-- `Finish`, `Abort` and `Fail` up to their requests
unfoldable pub finish : Text → CardStreamer → CardStreamer
finish text s =
    let content = if is_empty text then s.accumulated else text in
    if s.closed
    then s
    else add_task (finishing content)
        (record s { closed = true; watchdog = false; accumulated = content })

unfoldable pub abort : CardStreamer → CardStreamer
abort s =
    if s.closed
    then s
    else add_task (aborting s.accumulated)
        (record s { closed = true; watchdog = false; aborted = true })

unfoldable pub fail : Text → CardStreamer → CardStreamer
fail text s = if s.closed then s else add_task (failing text) (record s { closed = true })
