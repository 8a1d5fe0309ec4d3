-- ===== src/Stream.antt =====
-- stream.go: the long connection. Dialling, the gateway's answer and the socket are libraries, so a
-- round of `Run` is given what they come to, and the log has what the code does, in order. Of the
-- errors only their presence matters here.
pub mod Backoff
pub mod Acks
pub mod Rounds
use dingtalk_channel_sdk_go.Prelude.{
  ltb, leb, if◌then◌else◌, bytes, ◌==◌, ℤ, pos, negsuc, ℕ, zero, suc, ◌+◌, ◌-◌, ◌*◌, ◌%◌, ◌^◌, Bool,
  true, false, not, ◌&&◌, Option, none, some, List, [], ◌∷◌, ◌++◌, arith,
}
use dingtalk_channel_sdk_go.Types.{second}
use dingtalk_channel_sdk_go.Frame.{
  Frame, FrameAck, Subscription, sub_callback, sub_system, topic_of, message_id, success_ack,
}

-- `DefaultReconnectBase` and `DefaultReconnectMax`
abbrev pub reconnect_base : ℕ
reconnect_base = second

abbrev pub reconnect_max : ℕ
reconnect_max = 30 * second

-- the bits of `base << attempt`, an `int64`
unfoldable pub shifted : ℕ → ℕ
shifted attempt = reconnect_base * 2 ^ attempt % 2 ^ 64

-- `backoffDelay`, in nanoseconds, with the number that `randInt64` draws below a second. Bits from
-- 2 ^ 63 on stand for a negative number, which passes the test against the maximum.
unfoldable pub backoff_delay : ℕ → ℕ → ℤ
unfolding shifted
backoff_delay attempt jitter =
    let d = shifted attempt in
    let below = 2 ^ 64 - d in
    if ltb d (2 ^ 63)
    then pos ((if ltb reconnect_max d then reconnect_max else d) + jitter)
    else (if leb below jitter then pos (jitter - below) else negsuc (below - jitter - 1))

-- the topics that `open` asks for
unfoldable pub subscriptions : Bool → List Subscription
unfolding bytes sub_callback sub_system
subscriptions card_topic_wanted =
    record { kind = sub_system; topic = bytes "ping" }
    ∷ record { kind = sub_system; topic = bytes "disconnect" }
    ∷ record { kind = sub_callback; topic = bytes "/v1.0/im/bot/messages/get" }
    ∷ (if card_topic_wanted
        then record { kind = sub_callback; topic = bytes "/v1.0/card/instances/callback" } ∷ []
        else [])

-- What the code does: the hooks that it fires, what it writes, what it gives to `onFrame`.
pub data Action : Type 0 where
  fires_ready fires_reconnected fires_disconnected fires_reconnecting fires_error : Action
  writes : FrameAck → Action
  hands : Frame → Action
  pings closes : Action

-- `handleFrame`; a frame that cannot be decoded is `none`. `has_handler`: `onFrame` is not nil.
unfoldable pub handle_frame : Bool → Option Frame → List Action
handle_frame has_handler none = []
handle_frame has_handler (some f) =
    let ack = success_ack (message_id f) [] in
    if (f.kind == sub_system) && (topic_of f == bytes "ping")
    then writes (record (success_ack (message_id f) f.content) { content = f.content }) ∷ []
    else (if (f.kind == sub_system) && (topic_of f == bytes "disconnect")
        then writes ack ∷ closes ∷ []
        else (writes ack ∷ (if has_handler then hands f ∷ [] else [])))

-- What a turn of the read loop meets: a text frame; an error of the read; the idle timer, after which
-- the ping fails, is answered, is not answered in time, or an error comes first; the end by `Close`
-- or by the context.
pub data ReadEvent : Type 0 where
  text_frame : Option Frame → ReadEvent
  read_error ping_failed pong pong_timeout pong_error read_stopped read_cancelled : ReadEvent

-- how a part of the run ends
pub data End : Type 0 where
  ends_nil ends_error ends_ctx : End

abbrev pub logged : List Action → Option End × List Action → Option End × List Action
logged actions (end, rest) = (end, actions ++ rest)

-- `readLoop` on the events that it meets; it goes on (`none`) when they are used up
unfoldable pub read_loop : Bool → Bool → List ReadEvent → Option End × List Action
read_loop has_hooks has_handler [] = (none, [])
read_loop has_hooks has_handler (text_frame f ∷ es) =
    logged (handle_frame has_handler f) (read_loop has_hooks has_handler es)
read_loop has_hooks has_handler (read_error ∷ es) =
    (some ends_error, if has_hooks then fires_error ∷ [] else [])
read_loop has_hooks has_handler (pong ∷ es) =
    logged (pings ∷ []) (read_loop has_hooks has_handler es)
read_loop has_hooks has_handler (ping_failed ∷ es) = (some ends_error, pings ∷ [])
read_loop has_hooks has_handler (pong_timeout ∷ es) = (some ends_error, pings ∷ [])
read_loop has_hooks has_handler (pong_error ∷ es) = (some ends_error, pings ∷ [])
read_loop has_hooks has_handler (read_stopped ∷ es) = (some ends_nil, [])
read_loop has_hooks has_handler (read_cancelled ∷ es) = (some ends_ctx, [])

-- What a call of `runOnce` meets: `open` or the dial fails; `Close` came before the connection was
-- there; or a session with its events.
pub data Attempt : Type 0 where
  open_fails dial_fails closed_first : Attempt
  session : List ReadEvent → Attempt

-- `runOnce`, with whether it was connected
unfoldable pub run_once : Bool → Bool → Bool → Attempt → Option End × List Action × Bool
run_once has_hooks has_handler first open_fails =
    (some ends_error, (if has_hooks then fires_error ∷ [] else []), false)
run_once has_hooks has_handler first dial_fails =
    (some ends_error, (if has_hooks then fires_error ∷ [] else []), false)
run_once has_hooks has_handler first closed_first = (some ends_nil, [], false)
run_once has_hooks has_handler first (session es) =
    let (end, log) = read_loop has_hooks has_handler es in
    let fired = if first then fires_ready else fires_reconnected in
    (end, (if has_hooks then fired ∷ log else log), true)

-- how the wait before a reconnection ends
pub data Wait : Type 0 where
  elapses stop_comes context_ends : Wait

-- A round of the loop of `Run`: the attempt, what is found after it, and the wait.
pub record Round : Type 0 where
  pub attempt : Attempt
  pub stopped : Bool
  pub cancelled : Bool
  pub jitter : ℕ
  pub wait : Wait

pub record Settings : Type 0 where
  pub has_hooks : Bool
  pub has_handler : Bool
  pub reconnects : Bool

-- What a run has done so far, and how it ended, if it did.
pub record Run : Type 0 where
  pub result : Option End
  pub log : List Action
  pub delays : List ℤ

-- the log of a reconnection
unfoldable pub reconnection : Settings → List Action
reconnection s = if s.has_hooks then fires_disconnected ∷ fires_reconnecting ∷ [] else []

unfoldable pub ended : Option End → List Action → List ℤ → Run
ended e log delays = record { result = e; log = log; delays = delays }

abbrev pub before : List Action → List ℤ → Run → Run
before log delays r = record r { log = log ++ r.log; delays = delays ++ r.delays }

-- what follows the wait
unfoldable pub after_wait : List Action → ℤ → Run → Wait → Run
unfolding ended
after_wait log delay rest elapses = before log (delay ∷ []) rest
after_wait log delay rest stop_comes = ended (some ends_nil) log (delay ∷ [])
after_wait log delay rest context_ends = ended (some ends_ctx) log (delay ∷ [])

-- what follows an attempt: an end, or the wait and the rest of the run
unfoldable pub conclude : Settings → Round → List Action → ℤ → Run → Option End → Run
unfolding ended reconnection
conclude s r log delay rest none = ended none log []
conclude s r log delay rest (some e) =
    let log' = log ++ reconnection s in
    if r.stopped
    then ended (some ends_nil) log []
    else (if r.cancelled
        then ended (some ends_ctx) log []
        else (if not s.reconnects
            then ended (some e) log []
            else after_wait log' delay rest r.wait))

-- `Run`, from a count of attempts on, over the rounds
unfoldable pub run : Settings → ℕ → Bool → List Round → Run
run s attempt first [] = ended none [] []
run s attempt first (r ∷ rs) =
    let (end, log, connected) = run_once s.has_hooks s.has_handler first r.attempt in
    let count = if connected then 0 else attempt in
    conclude s r log (backoff_delay count r.jitter) (run s (suc count) false rs) end
