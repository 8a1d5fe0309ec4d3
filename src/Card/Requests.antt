-- ===== src/Card/Requests.antt =====
-- card.go: the requests of a task, and the runs of a streamer. Whether a request succeeds is given.
pub mod Within
pub mod Told
use dingtalk_channel_sdk_go.Prelude.{
  ltb, eqb, if◌then◌else◌, is_some, length, take, drop, any, Text, is_empty, runes, is_space_rune,
  string_of, ℕ, zero, suc, ◌-◌, Bool, true, false, not, ◌&&◌, ◌||◌, Option, none, some, List, [],
  ◌∷◌, ◌++◌, arith,
}
use dingtalk_channel_sdk_go.Card.Streamer.{
  card_frame_gap, card_max_content, CardInstance, inputing, finished, failed, Action, puts, streams,
  falls_back, delivers_rest, Task, updating, finishing, watching, aborting, failing, CardStreamer,
  CardConfig, Fault, no_card, ctx_done, api_fault, reset_watchdog,
}

-- What the requests of a task meet: the time before and after the wait for the gap, whether that
-- wait is over before the context is, and which requests succeed.
pub record Answers : Type 0 where
  pub now : ℕ
  pub later : ℕ
  pub gap_ok : Bool
  pub inputing_ok : Bool
  pub frame_ok : Bool
  pub status_ok : Bool
  pub fallback_ok : Bool
  pub rest_ok : Bool

-- `strings.TrimSpace(s) == ""`: every character is a space
unfoldable pub is_blank : Text → Bool
is_blank s = not (any (λ r. not (is_space_rune r)) (runes s))

-- the content of a frame, and `overflowRemainder`
unfoldable pub truncate : Text → Text
truncate content =
    let rs = runes content in
    if ltb card_max_content (length rs) then string_of (take card_max_content rs) else content

unfoldable pub overflow_remainder : Text → Text
overflow_remainder content =
    let rs = runes content in
    if ltb card_max_content (length rs) then string_of (drop card_max_content rs) else []

-- the trailing newlines that a frame which is not final loses
unfoldable pub trim_newlines : Text → Text
trim_newlines [] = []
trim_newlines (c ∷ s) =
    let rest = trim_newlines s in if eqb c 10 && is_empty rest then [] else c ∷ rest

-- `stream`: the content of the request
unfoldable pub stream_body : CardConfig → Text → Bool → Text
stream_body cfg content finalize =
    if finalize then cfg.norm content else trim_newlines (cfg.norm content)

-- What a task comes to: its fault, what it sends, and the streamer with its flags.
pub record Done : Type 0 where
  pub fault : Option Fault
  pub sent : List Action
  pub streamer : CardStreamer

unfoldable pub done : Option Fault → List Action → CardStreamer → Done
done fault sent s = record { fault = fault; sent = sent; streamer = s }

abbrev pub fault_of : Bool → Option Fault
fault_of true = none
fault_of false = some api_fault

-- `tryFallback`
unfoldable pub try_fallback : CardConfig → Text → Bool → Option Fault × List Action
try_fallback cfg text ok =
    if not cfg.has_fallback || is_blank text
    then (none, [])
    else (fault_of ok, falls_back text ok ∷ [])

-- the wait before the first and before the final frame is cut off
unfoldable pub gap_fails : CardStreamer → Bool → Answers → Bool
gap_fails s finalize a =
    (eqb s.frame_count 0 || finalize)
    && (not a.gap_ok
        && elim s.last_frame_at [ none ↦ false | some t ↦ ltb (a.now - t) card_frame_gap ])

-- the frame itself
unfoldable pub send_frame : CardConfig → Text → Bool → Answers → CardStreamer → Done
unfolding done stream_body reset_watchdog
send_frame cfg content finalize a s =
    done (fault_of a.frame_ok) (streams (stream_body cfg content finalize) finalize a.frame_ok ∷ [])
      (reset_watchdog cfg
        (record s { frame_count = suc s.frame_count; last_frame_at = some a.later }))

-- the first status, then the frame
unfoldable pub start_inputing : CardConfig → Text → Bool → Answers → CardStreamer → Done
unfolding done
start_inputing cfg content finalize a s =
    let status = puts inputing (cfg.norm content) a.inputing_ok in
    let d =
      send_frame cfg content finalize a
        (record s { card = some (record { inputing_started = true }) }) in
    if a.inputing_ok
    then record d { sent = status ∷ d.sent }
    else done (some api_fault) (status ∷ []) s

-- `update`, on a card
unfoldable pub update_on :
    CardConfig → Text → Bool → Answers → CardStreamer → Option CardInstance → Done
unfolding done
update_on cfg content finalize a s none = done (some no_card) [] s
update_on cfg content finalize a s (some card) =
    let cut = truncate content in
    if gap_fails s finalize a
    then done (some ctx_done) [] s
    else (if card.inputing_started
        then send_frame cfg cut finalize a s
        else start_inputing cfg cut finalize a s)

-- `update`
unfoldable pub update : CardConfig → Text → Bool → Answers → CardStreamer → Done
update cfg content finalize a s = update_on cfg content finalize a s s.card

-- the end of `Finish` when the final frame has been sent
unfoldable pub close_card : CardConfig → Text → Answers → CardStreamer → Done
unfolding done
close_card cfg content a s =
    let rest = overflow_remainder content in
    done (fault_of a.status_ok)
      (puts finished (cfg.norm content) a.status_ok
        ∷ ((if a.status_ok then [] else (try_fallback cfg content a.fallback_ok).1)
            ++ (if is_empty rest || not cfg.has_rest
                then []
                else delivers_rest rest a.rest_ok ∷ [])))
      (record s { cancelled = true })

-- what follows the final frame
unfoldable pub after_frame :
    CardConfig → Text → Answers → List Action → CardStreamer → Option Fault → Done
unfolding done
after_frame cfg content a sent s (some e) =
    done (some e) (sent ++ (try_fallback cfg content a.fallback_ok).1) s
after_frame cfg content a sent s none =
    let closed = close_card cfg content a s in record closed { sent = sent ++ closed.sent }

unfoldable pub finish_requests : CardConfig → Text → Answers → CardStreamer → Done
unfolding done
finish_requests cfg content a s =
    let (fault, sent) = try_fallback cfg content a.fallback_ok in
    let d = update cfg content true a s in
    let on_card = after_frame cfg content a d.sent d.streamer d.fault in
    if is_some s.card then on_card else done fault sent s

-- `updateDirect`
unfoldable pub watch_requests : CardConfig → Text → Answers → CardStreamer → Done
unfolding done stream_body
watch_requests cfg content a s =
    let frame = streams (stream_body cfg content true) true a.frame_ok in
    if a.frame_ok
    then done (fault_of a.status_ok) (frame ∷ puts finished (cfg.norm content) a.status_ok ∷ []) s
    else done (some api_fault) (frame ∷ []) s

unfoldable pub abort_requests : CardConfig → Text → Answers → CardStreamer → Done
unfolding done stream_body
abort_requests cfg content a s =
    if is_some s.card
    then done (fault_of a.status_ok)
        (streams (stream_body cfg content true) true a.frame_ok
          ∷ puts failed (cfg.norm content) a.status_ok
          ∷ [])
        s
    else done none [] s

-- the requests of `Fail` on a card
unfoldable pub fail_on : CardConfig → Text → Answers → Option CardInstance → List Action
unfolding stream_body
fail_on cfg text a none = []
fail_on cfg text a (some card) =
    (if card.inputing_started then [] else puts inputing [] a.inputing_ok ∷ [])
    ++ (streams (stream_body cfg text true) true a.frame_ok
        ∷ puts failed (cfg.norm text) a.status_ok
        ∷ [])

unfoldable pub fail_requests : CardConfig → Text → Answers → CardStreamer → Done
unfolding done fail_on
fail_requests cfg text a s =
    let (fault, sent) = try_fallback cfg text a.fallback_ok in
    let started = if is_some s.card then some (record { inputing_started = true }) else none in
    done fault (fail_on cfg text a s.card ++ sent) (record s { card = started; cancelled = true })

-- The requests of a task.
unfoldable pub perform : CardConfig → Task → Answers → CardStreamer → Done
perform cfg (updating content) a s = update cfg content false a s
perform cfg (finishing content) a s = finish_requests cfg content a s
perform cfg (watching content) a s = watch_requests cfg content a s
perform cfg (aborting content) a s = abort_requests cfg content a s
perform cfg (failing text) a s = fail_requests cfg text a s
