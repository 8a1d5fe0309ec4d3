-- ===== src/Witnesses/Reply.antt =====
-- Replies, cards and proactive sends.
use dingtalk_channel_sdk_go.Prelude.{
  ℕ, is_some, any, All, length, Text, bytes, contains, runes, is_space_rune, string_of, IsUtf8, ◌≤◌,
  ◌<◌, ◌≡◌, ◌⊎◌, refl, true, false, none, some, List, map, [], ◌∷◌, ◌++◌,
}
use mathlib.Core.List.{Mem, flatten}
use dingtalk_channel_sdk_go.Reply.Chunks.{chunk_text, cut_up, cut_of, newline_cut, is_newline_at}
use dingtalk_channel_sdk_go.Reply.Chunks.Content.{IsShort, chunk_text-content}
use dingtalk_channel_sdk_go.Reply.Webhook.{MsgParam, Replier, webhook, proactively, content_param}
use dingtalk_channel_sdk_go.Card.Streamer.{CardConfig, new_streamer, falls_back}
use dingtalk_channel_sdk_go.Card.Requests.{
  Answers, finish_requests, truncate, overflow_remainder, is_blank,
}
use dingtalk_channel_sdk_go.Card.Requests.Within.{count, is_final, is_ending}
use dingtalk_channel_sdk_go.Card.Requests.Told.{Tells, finish_requests-Tells}
use dingtalk_channel_sdk_go.Card.Steps.{
  Event, appends, pending_timer, aborts, finishes, performs, run,
}
use dingtalk_channel_sdk_go.Card.Steps.Sealed.{limit_of, run-new_streamer}
use dingtalk_channel_sdk_go.Send.{invalid_target}
use dingtalk_channel_sdk_go.Channel.{Channel, proactive_reply, replier_for, card_message}
use dingtalk_channel_sdk_go.Channel.CardReplies.{webhook-card_message}

abbrev lines : Text
lines = b'a' ∷ b'b' ∷ b'c' ∷ 10 ∷ b'd' ∷ 0xC3 ∷ 0xA9 ∷ []

-- the newline behind three characters is a fourth one of the first chunk
chunks_of_lines :
    chunk_text lines 3 ≡ (b'a' ∷ b'b' ∷ b'c' ∷ 10 ∷ []) ∷ (b'd' ∷ 0xC3 ∷ 0xA9 ∷ []) ∷ []
unfolding chunk_text runes contains cut_up string_of cut_of newline_cut is_newline_at
chunks_of_lines = refl

abbrev limit : ℕ
limit = 3

chunk_text-content_example :
    (string_of (chunk_text lines limit) ≡ lines)
    × ((((limit ≡ 0) ⊎ (length (runes lines) ≤ limit)) × (chunk_text lines limit ≡ lines ∷ []))
        ⊎ ((0 < limit)
            × (limit < length (runes lines))
            × ((parts : List (List Text)) × (chunk_text lines limit ≡ map string_of parts)
                × (flatten parts ≡ runes lines)
                × All (IsShort 4) parts)))
unfolding runes string_of contains bytes
chunk_text-content_example = chunk_text-content lines limit refl refl

abbrev replier : Replier
replier = record {
  conversation_id = bytes "c1";
  session_webhook = bytes "https://hook";
  webhook_expired_at = 0;
  outbound = none;
  text_chunk_limit = 3;
  proactive = none;
  webhook_do = λ n attempt. none;
  cancelled = λ n attempt. false;
  ctx_err = record { chain = []; message = [] };
}

abbrev config : CardConfig
config = record {
  throttle = 800;
  card_watchdog = 1000;
  has_fallback = true;
  has_rest = true;
  norm = λ s. s;
}

abbrev answers : Answers
answers = record {
  now = 10;
  later = 20;
  gap_ok = true;
  inputing_ok = true;
  frame_ok = true;
  status_ok = true;
  fallback_ok = true;
  rest_ok = true;
}

abbrev events : List Event
events =
    appends 1 lines
    ∷ pending_timer 2
    ∷ finishes []
    ∷ performs 0 answers
    ∷ performs 0 answers
    ∷ aborts
    ∷ []

run-new_streamer_example :
    let s = run config (new_streamer config true) events in
    (count is_final s.log ≤ limit_of s.closed) × (count is_ending s.log ≤ limit_of s.closed)
run-new_streamer_example = run-new_streamer config true events

finish_requests-Tells_example :
    let s = new_streamer config true in
    (is_some s.card ≡ true → Tells config lines answers (finish_requests config lines answers s))
    × (is_some s.card ≡ false
        → Mem (falls_back lines true) (finish_requests config lines answers s).sent)
    × (IsUtf8 lines → truncate lines ++ overflow_remainder lines ≡ lines)
unfolding is_blank runes any is_space_rune
finish_requests-Tells_example =
    finish_requests-Tells config lines answers (new_streamer config true) refl refl

abbrev channel : Channel
channel = record {
  outbound = none;
  text_chunk_limit = 3500;
  webhook_do = λ n attempt. none;
  webhook_cancelled = λ n attempt. false;
  senders = λ n. record {
    outbound = none;
    call = λ req attempt. none;
    cancelled = λ attempt. false;
    ctx_err = record { chain = []; message = [] };
  };
  ctx_err = record { chain = []; message = [] };
}

webhook-card_message_example :
    (sent : MsgParam) × (webhook 5
        (replier_for channel (card_message (bytes "card_1")))
        (bytes "sampleText")
        (content_param lines)
      ≡ (some invalid_target, proactively (bytes "sampleText") sent (some invalid_target) ∷ []))
    × (proactive_reply channel (card_message (bytes "card_1")) 0 (bytes "sampleText") sent
        ≡ record { err = some invalid_target; request = none })
webhook-card_message_example =
    webhook-card_message 5 channel (bytes "card_1") (bytes "sampleText") (content_param lines)
