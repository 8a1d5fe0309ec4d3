-- ===== src/Channel/Dispatch.antt =====
-- channel.go: what is done with a frame, and when a channel starts. The decoding of the payloads is a
-- library: its results are arguments.
use dingtalk_channel_sdk_go.Prelude.{
  if◌then◌else◌, Text, bytes, ◌==◌, Bool, not, ◌||◌, Option, none, some, [], ◌∷◌, ◌++◌,
}
use dingtalk_channel_sdk_go.Types.{IncomingMessage}
use dingtalk_channel_sdk_go.Frame.{Frame, topic_of, message_id}
use dingtalk_channel_sdk_go.Normalize.Json.{Fields}
use dingtalk_channel_sdk_go.Normalize.Incoming.{CallbackData, normalize_incoming}
use dingtalk_channel_sdk_go.Safety.Pipeline.{SafetyPipeline}
use dingtalk_channel_sdk_go.Safety.Pipeline.Push.{
  Clock, content_fingerprint, push_message, push_action,
}

-- `topicBotMessage` and `topicCardInstanceCB`
unfoldable pub topic_bot_message : Text
unfolding bytes
topic_bot_message = bytes "/v1.0/im/bot/messages/get"

unfoldable pub topic_card_instance_cb : Text
unfolding bytes
topic_card_instance_cb = bytes "/v1.0/card/instances/callback"

-- the payload of a card action
pub record CardActionData : Type 0 where
  pub out_track_id : Text
  pub user_id : Text
  pub data_content : Text

-- a frame with its payload decoded as a message, and as a card action, if it can be
pub record Delivery : Type 0 where
  pub frame : Frame
  pub message : Option CallbackData
  pub action : Option CardActionData
  pub decode : Text → Option Fields

-- the scope of a card action, and the fingerprint by which it is known
unfoldable pub card_scope : CardActionData → Text
card_scope d = bytes "card:" ++ d.out_track_id

unfoldable pub action_fingerprint : (Text → Text) → CardActionData → Text
unfolding card_scope
action_fingerprint digest d = content_fingerprint digest (card_scope d) 0 d.user_id d.data_content

module _ (digest : Text → Text) (clock : Clock) (ok : Bool) where
  -- `processIncoming`
  unfoldable pub process_incoming : SafetyPipeline → Text → IncomingMessage → Option SafetyPipeline
  process_incoming p proto_id msg = push_message digest p clock proto_id msg ok

  -- `handleBotMessage`; `none` is a panic of the pipeline
  unfoldable pub handle_bot_message :
      SafetyPipeline → Frame → (Text → Option Fields) → Option CallbackData → Option SafetyPipeline
  unfolding process_incoming
  handle_bot_message p f decode none = some p
  handle_bot_message p f decode (some d) =
      process_incoming p (message_id f) (normalize_incoming decode f.content d)

  -- the pipeline after an action
  abbrev after_action : Option (SafetyPipeline × Bool) → Option SafetyPipeline
  after_action none = none
  after_action (some (p, ran)) = some p

  -- `handleCardAction`
  unfoldable pub handle_card_action :
      Bool → SafetyPipeline → Frame → Option CardActionData → Option SafetyPipeline
  unfolding action_fingerprint card_scope
  handle_card_action has_handler p f none = some p
  handle_card_action has_handler p f (some d) =
      let pushed =
        push_action p clock (message_id f) (card_scope d) (action_fingerprint digest d ∷ []) ok in
      if has_handler then after_action pushed else some p

  -- `dispatchFrame`
  unfoldable pub dispatch_frame : Bool → SafetyPipeline → Delivery → Option SafetyPipeline
  unfolding handle_bot_message handle_card_action
  dispatch_frame has_handler p d =
      let topic = topic_of d.frame in
      if topic == topic_bot_message
      then handle_bot_message p d.frame d.decode d.message
      else (if topic == topic_card_instance_cb
          then handle_card_action has_handler p d.frame d.action
          else some p)

-- `validateTransport`: stream, http or an error
unfoldable pub valid_transport : Text → Bool
unfolding bytes
valid_transport t = t == bytes "stream" || t == bytes "http"

-- how `Start` ends before the connection runs, if it does
pub data StartError : Type 0 where
  no_handler unknown_transport http_mode : StartError

unfoldable pub start : Bool → Bool → Text → Option StartError
unfolding valid_transport bytes
start on_message on_batch transport =
    if not (on_message || on_batch)
    then some no_handler
    else (if not (valid_transport transport)
        then some unknown_transport
        else (if transport == bytes "http" then some http_mode else none))
