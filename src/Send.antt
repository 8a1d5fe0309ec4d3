-- ===== src/Send.antt =====
-- send.go: proactive messages. The call of the card client is a library here: it is given by the number
-- of the attempt what it comes to. Durations are below 10 ^ 20 and 0 where they are not positive.
use dingtalk_channel_sdk_go.Prelude.{
  leb, if◌then◌else◌, Text, bytes, is_empty, ℕ, Bool, true, false, not, Option, none, some, List,
  [], ◌∷◌,
}
use dingtalk_channel_sdk_go.Types.Errors.{GoError}
use dingtalk_channel_sdk_go.Safety.Pipeline.Push.{digits}
use dingtalk_channel_sdk_go.Outbound.Retry.{retry}
use dingtalk_channel_sdk_go.Reply.Webhook.{
  MsgParam, params, OutboundConfig, retry_options, apply_outbound, content_param, text_param,
  first_line_title,
}

pub record SendTarget : Type 0 where
  pub user_id : Text
  pub conversation_id : Text
  pub at_user_ids : List Text
  pub at_dingtalk_ids : List Text
  pub at_all : Bool

-- a user or a conversation, not both
unfoldable pub valid : SendTarget → Bool
valid t = elim (is_empty t.user_id) [
  | true ↦ not (is_empty t.conversation_id)
  | false ↦ is_empty t.conversation_id
]

-- The request of a send: to one user, or to a group with the options that are set.
pub data Request : Type 0 where
  batch_send : Text → Text → MsgParam → Request
  group_send : Text → List Text → List Text → Bool → Text → MsgParam → Request

unfoldable pub request_for : SendTarget → Text → MsgParam → Request
request_for t msg_key p =
    if is_empty t.user_id
    then group_send t.conversation_id t.at_user_ids t.at_dingtalk_ids t.at_all msg_key p
    else batch_send t.user_id msg_key p

unfoldable pub invalid_target : GoError
invalid_target = record {
  chain = [];
  message = bytes "SendTarget: 恰好设置 UserID（单聊）或 ConversationID（群聊）之一";
}

-- The end of a send, with the request that is made, if there is one. `AfterSend` is told of the end
-- of the request.
pub record SendResult : Type 0 where
  pub err : Option GoError
  pub request : Option Request

-- the environment of a send: the outcome of the call at each attempt, and the context
pub record Sender : Type 0 where
  pub outbound : Option OutboundConfig
  pub call : Request → ℕ → Option GoError
  pub cancelled : ℕ → Bool
  pub ctx_err : GoError

unfoldable pub proactive_send_inner : Sender → SendTarget → Text → MsgParam → SendResult
proactive_send_inner c t msg_key p =
    let req = request_for t msg_key p in
    record {
      err = (retry (c.call req) c.cancelled c.ctx_err (some (retry_options c.outbound))).result;
      request = some req;
    }

unfoldable pub proactive_send : Sender → SendTarget → Text → MsgParam → SendResult
unfolding proactive_send_inner
proactive_send c t msg_key p =
    let target = if is_empty t.user_id then t.conversation_id else t.user_id in
    if not (valid t)
    then record { err = some invalid_target; request = none }
    else proactive_send_inner c t msg_key
        (apply_outbound c.outbound (bytes "send") target msg_key p)

unfoldable pub send_text : Sender → SendTarget → Text → SendResult
unfolding content_param
send_text c t content = proactive_send c t (bytes "sampleText") (content_param content)

unfoldable pub send_markdown : Sender → SendTarget → Text → Text → SendResult
unfolding text_param
send_markdown c t title content =
    proactive_send c t (bytes "sampleMarkdown")
      (text_param (if is_empty title then first_line_title content else title) content)

unfoldable pub send_file : Sender → SendTarget → Text → Text → SendResult
send_file c t file_name media_id = proactive_send c t (bytes "sampleFile") (
    params (
      (bytes "mediaId", media_id)
      ∷ (bytes "fileName", file_name)
      ∷ (bytes "fileType", bytes "png")
      ∷ []))

-- `strconv.Itoa` of a duration, with a minute in place of one that is not positive
unfoldable pub duration_text : ℕ → Text
unfolding digits
duration_text ms = digits 20 (if leb ms 0 then 60000 else ms) []

unfoldable pub send_video : Sender → SendTarget → Text → Text → ℕ → SendResult
unfolding duration_text
send_video c t video_id pic_id ms = proactive_send c t (bytes "sampleVideo") (
    params (
      (bytes "duration", duration_text ms)
      ∷ (bytes "videoMediaId", video_id)
      ∷ (bytes "videoType", bytes "mp4")
      ∷ (bytes "picMediaId", pic_id)
      ∷ []))

unfoldable pub send_audio : Sender → SendTarget → Text → ℕ → SendResult
unfolding duration_text
send_audio c t media_id ms =
    proactive_send c t (bytes "sampleAudio")
      (params ((bytes "mediaId", media_id) ∷ (bytes "duration", duration_text ms) ∷ []))

unfoldable pub send_image : Sender → SendTarget → Text → SendResult
send_image c t url =
    proactive_send c t (bytes "sampleImageMsg") (params ((bytes "photoURL", url) ∷ []))
