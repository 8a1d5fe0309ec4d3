-- ===== src/Reply/Webhook.antt =====
-- reply.go: replies over the session webhook, with the proactive send as a way out, and
-- outbound_retry.go. The HTTP exchange and the proactive send are libraries here: what they come to is
-- given by the number of the delivery and, for the exchange, of the attempt. Numbers of the
-- configuration that are not positive are 0.
pub mod Delivery
use dingtalk_channel_sdk_go.Prelude.{
  ltb, leb, eqb, if◌then◌else◌, length, take, Text, bytes, ◌==◌, is_empty, Map, lookup, insert, ℕ,
  zero, suc, ◌*◌, Bool, ◌&&◌, ◌||◌, Option, none, some, List, [], ◌∷◌, ◌++◌, map, arith,
}
use dingtalk_channel_sdk_go.Types.{millisecond}
use dingtalk_channel_sdk_go.Types.Errors.{GoError, classify_error, is_reply_target_gone}
use dingtalk_channel_sdk_go.Outbound.Split.{split_lines}
use dingtalk_channel_sdk_go.Outbound.Retry.{RetryOptions, default_retry_options, retry}
use dingtalk_channel_sdk_go.Reply.Chunks.{chunk_text}

pub record RetryConfig : Type 0 where
  pub max_attempts : ℕ
  pub base_delay_ms : ℕ

-- `msgParam`: a `map[string]string`, or another value that a hook has put in its place
pub data MsgParam : Type 0 where
  params : Map Text → MsgParam
  opaque : Text → MsgParam

-- The configuration of what is sent. The hook gets "reply" or "send" and the target; one that is nil
-- answers `none`.
pub record OutboundConfig : Type 0 where
  pub retry_config : RetryConfig
  pub before_send : Text → Text → MsgParam → Option MsgParam
  pub footer : Text

unfoldable pub retry_options : Option OutboundConfig → RetryOptions
unfolding default_retry_options
retry_options none = default_retry_options
retry_options (some out) =
    let base = out.retry_config.base_delay_ms * millisecond in
    if ltb 0 out.retry_config.max_attempts
    then record {
      max_attempts = out.retry_config.max_attempts;
      base_delay = if leb base 0 then default_retry_options.base_delay else base;
    }
    else default_retry_options

-- `m[key]`, "" if the key is missing
unfoldable pub value_at : Text → Map Text → Text
value_at key m = elim (lookup key m) [ none ↦ [] | some v ↦ v ]

-- `m2[key] += suffix`
unfoldable pub extend : Text → Text → Map Text → Map Text
unfolding value_at
extend key suffix m = insert key (value_at key m ++ suffix) m

-- the footer under a text or a markdown message
unfoldable pub add_footer : Text → Text → MsgParam → MsgParam
unfolding extend bytes
add_footer footer msg_key (opaque v) = opaque v
add_footer footer msg_key (params m) =
    if is_empty footer
    then params m
    else (if msg_key == bytes "sampleText"
        then params (extend (bytes "content") (bytes "\n\n" ++ footer) m)
        else (if msg_key == bytes "sampleMarkdown"
            then params (extend (bytes "text") (bytes "\n\n---\n" ++ footer) m)
            else params m))

-- `applyOutbound`, for replies and for proactive sends
unfoldable pub apply_outbound : Option OutboundConfig → Text → Text → Text → MsgParam → MsgParam
unfolding add_footer
apply_outbound none kind target msg_key p = p
apply_outbound (some out) kind target msg_key p =
    let footed = add_footer out.footer msg_key p in
    elim (out.before_send kind target footed) [ none ↦ footed | some replaced ↦ replaced ]

-- What the code of a reply does: a delivery over the webhook, with its end after all attempts, of
-- which `AfterSend` is told; and a call of `proactive`. The parameter is the one that the call is given:
-- `proactiveSend` of Send.antt puts the footer and the hook over it once more.
pub data Sending : Type 0 where
  by_webhook proactively : Text → MsgParam → Option GoError → Sending

-- the end of a call, with what it has done
abbrev pub Sent : Type 0
Sent = Option GoError × List Sending

pub record Replier : Type 0 where
  pub conversation_id : Text
  pub session_webhook : Text
  pub webhook_expired_at : ℕ
  pub outbound : Option OutboundConfig
  pub text_chunk_limit : ℕ
  -- `proactive`, if there is one
  pub proactive : Option (ℕ → Text → MsgParam → Option GoError)
  -- `webhookDo`, and whether the context ends in the wait after an attempt
  pub webhook_do : ℕ → ℕ → Option GoError
  pub cancelled : ℕ → ℕ → Bool
  pub ctx_err : GoError

-- `webhookOnceInner`
unfoldable pub webhook_once : Replier → ℕ → Option GoError
webhook_once r n =
    (retry (r.webhook_do n) (r.cancelled n) r.ctx_err (some (retry_options r.outbound))).result

unfoldable pub send_proactively :
    (ℕ → Text → MsgParam → Option GoError) → ℕ → Text → MsgParam → Sent
send_proactively send n msg_key p =
    (send n msg_key p, proactively msg_key p (send n msg_key p) ∷ [])

-- what follows a delivery over the webhook that has failed: where the webhook is gone, the same
-- parameter is given to `proactive`
unfoldable pub fall_back :
    Option (ℕ → Text → MsgParam → Option GoError) → ℕ → Text → MsgParam → GoError → Sent
unfolding send_proactively
fall_back none n msg_key p e = (some e, by_webhook msg_key p (some e) ∷ [])
fall_back (some send) n msg_key p e =
    let (end, log) = send_proactively send n msg_key p in
    if is_reply_target_gone (classify_error e)
    then (end, by_webhook msg_key p (some e) ∷ log)
    else (some e, by_webhook msg_key p (some e) ∷ [])

-- `deliverOnce`, as the delivery number `n` of the reply
unfoldable pub deliver_once : Replier → ℕ → Text → MsgParam → Sent
unfolding fall_back
deliver_once r n msg_key p = elim (webhook_once r n) [
  | none ↦ (none, by_webhook msg_key p none ∷ [])
  | some e ↦ fall_back r.proactive n msg_key p e
]

-- the loop over the chunks, after the first of which comes the rest if there was no error
abbrev pub and_then : Sent → Sent → Sent
and_then (none, log) (end, rest) = (end, log ++ rest)
and_then (some e, log) rest = (some e, log)

unfoldable pub deliver_all : Replier → ℕ → Text → List MsgParam → Sent
deliver_all r n msg_key [] = (none, [])
deliver_all r n msg_key (p ∷ ps) =
    and_then (deliver_once r n msg_key p) (deliver_all r (suc n) msg_key ps)

-- the parameter with one chunk
unfoldable pub content_param : Text → MsgParam
unfolding bytes
content_param c = params ((bytes "content", c) ∷ [])

unfoldable pub text_param : Text → Text → MsgParam
unfolding bytes
text_param title c = params ((bytes "title", title) ∷ (bytes "text", c) ∷ [])

-- the deliveries into which a parameter is cut
unfoldable pub parts_of : ℕ → MsgParam → List MsgParam
unfolding bytes value_at
parts_of zero p = p ∷ []
parts_of (suc limit) (opaque v) = opaque v ∷ []
parts_of (suc limit) (params m) = elim (lookup (bytes "content") m) [
  | some content ↦ map content_param (chunk_text content (suc limit))
  | none ↦ elim (lookup (bytes "text") m) [
    | some text ↦ map (text_param (value_at (bytes "title") m)) (chunk_text text (suc limit))
    | none ↦ params m ∷ []
  ]
]

-- `time.Now().UnixMilli() > msg.WebhookExpiredAt`, where there is a time
unfoldable pub webhook_expired : ℕ → Replier → Bool
webhook_expired now r = ltb 0 r.webhook_expired_at && ltb r.webhook_expired_at now

unfoldable pub missing_webhook : GoError
missing_webhook = record { chain = []; message = bytes "reply: sessionWebhook missing" }

-- `webhook`, after the hooks
unfoldable pub send_by :
    ℕ → Replier → Option (ℕ → Text → MsgParam → Option GoError) → Text → MsgParam → Sent
unfolding send_proactively
send_by now r none msg_key p =
    if is_empty r.session_webhook
    then (some missing_webhook, [])
    else deliver_all r 0 msg_key (parts_of r.text_chunk_limit p)
send_by now r (some send) msg_key p =
    if is_empty r.session_webhook || webhook_expired now r
    then send_proactively send 0 msg_key p
    else deliver_all r 0 msg_key (parts_of r.text_chunk_limit p)

unfoldable pub webhook : ℕ → Replier → Text → MsgParam → Sent
webhook now r msg_key p =
    send_by now r r.proactive msg_key
      (apply_outbound r.outbound (bytes "reply") r.conversation_id msg_key p)

unfoldable pub text : ℕ → Replier → Text → Sent
unfolding content_param bytes
text now r content = webhook now r (bytes "sampleText") (content_param content)

unfoldable pub image : ℕ → Replier → Text → Sent
unfolding bytes
image now r url = webhook now r (bytes "sampleImageMsg") (params ((bytes "photoURL", url) ∷ []))

-- `strings.TrimLeft(line, "#*-> \t")`
unfoldable pub trim_left : Text → Text
trim_left [] = []
trim_left (c ∷ s) =
    let rest = trim_left s in
    if eqb c 35 || eqb c 42 || eqb c 45 || eqb c 62 || eqb c 32 || eqb c 9 then rest else c ∷ s

unfoldable pub title_of : List Text → Text
unfolding bytes trim_left
title_of [] = bytes "Message"
title_of (line ∷ lines) =
    let t = trim_left line in
    let rest = title_of lines in
    if is_empty t then rest else (if ltb 20 (length t) then take 20 t else t)

unfoldable pub first_line_title : Text → Text
unfolding title_of
first_line_title s = title_of (split_lines s)

unfoldable pub markdown : ℕ → Replier → Text → Text → Sent
unfolding text_param bytes
markdown now r title content =
    webhook now r (bytes "sampleMarkdown")
      (text_param (if is_empty title then first_line_title content else title) content)

-- `firstNonEmpty`
unfoldable pub first_non_empty : List Text → Text
first_non_empty [] = []
first_non_empty (v ∷ vals) = if is_empty v then first_non_empty vals else v
