-- ===== src/Channel.antt =====
-- channel.go: how the channel hands replies to its handlers.
pub mod CardReplies
pub mod Dispatch
use dingtalk_channel_sdk_go.Prelude.{
  if◌then◌else◌, Text, ◌==◌, ℤ, pos, negsuc, ℕ, zero, suc, Bool, false, Option, some, [], ◌∷◌,
  arith,
}
use dingtalk_channel_sdk_go.Types.{IncomingMessage, conversation_type_group}
use dingtalk_channel_sdk_go.Types.Errors.{GoError}
use dingtalk_channel_sdk_go.Reply.Webhook.{MsgParam, OutboundConfig, Replier, first_non_empty}
use dingtalk_channel_sdk_go.Send.{SendTarget, Sender, SendResult, proactive_send}

-- What the parts of a channel come to: the exchanges of a reply, by its delivery and attempt, and the
-- calls of a proactive send, by its delivery.
pub record Channel : Type 0 where
  pub outbound : Option OutboundConfig
  pub text_chunk_limit : ℕ
  pub webhook_do : ℕ → ℕ → Option GoError
  pub webhook_cancelled : ℕ → ℕ → Bool
  pub senders : ℕ → Sender
  pub ctx_err : GoError

-- `proactiveReply`: the target
unfoldable pub reply_target : IncomingMessage → SendTarget
reply_target msg =
    if msg.conversation_type == conversation_type_group
    then record {
      user_id = [];
      conversation_id = msg.conversation_id;
      at_user_ids = [];
      at_dingtalk_ids = [];
      at_all = false;
    }
    else record {
      user_id = first_non_empty (msg.sender_id ∷ msg.sender_staff_id ∷ []);
      conversation_id = [];
      at_user_ids = [];
      at_dingtalk_ids = [];
      at_all = false;
    }

-- `proactiveReply`; a channel sends with its own configuration
unfoldable pub proactive_reply : Channel → IncomingMessage → ℕ → Text → MsgParam → SendResult
unfolding reply_target
proactive_reply ch msg n msg_key p =
    proactive_send (record (ch.senders n) { outbound = ch.outbound }) (reply_target msg) msg_key p

-- a positive time, in milliseconds
abbrev pub positive : ℤ → ℕ
positive (pos n) = n
positive (negsuc n) = 0

-- the `replier` for a message
unfoldable pub replier_for : Channel → IncomingMessage → Replier
replier_for ch msg = record {
  conversation_id = msg.conversation_id;
  session_webhook = msg.session_webhook;
  webhook_expired_at = positive msg.webhook_expired_at;
  outbound = ch.outbound;
  text_chunk_limit = ch.text_chunk_limit;
  proactive = some (λ n msg_key p. (proactive_reply ch msg n msg_key p).err);
  webhook_do = ch.webhook_do;
  cancelled = ch.webhook_cancelled;
  ctx_err = ch.ctx_err;
}

-- the message that stands for a card action, with everything else unset
unfoldable pub card_message : Text → IncomingMessage
card_message out_track_id = record {
  conversation_id = out_track_id;
  conversation_type = [];
  conversation_title = [];
  sender_id = [];
  sender_staff_id = [];
  sender_nick = [];
  sender_corp_id = [];
  text = [];
  msg_type = [];
  content = [];
  resources = [];
  mentions = [];
  mention_all = false;
  at_users = [];
  session_webhook = [];
  webhook_expired_at = pos 0;
  msg_id = [];
  create_at = pos 0;
  is_admin = false;
  is_in_at_list = false;
  raw = [];
}
