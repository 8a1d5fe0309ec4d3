-- ===== src/Channel/CardReplies.antt =====
-- Replies to a card action.
use dingtalk_channel_sdk_go.Prelude.{
  Text, bytes, ◌==◌, ℕ, ◌≡◌, refl, ap, false, none, some, [], ◌∷◌,
}
use dingtalk_channel_sdk_go.Types.{conversation_type_group}
use dingtalk_channel_sdk_go.Reply.Webhook.{
  MsgParam, proactively, webhook, send_by, send_proactively, apply_outbound, first_non_empty,
}
use dingtalk_channel_sdk_go.Send.{proactive_send, valid, invalid_target}
use dingtalk_channel_sdk_go.Channel.{
  Channel, reply_target, proactive_reply, replier_for, card_message,
}

-- the target of a reply to a card action is neither a user nor a conversation
reply_target-card_message : (id : Text) → valid (reply_target (card_message id)) ≡ false
unfolding reply_target card_message valid first_non_empty conversation_type_group bytes ◌==◌
reply_target-card_message id = refl

proactive_reply-card_message :
    (ch : Channel) (id : Text) (n : ℕ) (msg_key : Text) (p : MsgParam)
    → proactive_reply ch (card_message id) n msg_key p
      ≡ record { err = some invalid_target; request = none }
proactive_reply-card_message ch id n msg_key p =
    unfold proactive_reply in unfold proactive_send in rw (reply_target-card_message id) refl

-- A reply to a card action that goes by `webhook`, as those of Text, Markdown and Image do, whatever
-- its message key and its content: the target is refused before a request is made, and the reply
-- returns that error. Of a stream, which begins with requests for a card, nothing is said.
pub webhook-card_message :
    (now : ℕ) (ch : Channel) (id msg_key : Text) (p : MsgParam)
    → (sent : MsgParam) × (webhook now (replier_for ch (card_message id)) msg_key p
        ≡ (some invalid_target, proactively msg_key sent (some invalid_target) ∷ []))
      × (proactive_reply ch (card_message id) 0 msg_key sent
          ≡ record { err = some invalid_target; request = none })
unfolding webhook send_by send_proactively replier_for card_message
webhook-card_message now ch id msg_key p =
    let sent = apply_outbound ch.outbound (bytes "reply") id msg_key p in
    let refused = proactive_reply-card_message ch id 0 msg_key sent in
    (sent, ap (λ end. (end, proactively msg_key sent end ∷ [])) (ap (λ r. r.err) refused), refused)
