-- ===== src/Witnesses/Samples.antt =====
-- A message that the examples share.
use dingtalk_channel_sdk_go.Prelude.{pos, true, false, [], ◌∷◌}
use dingtalk_channel_sdk_go.Types.{IncomingMessage, conversation_type_group}

abbrev pub message : IncomingMessage
message = record {
  conversation_id = 103 ∷ [];
  conversation_type = conversation_type_group;
  conversation_title = [];
  sender_id = 117 ∷ [];
  sender_staff_id = 115 ∷ [];
  sender_nick = [];
  sender_corp_id = [];
  text = 104 ∷ [];
  msg_type = [];
  content = [];
  resources = [];
  mentions = [];
  mention_all = false;
  at_users = [];
  session_webhook = [];
  webhook_expired_at = pos 0;
  msg_id = 109 ∷ [];
  create_at = pos 0;
  is_admin = false;
  is_in_at_list = true;
  raw = [];
}
