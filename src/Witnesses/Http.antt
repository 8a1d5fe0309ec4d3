-- ===== src/Witnesses/Http.antt =====
-- Callbacks over HTTP.
use dingtalk_channel_sdk_go.Prelude.{
  arith, Text, bytes, ◌==◌, starts_with, runes, string_of, is_space_rune, trim_left_spaces,
  trim_right_spaces, trim_space, pos, ◌≡◌, refl, true, false, none, some, [], ◌++◌,
}
use dingtalk_channel_sdk_go.Normalize.Json.{string_json, no_fields, field}
use dingtalk_channel_sdk_go.Normalize.Incoming.{CallbackData, after_space, strip_mention}
use dingtalk_channel_sdk_go.Http.{
  HttpConfig, Request, http_callback_handler, handle_http_callback, verify_http_sign, parse_int,
  to_milli,
}
use dingtalk_channel_sdk_go.Http.Signed.{IsHonest, http_callback_handler-IsHonest}

-- the robot's name in front of a group message is taken off
stripped : strip_mention (bytes "@bot  hi") ≡ bytes "hi"
unfolding strip_mention after_space trim_space trim_left_spaces trim_right_spaces is_space_rune
    runes string_of starts_with bytes
stripped = refl

abbrev config : HttpConfig
config = record { has_handler = true; client_secret = bytes "s"; tolerance = 3600000 }

abbrev callback : CallbackData
callback = record {
  conversation_id = bytes "c1";
  at_users = [];
  msg_id = bytes "m1";
  sender_nick = [];
  is_admin = false;
  sender_staff_id = bytes "u1";
  session_webhook_expired_time = pos 0;
  create_at = pos 0;
  sender_corp_id = [];
  conversation_type = bytes "1";
  sender_id = [];
  conversation_title = [];
  is_in_at_list = false;
  session_webhook = [];
  text_content = bytes "hi";
  msg_type = bytes "text";
  content = [];
  content_map = some (field (bytes "content") (string_json (bytes "hi")) no_fields);
}

-- the key and the message in place of their HMAC
abbrev joined : Text → Text → Text
joined key message = key ++ message

abbrev request : Request
request = record {
  is_post = true;
  body = some (bytes "{}");
  decoded = some callback;
  decode = λ s. none;
  timestamp = bytes "1700000000000";
  sign = bytes "s1700000000000\ns";
}

http_callback_handler-IsHonest_example :
    IsHonest joined config 1700000000005 request
      (http_callback_handler joined config 1700000000005 request)
http_callback_handler-IsHonest_example =
    http_callback_handler-IsHonest joined config 1700000000005 request (omega arith)

-- the request of the example is answered with 200
answered : (http_callback_handler joined config 1700000000005 request).status ≡ 200
unfolding http_callback_handler handle_http_callback verify_http_sign bytes parse_int to_milli ◌==◌
answered = refl
