-- ===== src/Frame.antt =====
-- frame.go: the data of the wire protocol. JSON tags are left out.
use dingtalk_channel_sdk_go.Prelude.{
  if◌then◌else◌, Text, bytes, is_empty, Map, lookup, ℤ, ℕ, none, some, [], ◌∷◌,
}

unfoldable pub sub_callback : Text
unfolding bytes
sub_callback = bytes "CALLBACK"

unfoldable pub sub_system : Text
unfolding bytes
sub_system = bytes "SYSTEM"

pub record Subscription : Type 0 where
  pub kind : Text
  pub topic : Text

pub record Frame : Type 0 where
  pub spec_version : Text
  pub kind : Text
  pub time : ℤ
  pub headers : Map Text
  pub content : Text

-- a missing header is ""
unfoldable pub header : Text → Map Text → Text
header name headers = elim (lookup name headers) [ none ↦ [] | some v ↦ v ]

unfoldable pub topic_of : Frame → Text
unfolding header bytes
topic_of f = header (bytes "topic") f.headers

unfoldable pub message_id : Frame → Text
unfolding header bytes
message_id f = header (bytes "messageId") f.headers

pub record FrameAck : Type 0 where
  pub code : ℕ
  pub headers : Map Text
  pub message : Text
  pub content : Text

unfoldable pub success_ack : Text → Text → FrameAck
unfolding bytes
success_ack id content = record {
  code = 200;
  headers = (bytes "contentType", bytes "application/json") ∷ (bytes "messageId", id) ∷ [];
  message = bytes "ok";
  content = if is_empty content then bytes "{\"success\":true}" else content;
}
