-- ===== src/Types.antt =====
-- types/types.go and types/safety_config.go: the data that the layers share. Strings are byte
-- sequences, `*bool` and `*T` are options, durations are nanoseconds, and the reason `""` of an
-- accepting decision is `none`.
pub mod Config
pub mod Errors
use dingtalk_channel_sdk_go.Prelude.{ℕ, zero, suc, Bool, Option, List, arith, Text, bytes, Map, ℤ}

pub record AtUser : Type 0 where
  pub dingtalk_id : Text
  pub staff_id : Text

pub record Resource : Type 0 where
  pub kind : Text
  pub download_code : Text
  pub file_name : Text
  pub recognition : Text

pub record Mention : Type 0 where
  pub key : Text
  pub user_id : Text
  pub name : Text
  pub is_bot : Bool
  pub is_all : Bool

-- `BatchedSources` is `nil` on a received message and is set by a merge alone: see `Merged`.
pub record IncomingMessage : Type 0 where
  pub conversation_id : Text
  pub conversation_type : Text
  pub conversation_title : Text
  pub sender_id : Text
  pub sender_staff_id : Text
  pub sender_nick : Text
  pub sender_corp_id : Text
  pub text : Text
  pub msg_type : Text
  pub content : Text
  pub resources : List Resource
  pub mentions : List Mention
  pub mention_all : Bool
  pub at_users : List AtUser
  pub session_webhook : Text
  pub webhook_expired_at : ℤ
  pub msg_id : Text
  pub create_at : ℤ
  pub is_admin : Bool
  pub is_in_at_list : Bool
  pub raw : Text

-- A message with its `BatchedSources`; `[]` is `nil`.
pub record Merged : Type 0 where
  pub message : IncomingMessage
  pub batched_sources : List IncomingMessage

unfoldable pub conversation_type_group : Text
unfolding bytes
conversation_type_group = bytes "group"

unfoldable pub conversation_type_dm : Text
unfolding bytes
conversation_type_dm = bytes "dm"

pub record GroupOverride : Type 0 where
  pub enabled : Option Bool
  pub require_mention : Option Bool
  pub respond_to_mention_all : Option Bool
  pub allow_from : List Text
  pub block_from : List Text

pub record PolicyConfig : Type 0 where
  pub group_allowlist : List Text
  pub group_blocklist : List Text
  pub require_mention : Option Bool
  pub respond_to_mention_all : Option Bool
  pub dm_mode : Text
  pub dm_allowlist : List Text
  pub dm_blocklist : List Text
  pub group_overrides : Map GroupOverride
  pub allow_from : List Text
  pub deny_from : List Text
  pub admins : List Text

pub data RejectReason : Type 0 where
  group_not_allowed group_blocked group_disabled no_mention mention_all_blocked : RejectReason
  dm_disabled dm_not_allowed dm_blocked sender_not_allowed sender_blocked : RejectReason
  stale duplicate self_sent lock_contention group_disabled_by_override sender_denied : RejectReason

pub record PolicyDecision : Type 0 where
  pub allowed : Bool
  pub reason : Option RejectReason

pub record RejectEvent : Type 0 where
  pub message_id : Text
  pub chat_id : Text
  pub sender_id : Text
  pub reason : Option RejectReason

-- Durations in nanoseconds.
pub record BatchConfig : Type 0 where
  pub delay : ℕ
  pub long_threshold_chars : ℕ
  pub long_delay : ℕ
  pub max_messages : ℕ
  pub max_chars : ℕ

pub record MediaBatchConfig : Type 0 where
  pub enabled : Bool
  pub delay_ms : ℕ
  pub max_items : ℕ

pub record DedupConfig : Type 0 where
  pub ttl : ℕ
  pub max_entries : ℕ
  pub sweep_interval : ℕ

-- `BatchedDispatch` and `BatchedMessage`, which have the same fields.
pub record BatchedDispatch : Type 0 where
  pub message : IncomingMessage
  pub source_ids : List Text

pub record BotIdentity : Type 0 where
  pub robot_code : Text
  pub robot_name : Text
  pub avatar : Text

-- A millisecond, a second and a minute in nanoseconds.
abbrev pub millisecond : ℕ
millisecond = 1000000

abbrev pub second : ℕ
second = 1000000000

abbrev pub minute : ℕ
minute = 60000000000
