-- ===== src/Types/Config.antt =====
-- types/safety_config.go and the defaults of types/types.go. Durations are nanoseconds.
use dingtalk_channel_sdk_go.Prelude.{bytes, ℤ, pos, ℕ, ◌*◌, Bool, true, false, none, []}
use dingtalk_channel_sdk_go.Types.{
  BatchConfig, MediaBatchConfig, DedupConfig, PolicyConfig, millisecond, second, minute,
}

pub record SafetyConfig : Type 0 where
  pub dedup : DedupConfig
  pub policy : PolicyConfig
  pub text_batch : BatchConfig
  pub media_batch : MediaBatchConfig
  pub chat_queue : Bool
  pub stale_window : ℤ
  pub lock_ttl : ℕ
  pub drop_self_sent : Bool
  pub mark_after_handler : Bool

unfoldable pub default_batch_config : BatchConfig
default_batch_config = record {
  delay = 600 * millisecond;
  long_threshold_chars = 1000;
  long_delay = 2 * second;
  max_messages = 8;
  max_chars = 4000;
}

unfoldable pub default_dedup_config_extended : DedupConfig
default_dedup_config_extended = record {
  ttl = 720 * minute;
  max_entries = 5000;
  sweep_interval = 5 * minute;
}

unfoldable pub default_policy_config_extended : PolicyConfig
unfolding bytes
default_policy_config_extended = record {
  group_allowlist = [];
  group_blocklist = [];
  require_mention = none;
  respond_to_mention_all = none;
  dm_mode = bytes "open";
  dm_allowlist = [];
  dm_blocklist = [];
  group_overrides = [];
  allow_from = [];
  deny_from = [];
  admins = [];
}

unfoldable pub default_media_batch_config : MediaBatchConfig
default_media_batch_config = record { enabled = false; delay_ms = 800; max_items = 9 }

unfoldable pub default_safety_config : SafetyConfig
default_safety_config = record {
  dedup = default_dedup_config_extended;
  policy = default_policy_config_extended;
  text_batch = default_batch_config;
  media_batch = default_media_batch_config;
  chat_queue = true;
  stale_window = pos (30 * minute);
  lock_ttl = 5 * minute;
  drop_self_sent = true;
  mark_after_handler = false;
}
