-- ===== src/Safety/Queue/Waiting.antt =====
-- No message waits without a timer, and no batch grows past its limits.
use dingtalk_channel_sdk_go.Prelude.{some_inj}
use dingtalk_channel_sdk_go.Prelude.{some_inj}
