-- ===== src/Witnesses/Pipeline.antt =====
-- internal/safety/pipeline.go at concrete inputs.
use dingtalk_channel_sdk_go.Prelude.{
  encode_rune, if◌then◌else◌, length, any, Text, encode_rune, bytes, ◌==◌, listed, lookup, insert,
  remove, ℕ, ◌+◌, ◌<◌, ◌≡◌, refl, ap, ◌≢◌, Bool, true, false, none, some, List, [], ◌∷◌, ◌++◌,
  arith,
}
use mathlib.Core.List.{Mem}
use dingtalk_channel_sdk_go.Types.{IncomingMessage, BatchedDispatch, RejectReason}
use dingtalk_channel_sdk_go.Types.Config
use dingtalk_channel_sdk_go.Types.Config.{SafetyConfig, default_safety_config}
use dingtalk_channel_sdk_go.Safety.Stale
use dingtalk_channel_sdk_go.Safety.Seen
use dingtalk_channel_sdk_go.Safety.Seen.{SeenCache, new_seen_cache}
use dingtalk_channel_sdk_go.Safety.Seen.Invariant.{IsValid}
use dingtalk_channel_sdk_go.Safety.Seen.Runs.{new-IsValid}
use dingtalk_channel_sdk_go.Safety.Lock.Exclusion.{held}
use dingtalk_channel_sdk_go.Types
use dingtalk_channel_sdk_go.Safety.Lock
use dingtalk_channel_sdk_go.Safety.Policy
use dingtalk_channel_sdk_go.Safety.Media
use dingtalk_channel_sdk_go.Safety.Pipeline
use dingtalk_channel_sdk_go.Safety.Pipeline.{
  SafetyPipeline, PipelineOptions, new_safety_pipeline, message_flush, batch_flush, msg_ids,
  sources_or,
}
use dingtalk_channel_sdk_go.Safety.Pipeline.Flush.{
  held-message_flush, held-batch_flush, message_flush_marks,
}
use dingtalk_channel_sdk_go.Safety.Pipeline.Push
use dingtalk_channel_sdk_go.Safety.Pipeline.Push.{
  Clock, admit, check_duplicate, dedup_keys, push_message,
}
use dingtalk_channel_sdk_go.Safety.Pipeline.Push.Admission.{Settled, event_of, admit-Settled}
use dingtalk_channel_sdk_go.Safety.Pipeline.Push.Handed.{handed, Handed}
use dingtalk_channel_sdk_go.Safety.Pipeline.Push.Direct.{push_message_lem}
use dingtalk_channel_sdk_go.Safety.Pipeline.Push.Once.{admit_once}
use dingtalk_channel_sdk_go.Safety.Seen.Runs.{Call, looks, adds, checks, sweeps, run}
use dingtalk_channel_sdk_go.Safety.Seen.Remembers.{keys_of, keys_in}
use dingtalk_channel_sdk_go.Witnesses.Samples.{message}

abbrev plain : Text → Text
plain s = s

abbrev options : PipelineOptions
options = record {
  on_message = true;
  on_batch = false;
  on_reject = true;
  queue = none;
  registered = none;
  robot_code = [];
}

abbrev pipeline : SafetyPipeline
pipeline = new_safety_pipeline default_safety_config options

abbrev clock : Clock
clock = record { stale_at = 0; has_at = 10; add_at = 11; lock_at = 12; done_at = 13 }

admit-Settled_example :
    Settled pipeline 12 message (admit plain pipeline clock (1 ∷ []) message)
    × ((admit plain pipeline clock (1 ∷ []) message).1 ≡ true
        → (Stale.is_stale pipeline.stale 0 message.create_at ≡ false)
          × ((check_duplicate pipeline clock (dedup_keys plain (1 ∷ []) message)).1 ≡ false))
admit-Settled_example = admit-Settled plain pipeline clock (1 ∷ []) message

held-message_flush_example :
    held (message_flush pipeline 5 true message (message ∷ [])).lock 6 message.msg_id ≡ (
      if listed message.msg_id (msg_ids (sources_or message (message ∷ [])))
      then false
      else held pipeline.lock 6 message.msg_id)
held-message_flush_example =
    held-message_flush pipeline 5 6 true message (message ∷ []) message.msg_id

abbrev batch : BatchedDispatch
batch = record { message = message; source_ids = message.msg_id ∷ [] }

held-batch_flush_example : held (batch_flush pipeline 5 false batch).lock 6 message.msg_id ≡ (
    if listed message.msg_id batch.source_ids then false else held pipeline.lock 6 message.msg_id)
held-batch_flush_example = held-batch_flush pipeline 5 6 false batch message.msg_id

seen-IsValid : IsValid pipeline.seen
unfolding new_safety_pipeline default_safety_config Pipeline.effective_config
seen-IsValid = new-IsValid default_safety_config.dedup

abbrev marking : SafetyPipeline
marking = record pipeline { mark_after_handler = true }

-- what other messages ask and mark in between
abbrev others : List Call
others =
    looks none 100 ((9 ∷ []) ∷ [])
    ∷ checks none 110 111 ((8 ∷ []) ∷ (9 ∷ []) ∷ [])
    ∷ sweeps 120
    ∷ adds false 130 ((7 ∷ []) ∷ [])
    ∷ []

message_flush_marks_example :
    ((message_flush marking 5 false message []).seen ≡ marking.seen)
    × ((id : Text) (t : ℕ) (js : List Text)
        → id ≢ []
        → Mem id (msg_ids (sources_or message []))
        → Mem id js
        → t < 5 + marking.seen.cfg.ttl
        → (Seen.has none (run (message_flush marking 5 true message []).seen others) t js).1 ≡ true)
unfolding keys_of keys_in new_safety_pipeline default_safety_config Pipeline.effective_config
    new_seen_cache msg_ids sources_or Seen.fill_dedup_config Seen.or_default
    Config.default_dedup_config_extended
message_flush_marks_example =
    message_flush_marks marking 5 message [] others seen-IsValid refl refl (omega arith) (
      (omega arith, omega arith),
      ((omega arith, omega arith, omega arith), (omega arith, ((omega arith, omega arith), tt))),
    )

nonempty : message.msg_id ≢ []
nonempty =
    λ (e : message.msg_id ≡ []). let gone : length message.msg_id ≡ 0 = ap length e in omega arith

abbrev first : SafetyPipeline × Bool
first = admit plain pipeline clock (1 ∷ []) message

admit_once_example :
    (admit plain
      (record pipeline { seen = run first.0.seen others })
      (record clock { has_at = 500 })
      (2 ∷ [])
      message).1
    ≡ false
unfolding keys_of keys_in new_safety_pipeline default_safety_config admit Stale.is_stale
    check_duplicate Seen.check_and_mark Seen.has Seen.has_memory dedup_keys Seen.entry_of lookup
    new_seen_cache Push.admit_checked Policy.evaluate listed Policy.new_policy_gate
    Config.default_policy_config_extended ◌==◌ any insert remove bytes encode_rune Lock.acquire
    Lock.is_live Lock.new_processing_lock Media.fill_media_batch_config
    Media.new_media_pipeline_manager Push.is_self_sent Pipeline.effective_config
    Pipeline.emit_reject Policy.blocks_sender Policy.evaluate_group Policy.evaluate_override
    Policy.is_admin Policy.is_denied Policy.is_disabled Policy.is_in_allow_from Policy.is_on_list
    Policy.omits_sender Policy.requires_mention Policy.responds_to_all Policy.setting Seen.add
    Seen.add_keys Seen.add_to_memory Seen.deref Seen.drop_entry Seen.evict Seen.fill_dedup_config
    Seen.move_to_front Seen.or_default Seen.unlink Stale.new_stale_detector
    Config.default_dedup_config_extended Types.conversation_type_group
admit_once_example =
    admit_once plain pipeline (record pipeline { seen = run first.0.seen others }) clock
      (record clock { has_at = 500 }) (1 ∷ []) (2 ∷ []) message message others seen-IsValid
      (omega arith) refl refl refl
      (
        (omega arith, omega arith),
        ((omega arith, omega arith, omega arith), (omega arith, ((omega arith, omega arith), tt))),
      )
      refl nonempty refl (omega arith)

push_message_lem_example :
    (p' : SafetyPipeline) × (push_message plain pipeline clock (1 ∷ []) message true ≡ some p')
    × ((admit plain pipeline clock (1 ∷ []) message).1 ≡ true → Handed pipeline message 20 p')
    × ((admit plain pipeline clock (1 ∷ []) message).1 ≡ false
        → (handed p' ≡ handed pipeline)
          × ((r : RejectReason) × (p'.rejects ≡ pipeline.rejects ++ (event_of message r ∷ []))))
unfolding new_safety_pipeline Push.enabled_queue Media.is_compatible
    Media.new_media_pipeline_manager default_safety_config Config.default_media_batch_config
push_message_lem_example =
    push_message_lem plain pipeline clock 20 (1 ∷ []) message true refl refl refl refl
