-- ===== src/Witnesses/Queue.antt =====
-- internal/safety/chat_queue.go and media_pipeline.go at concrete inputs.
use dingtalk_channel_sdk_go.Prelude.{
  insert, if◌then◌else◌, Text, bytes, ◌==◌, lookup, ℕ, ◌≡◌, refl, ◌↔◌, true, false, none, some,
  List, [], ◌∷◌, arith,
}
use dingtalk_channel_sdk_go.Types.{IncomingMessage, BatchConfig}
use dingtalk_channel_sdk_go.Safety.Queue
use dingtalk_channel_sdk_go.Safety.Queue.{
  ChatQueue, new_chat_queue, merge_batch_messages, mention_key, all_resources, all_mentions,
}
use dingtalk_channel_sdk_go.Safety.Queue.Merge.{DistinctBy, has_key, merge-DistinctBy}
use dingtalk_channel_sdk_go.Safety.Queue.Runs.{
  World, Event, pushes, timer_ends, flushes_pending, sends_run, works, run, account, all_pushed,
  run_in_order,
}
use dingtalk_channel_sdk_go.Safety.Queue.Runs
use dingtalk_channel_sdk_go.Safety.Queue.Timed.{IsTimed}
use dingtalk_channel_sdk_go.Safety.Manager.{ChatQueueManager, new_chat_queue_manager}
use dingtalk_channel_sdk_go.Safety.Manager.Scopes.{Call, runs_task, Separates, run-Separates}
use dingtalk_channel_sdk_go.Safety.Manager.Scopes
use dingtalk_channel_sdk_go.Safety.Media
use dingtalk_channel_sdk_go.Safety.Media.{MediaPipelineManager, new_media_pipeline_manager}
use dingtalk_channel_sdk_go.Safety.Media.Keys.{is_chat_key-batch_key, batch_key-injective}
use dingtalk_channel_sdk_go.Safety.Media.Flushes
use dingtalk_channel_sdk_go.Safety.Media.Keys
use dingtalk_channel_sdk_go.Safety.Media.Handed.{Hands, flush_incompatible_for-Hands}
use dingtalk_channel_sdk_go.Safety.Media.Pushes.{push-IsTimed, new-IsTimed}
use dingtalk_channel_sdk_go.Witnesses.Samples.{message}

abbrev batching : BatchConfig
batching = record {
  delay = 600;
  long_threshold_chars = 1000;
  long_delay = 2000;
  max_messages = 2;
  max_chars = 4000;
}

abbrev scope_a : Text
scope_a = 103 ∷ []

-- two pushes, a round of the worker, a third push between the parts of `Run`, and its timer
abbrev busy : List (Event ℕ ℕ)
busy =
    pushes message 1
    ∷ pushes message 2
    ∷ works
    ∷ flushes_pending
    ∷ pushes message 3
    ∷ sends_run 7
    ∷ timer_ends
    ∷ []

abbrev start : World ℕ ℕ
start = record { queue = new_chat_queue scope_a batching none false; handed = [] }

run_in_order_example : (w : World ℕ ℕ) × (run start busy ≡ some w) × (account w ≡ all_pushed busy)
run_in_order_example = run_in_order scope_a batching none false busy

-- after one push
abbrev one_waits : World ℕ ℕ
one_waits = record {
  queue = record start.queue {
    buffer = message ∷ [];
    buffer_chars = 1;
    timer = some 600;
    pending_handler = some 1;
  };
  handed = [];
}

merge-DistinctBy_example :
    let merged = merge_batch_messages message (message ∷ []) in
    DistinctBy (λ r. r.download_code) merged.resources
    × ((k : Text)
        → has_key (λ r. r.download_code) k merged.resources
          ≡ has_key (λ r. r.download_code) k (all_resources (message ∷ message ∷ [])))
    × DistinctBy mention_key merged.mentions
    × ((k : Text)
        → has_key mention_key k merged.mentions
          ≡ has_key mention_key k (all_mentions (message ∷ message ∷ [])))
merge-DistinctBy_example = merge-DistinctBy message message []

abbrev manager : ChatQueueManager ℕ ℕ
manager = new_chat_queue_manager batching (some true) none

-- two scopes, whose calls come in turns
abbrev mixed : List (Call ℕ ℕ)
mixed =
    Scopes.pushes scope_a message (some 1)
    ∷ runs_task (104 ∷ []) 7
    ∷ Scopes.pushes scope_a message (some 2)
    ∷ Scopes.pushes (104 ∷ []) message (some 3)
    ∷ []

run-Separates_example : Separates manager mixed (Scopes.run manager mixed)
run-Separates_example = run-Separates mixed manager

-- a digest that does not shorten
abbrev plain : Text → Text
plain s = s

abbrev picture : IncomingMessage
picture = record message { msg_type = bytes "picture" }

IsPlain-scope_a : Keys.IsPlain scope_a
IsPlain-scope_a = (λ e. omega arith, tt)

is_chat_key-batch_key_example :
    (Media.is_chat_key (Media.batch_key plain picture) scope_a ≡ true) ↔ (scope_a ≡ scope_a)
is_chat_key-batch_key_example = is_chat_key-batch_key plain picture scope_a IsPlain-scope_a

batch_key-injective_example : (scope_a ≡ scope_a) × (bytes "picture" ≡ bytes "picture")
unfolding Media.is_media bytes ◌==◌
batch_key-injective_example =
    batch_key-injective plain picture picture IsPlain-scope_a IsPlain-scope_a refl refl refl

abbrev buckets : MediaPipelineManager
buckets =
    Media.push plain
      (new_media_pipeline_manager (record { enabled = true; delay_ms = 800; max_items = 2 }))
      picture

push-IsTimed_example : Flushes.IsTimed buckets
push-IsTimed_example =
    push-IsTimed plain
      (new_media_pipeline_manager (record { enabled = true; delay_ms = 800; max_items = 2 }))
      picture (new-IsTimed (record { enabled = true; delay_ms = 800; max_items = 2 }))

-- a bucket with a picture, and a handler
abbrev handled : MediaPipelineManager
handled = record buckets { has_handler = true }

flush_incompatible_for-Hands_example :
    Hands
      (λ k. Media.is_chat_key k message.conversation_id)
      handled
      (Media.flush_incompatible_for handled message)
    × ((k : Text)
        → lookup k (Media.flush_incompatible_for handled message).buckets ≡ (
            if Media.is_chat_key k message.conversation_id then none else lookup k handled.buckets))
flush_incompatible_for-Hands_example =
    flush_incompatible_for-Hands handled message push-IsTimed_example refl

-- its bucket is one of those that are flushed
flushes_one :
    (lookup (Media.batch_key plain picture) handled.buckets
      ≡ some (record { sources = picture ∷ []; timed = true }))
    × (Media.is_chat_key (Media.batch_key plain picture) message.conversation_id ≡ true)
unfolding Media.push Media.batch_key Media.is_chat_key Media.before_sep lookup bytes ◌==◌
    new_media_pipeline_manager Media.fill_media_batch_config Media.sources_of insert
flushes_one = (refl, refl)
