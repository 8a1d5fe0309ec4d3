-- ===== src/Safety/Manager.antt =====
-- The `ChatQueueManager` of internal/safety/chat_queue.go: a queue for each scope. `getOrCreate` looks
-- again under the write lock, so a scope gets one queue however its calls come; it is one step.
pub mod Scopes
use dingtalk_channel_sdk_go.Prelude.{
  Text, Map, lookup, insert, zero, suc, Bool, true, false, not, Option, none, some, List, [], ◌∷◌,
  arith,
}
use dingtalk_channel_sdk_go.Types.{IncomingMessage, BatchConfig, MediaBatchConfig}
use dingtalk_channel_sdk_go.Safety.Queue
use dingtalk_channel_sdk_go.Safety.Queue.{ChatQueue, new_chat_queue}

pub record ChatQueueManager (H J : Type 0) : Type 0 where
  pub batch_cfg : BatchConfig
  pub media_batch : Option MediaBatchConfig
  pub is_enabled : Bool
  pub queues : Map (ChatQueue H J)

module _ {H J : Type 0} where
  -- `NewChatQueueManager`; without a queue configuration it is not enabled
  unfoldable pub new_chat_queue_manager :
      BatchConfig → Option Bool → Option MediaBatchConfig → ChatQueueManager H J
  new_chat_queue_manager batch_cfg queue_cfg media_batch = record {
    batch_cfg = batch_cfg;
    media_batch = media_batch;
    is_enabled = elim queue_cfg [ none ↦ false | some b ↦ b ];
    queues = [];
  }

  -- the queue that `getOrCreate` returns
  unfoldable pub get_or_create : ChatQueueManager H J → Text → Bool → ChatQueue H J
  get_or_create cqm scope serial_only = elim (lookup scope cqm.queues) [
    | some q ↦ q
    | none ↦ new_chat_queue scope cqm.batch_cfg cqm.media_batch serial_only
  ]

  -- the queue of a scope, after a call that succeeded
  unfoldable pub put_back :
      ChatQueueManager H J → Text → Option (ChatQueue H J) → Option (ChatQueueManager H J)
  put_back cqm scope none = none
  put_back cqm scope (some q) = some (record cqm { queues = insert scope q cqm.queues })

  unfoldable pub push :
      ChatQueueManager H J → Text → IncomingMessage → Option H → Option (ChatQueueManager H J)
  push cqm scope msg handler =
      put_back cqm scope (Queue.push (get_or_create cqm scope false) msg handler)

  -- `Run` up to its wait for the task
  unfoldable pub start_run : ChatQueueManager H J → Text → J → Option (ChatQueueManager H J)
  start_run cqm scope task =
      put_back cqm scope (Queue.start_run (get_or_create cqm scope true) task)

  unfoldable pub flush_each : Map (ChatQueue H J) → Option (Map (ChatQueue H J))
  flush_each [] = some []
  flush_each ((scope, q) ∷ rest) = elim (flush_each rest) [
    | none ↦ none
    | some rest' ↦ elim (Queue.start_flush_now q) [
      | none ↦ none
      | some q' ↦ some ((scope, q') ∷ rest')
    ]
  ]

  -- `FlushAll` up to its wait for the marks
  unfoldable pub flush_all : ChatQueueManager H J → Option (ChatQueueManager H J)
  flush_all cqm = elim (flush_each cqm.queues) [
    | none ↦ none
    | some queues ↦ some (record cqm { queues = queues })
  ]

  unfoldable pub dispose_each : Map (ChatQueue H J) → List (ChatQueue H J)
  dispose_each [] = []
  dispose_each ((scope, q) ∷ rest) = Queue.dispose q ∷ dispose_each rest

  -- `Dispose` after its flush: the manager forgets its queues, which are closed
  unfoldable pub dispose_queues : ChatQueueManager H J → ChatQueueManager H J × List (ChatQueue H J)
  dispose_queues cqm = (record cqm { queues = [] }, dispose_each cqm.queues)
