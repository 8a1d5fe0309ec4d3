-- ===== src/Safety/Pipeline.antt =====
-- internal/safety/pipeline.go. The callbacks stand for what they are given: `rejects`, `messages` and
-- `batches` are the calls made so far of `onReject`, `onMessage` and `onBatch`, the last with the
-- error (`false`) or success of the user's code, which is an argument of the step that makes the
-- call. Each step reads the clock where the code does. `none` is a panic of the queue.
pub mod Flush
pub mod Push
use dingtalk_channel_sdk_go.Prelude.{
  eqb, if◌then◌else◌, Text, is_empty, pos, negsuc, ℕ, zero, suc, Bool, true, false, not, ◌&&◌,
  Option, none, some, List, [], ◌∷◌, ◌++◌, arith,
}
use dingtalk_channel_sdk_go.Types.{
  IncomingMessage, PolicyConfig, RejectReason, RejectEvent, BatchedDispatch, BotIdentity,
}
use dingtalk_channel_sdk_go.Types.Config.{SafetyConfig, default_safety_config}
use dingtalk_channel_sdk_go.Safety.Stale
use dingtalk_channel_sdk_go.Safety.Seen
use dingtalk_channel_sdk_go.Safety.Lock
use dingtalk_channel_sdk_go.Safety.Policy
use dingtalk_channel_sdk_go.Safety.Media
use dingtalk_channel_sdk_go.Safety.Queue
use dingtalk_channel_sdk_go.Safety.Manager
use dingtalk_channel_sdk_go.Safety.Stale.{StaleDetector}
use dingtalk_channel_sdk_go.Safety.Seen.{SeenCache}
use dingtalk_channel_sdk_go.Safety.Lock.{ProcessingLock}
use dingtalk_channel_sdk_go.Safety.Policy.{PolicyGate}
use dingtalk_channel_sdk_go.Safety.Media.{MediaPipelineManager}
use dingtalk_channel_sdk_go.Safety.Manager.{ChatQueueManager}

-- The task of a `Run`: a message, or an action with its keys.
pub data Job : Type 0 where
  flushes_message : IncomingMessage → Job
  runs_action : Text → List Text → Job

-- `has_on_message` and its like: the callback is not nil; `on_batch_registered` is what `hasOnBatch`
-- answers, if there is one. The handler of a push is `batchFlush`, whatever the message.
pub record SafetyPipeline : Type 0 where
  pub stale : StaleDetector
  pub seen : SeenCache
  pub lock : ProcessingLock
  pub policy : PolicyGate
  pub chat_queue : Option (ChatQueueManager Unit Job)
  pub media : MediaPipelineManager
  pub drop_self_sent : Bool
  pub bot_robot_code : Text
  pub mark_after_handler : Bool
  pub has_on_message : Bool
  pub has_on_batch : Bool
  pub on_batch_registered : Option Bool
  pub has_on_reject : Bool
  pub rejects : List RejectEvent
  pub messages : List (IncomingMessage × List IncomingMessage)
  pub batches : List BatchedDispatch

unfoldable pub batch_mode : SafetyPipeline → Bool
batch_mode p =
    if p.has_on_batch then elim p.on_batch_registered [ none ↦ true | some b ↦ b ] else false

-- what the pipeline takes from its options
pub record PipelineOptions : Type 0 where
  pub on_message : Bool
  pub on_batch : Bool
  pub on_reject : Bool
  pub queue : Option (ChatQueueManager Unit Job)
  pub registered : Option Bool
  pub robot_code : Text

-- a configuration whose window is 0 is replaced by the defaults as a whole
unfoldable pub effective_config : SafetyConfig → SafetyConfig
effective_config cfg = elim cfg.stale_window [
  | negsuc _ ↦ cfg
  | pos w ↦ if eqb w 0 then default_safety_config else cfg
]

unfoldable pub new_safety_pipeline : SafetyConfig → PipelineOptions → SafetyPipeline
unfolding effective_config
new_safety_pipeline config opts =
    let cfg = effective_config config in
    record {
      stale = Stale.new_stale_detector cfg.stale_window;
      seen = Seen.new_seen_cache cfg.dedup;
      lock = Lock.new_processing_lock cfg.lock_ttl;
      policy = Policy.new_policy_gate cfg.policy;
      chat_queue = opts.queue;
      media = Media.new_media_pipeline_manager cfg.media_batch;
      drop_self_sent = cfg.drop_self_sent;
      bot_robot_code = opts.robot_code;
      mark_after_handler = cfg.mark_after_handler;
      has_on_message = opts.on_message;
      has_on_batch = opts.on_batch;
      on_batch_registered = opts.registered;
      has_on_reject = opts.on_reject;
      rejects = [];
      messages = [];
      batches = [];
    }

unfoldable pub emit_reject : SafetyPipeline → IncomingMessage → Option RejectReason → SafetyPipeline
emit_reject p msg reason = if not p.has_on_reject then p else record p {
  rejects =
      p.rejects
      ++ (record {
        message_id = msg.msg_id;
        chat_id = msg.conversation_id;
        sender_id = msg.sender_id;
        reason = reason;
      }
          ∷ []);
}

unfoldable pub release_all : List Text → ProcessingLock → ProcessingLock
release_all [] pl = pl
release_all (id ∷ ids) pl = release_all ids (Lock.release pl id)

-- `for _, id := range ids { p.seen.Add(id) }`
unfoldable pub mark_all : ℕ → List Text → SeenCache → SeenCache
mark_all now [] sc = sc
mark_all now (id ∷ ids) sc = mark_all now ids (Seen.add false sc now (id ∷ []))

-- what both flushes do after the callback, whose success is `ok`
unfoldable pub settle : SafetyPipeline → ℕ → Bool → List Text → SafetyPipeline
unfolding release_all mark_all
settle p now ok ids = record p {
  lock = release_all ids p.lock;
  seen = if p.mark_after_handler && ok then mark_all now ids p.seen else p.seen;
}

-- Without a callback there is no error.
unfoldable pub batch_flush : SafetyPipeline → ℕ → Bool → BatchedDispatch → SafetyPipeline
unfolding settle
batch_flush p now ok d =
    let called = record p { batches = p.batches ++ (d ∷ []) } in
    if p.has_on_batch then settle called now ok d.source_ids else settle p now true d.source_ids

unfoldable pub msg_ids : List IncomingMessage → List Text
msg_ids [] = []
msg_ids (m ∷ ms) = m.msg_id ∷ msg_ids ms

unfoldable pub sources_or : IncomingMessage → List IncomingMessage → List IncomingMessage
sources_or merged [] = merged ∷ []
sources_or merged (m ∷ ms) = m ∷ ms

unfoldable pub message_flush :
    SafetyPipeline → ℕ → Bool → IncomingMessage → List IncomingMessage → SafetyPipeline
unfolding settle msg_ids sources_or
message_flush p now ok merged given =
    let sources = sources_or merged given in
    let called = record p { messages = p.messages ++ ((merged, sources) ∷ []) } in
    if p.has_on_message
    then settle called now ok (msg_ids sources)
    else settle p now true (msg_ids sources)

unfoldable pub set_bot_identity : SafetyPipeline → Text → SafetyPipeline
set_bot_identity p robot_code =
    let p' = record p { bot_robot_code = robot_code } in
    let bot : BotIdentity = record { robot_code = robot_code; robot_name = []; avatar = [] } in
    if is_empty robot_code
    then p'
    else record p' { policy = Policy.set_bot_identity p.policy (some bot) }

unfoldable pub update_policy : SafetyPipeline → PolicyConfig → SafetyPipeline
update_policy p cfg = record p { policy = Policy.update_config p.policy cfg }

-- the manager without its queues, once they have been asked to flush and are closed
unfoldable pub disposed_queue :
    Option (ChatQueueManager Unit Job) → Option (Option (ChatQueueManager Unit Job))
disposed_queue none = some none
disposed_queue (some q) = elim (Manager.flush_all q) [
  | none ↦ none
  | some q' ↦ some (some (Manager.dispose_queues q').0)
]

-- `Dispose`, up to its waits; the media buckets are handed to their handlers by the flush
unfoldable pub dispose : SafetyPipeline → Option SafetyPipeline
unfolding disposed_queue
dispose p = elim (disposed_queue p.chat_queue) [
  | none ↦ none
  | some q ↦ elim (Lock.dispose p.lock) [
    | none ↦ none
    | some lock ↦ some (record p {
      chat_queue = q;
      media = Media.dispose p.media;
      seen = Seen.dispose p.seen;
      lock = lock;
    })
  ]
]
