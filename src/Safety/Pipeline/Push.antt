-- ===== src/Safety/Pipeline/Push.antt =====
-- The three layers of pushing of internal/safety/pipeline.go and the steps that run what was queued.
pub mod Admission
pub mod Once
pub mod Kept
pub mod Handed
pub mod Direct
use dingtalk_channel_sdk_go.Prelude.{
  ltb, if◌then◌else◌, Text, bytes, ◌==◌, is_empty, pos, negsuc, ℕ, zero, suc, ◌+◌, ◌/◌, ◌%◌, Bool,
  true, false, not, ◌&&◌, Option, none, some, List, [], ◌∷◌, ◌++◌, map, arith,
}
use mathlib.Core.Option
use dingtalk_channel_sdk_go.Types.{IncomingMessage}
use dingtalk_channel_sdk_go.Types
use dingtalk_channel_sdk_go.Safety.Pipeline
use dingtalk_channel_sdk_go.Safety.Stale
use dingtalk_channel_sdk_go.Safety.Seen
use dingtalk_channel_sdk_go.Safety.Lock
use dingtalk_channel_sdk_go.Safety.Policy
use dingtalk_channel_sdk_go.Safety.Media
use dingtalk_channel_sdk_go.Safety.Queue
use dingtalk_channel_sdk_go.Safety.Queue.{Task, flushes, runs, marks}
use dingtalk_channel_sdk_go.Safety.Manager
use dingtalk_channel_sdk_go.Safety.Manager.{ChatQueueManager}
use dingtalk_channel_sdk_go.Safety.Pipeline.{
  Job, SafetyPipeline, batch_mode, emit_reject, batch_flush, message_flush,
}

-- The readings of the clock in one push: of the stale filter, of `Has`, of `Add` and of `Acquire`;
-- the last is that of the `Add` after a handler.
pub record Clock : Type 0 where
  pub stale_at : ℕ
  pub has_at : ℕ
  pub add_at : ℕ
  pub lock_at : ℕ
  pub done_at : ℕ

-- the decimal digits of a number below 10 ^ fuel
unfoldable pub digits : ℕ → ℕ → Text → Text
digits zero n rest = rest
digits (suc fuel) n rest =
    let more = digits fuel (n / 10) ((48 + n % 10) ∷ rest) in
    if ltb n 10 then (48 + n) ∷ rest else more

-- `ContentFingerprint`; `digest` is the hexadecimal SHA-256. An `int64` has at most 19 digits.
unfoldable pub content_fingerprint : (Text → Text) → Text → ℕ → Text → Text → Text
unfolding bytes digits
content_fingerprint digest conversation create_at msg_type content =
    bytes "fp:"
    ++ digest (conversation ++ (b':' ∷ digits 20 create_at (b':' ∷ (msg_type ++ (b':' ∷ content)))))

-- the keys by which a message is known
unfoldable pub dedup_keys : (Text → Text) → Text → IncomingMessage → List Text
unfolding content_fingerprint
dedup_keys digest proto_id msg =
    let ids = proto_id ∷ msg.msg_id ∷ [] in
    elim msg.create_at [
      | negsuc _ ↦ ids
      | pos t ↦
          if not (is_empty msg.text) && ltb 0 t
          then ids ++ (content_fingerprint digest msg.conversation_id t msg.msg_type msg.text ∷ [])
          else ids
    ]

-- the cache is asked, and marked too unless that is left until after the handler
unfoldable pub check_duplicate : SafetyPipeline → Clock → List Text → SafetyPipeline × Bool
check_duplicate p c keys =
    let (seen, dup) =
      if p.mark_after_handler
      then Seen.has none p.seen c.has_at keys
      else Seen.check_and_mark none p.seen c.has_at c.add_at keys in
    (record p { seen = seen }, dup)

unfoldable pub is_self_sent : SafetyPipeline → IncomingMessage → Bool
is_self_sent p msg =
    (p.drop_self_sent && not (is_empty p.bot_robot_code)) && (msg.sender_id == p.bot_robot_code)

-- the steps 3 to 5 of `PushMessage`, with the answer whether the message goes on
unfoldable pub admit_checked : SafetyPipeline → ℕ → IncomingMessage → SafetyPipeline × Bool
unfolding is_self_sent
admit_checked p now msg =
    if is_self_sent p msg
    then (emit_reject p msg (some Types.self_sent), false)
    else (let decision = Policy.evaluate p.policy msg in
        if not decision.allowed
        then (emit_reject p msg decision.reason, false)
        else (let (lock, free) = Lock.acquire p.lock now msg.msg_id in
            if free
            then (record p { lock = lock }, true)
            else (emit_reject (record p { lock = lock }) msg (some Types.lock_contention), false)))

-- the steps 1 to 5
unfoldable pub admit :
    (Text → Text) → SafetyPipeline → Clock → Text → IncomingMessage → SafetyPipeline × Bool
admit digest p c proto_id msg =
    if Stale.is_stale p.stale c.stale_at msg.create_at
    then (emit_reject p msg (some Types.stale), false)
    else (let (p', dup) = check_duplicate p c (dedup_keys digest proto_id msg) in
        if dup
        then (emit_reject p' msg (some Types.duplicate), false)
        else admit_checked p' c.lock_at msg)

-- the queue, if there is one and it is enabled
unfoldable pub enabled_queue : SafetyPipeline → Option (ChatQueueManager Unit Job)
enabled_queue p = elim p.chat_queue [ none ↦ none | some q ↦ if q.is_enabled then some q else none ]

unfoldable pub put_queue :
    SafetyPipeline → Option (ChatQueueManager Unit Job) → Option SafetyPipeline
put_queue p none = none
put_queue p (some q) = some (record p { chat_queue = some q })

-- step 6, up to the wait of a `Run`
unfoldable pub enqueue :
    SafetyPipeline → ChatQueueManager Unit Job → IncomingMessage → Option SafetyPipeline
enqueue p q msg =
    let scope = msg.conversation_id in
    if batch_mode p
    then put_queue p (Manager.push q scope msg (some tt))
    else put_queue p (Manager.start_run q scope (Pipeline.flushes_message msg))

-- the steps 7 and 8; `ok` is the success of the callback of step 8
unfoldable pub dispatch_direct :
    (Text → Text) → SafetyPipeline → ℕ → Bool → IncomingMessage → SafetyPipeline
dispatch_direct digest p now ok msg =
    if Media.is_compatible p.media msg
    then record p { media = Media.push digest p.media msg }
    else (let p' =
          if p.media.cfg.enabled
          then record p { media = Media.flush_incompatible_for p.media msg }
          else p in
        if batch_mode p'
        then batch_flush p' now ok (record { message = msg; source_ids = msg.msg_id ∷ [] })
        else message_flush p' now ok msg (msg ∷ []))

unfoldable pub dispatch :
    (Text → Text) → SafetyPipeline → ℕ → Bool → IncomingMessage → Option SafetyPipeline
unfolding enqueue dispatch_direct
dispatch digest p now ok msg = elim (enabled_queue p) [
  | some q ↦ enqueue p q msg
  | none ↦ some (dispatch_direct digest p now ok msg)
]

unfoldable pub push_message :
    (Text → Text) → SafetyPipeline → Clock → Text → IncomingMessage → Bool → Option SafetyPipeline
push_message digest p c proto_id msg ok =
    let (p', on) = admit digest p c proto_id msg in
    if on then dispatch digest p' c.done_at ok msg else some p'

-- the `runner` of `PushAction`, with the success of its handler
unfoldable pub run_action : SafetyPipeline → ℕ → Bool → Text → List Text → SafetyPipeline
run_action p now ok event_id keys = record p {
  lock = Lock.release p.lock event_id;
  seen = if p.mark_after_handler && ok then Seen.add false p.seen now keys else p.seen;
}

-- `PushAction`; its answer says whether the handler is to run
unfoldable pub push_action :
    SafetyPipeline → Clock → Text → Text → List Text → Bool → Option (SafetyPipeline × Bool)
unfolding run_action
push_action p c event_id scope extra ok =
    let keys = event_id ∷ extra in
    let (p', dup) = check_duplicate p c keys in
    let (lock, free) = Lock.acquire p'.lock c.lock_at event_id in
    if dup
    then some (p', false)
    else (if not free
        then some (record p' { lock = lock }, false)
        else (let taken = record p' { lock = lock } in
            elim (enabled_queue p') [
              | none ↦ some (run_action taken c.done_at ok event_id keys, true)
              | some q ↦
                  Option.map (λ x. (x, true))
                    (put_queue taken
                      (Manager.start_run q scope (Pipeline.runs_action event_id keys)))
            ]))

-- `PushLight`, with the answer whether the handler runs
unfoldable pub push_light : SafetyPipeline → Clock → Text → Bool → SafetyPipeline × Bool
push_light p c event_id ok =
    let (p', dup) = check_duplicate p c (event_id ∷ []) in
    if dup then (p', false) else (
      record p' {
        seen =
            if p.mark_after_handler && ok
            then Seen.add false p'.seen c.done_at (event_id ∷ [])
            else p'.seen;
      },
      true,
    )

-- a worker runs a task
unfoldable pub run_task : SafetyPipeline → ℕ → Bool → Task Unit Job → SafetyPipeline
unfolding run_action
run_task p now ok (flushes _ d) = batch_flush p now ok d
run_task p now ok (runs (Pipeline.flushes_message m)) = message_flush p now ok m (m ∷ [])
run_task p now ok (runs (Pipeline.runs_action id keys)) = run_action p now ok id keys
run_task p now ok marks = p
