-- ===== src/Safety/Queue.antt =====
-- internal/safety/chat_queue.go: one queue per conversation, which gathers messages into batches and
-- runs what it is given in order. `Push`, `Dispose` and the timer hold the mutex from start to end, so
-- each is one step; `Run` and `FlushNow` hold it for their flush and send their task afterwards.
-- `none` is the panic of a send on the closed channel. The worker takes tasks from the front; a send
-- that finds the channel full waits, with the mutex held, so its task is the next in the list.
pub mod Merge
pub mod Order
pub mod Runs
pub mod Timed
pub mod Waiting
use dingtalk_channel_sdk_go.Prelude.{
  leb, if◌then◌else◌, tests, length, last_of, any, Text, is_empty, listed, ℕ, zero, suc, ◌+◌, ◌*◌,
  Bool, true, false, not, ◌&&◌, ◌||◌, Option, none, some, List, [], ◌∷◌, ◌++◌, arith,
}
use dingtalk_channel_sdk_go.Types.{
  IncomingMessage, Resource, Mention, BatchConfig, MediaBatchConfig, BatchedDispatch, millisecond,
}

-- A function sent to the worker: a handler with its batch, the task of `Run`, or the mark of
-- `FlushNow`, which only closes a channel.
pub data Task (H J : Type 0) : Type 0 where
  flushes : H → BatchedDispatch → Task H J
  runs : J → Task H J
  marks : Task H J

-- `timer` has the delay, in nanoseconds, with which it was armed. A negative number of a
-- configuration acts as 0.
pub record ChatQueue (H J : Type 0) : Type 0 where
  pub scope : Text
  pub batch_cfg : BatchConfig
  pub media_batch : Option MediaBatchConfig
  pub serial_only : Bool
  pub buffer : List IncomingMessage
  pub buffer_chars : ℕ
  pub timer : Option ℕ
  pub pending_handler : Option H
  pub tasks : List (Task H J)
  pub closed : Bool

-- the texts that are not empty, joined by a blank line
unfoldable pub join_texts : List Text → Text
join_texts [] = []
join_texts (t ∷ ts) = elim ts [ [] ↦ t | _ ∷ _ ↦ t ++ (10 ∷ 10 ∷ join_texts ts) ]

unfoldable pub texts_of : List IncomingMessage → List Text
texts_of [] = []
texts_of (m ∷ ms) = let rest = texts_of ms in if is_empty m.text then rest else m.text ∷ rest

-- the elements whose key is seen for the first time, in a loop with a map of those seen
unfoldable pub first_by : {A : Type 0} → (A → Text) → List Text → List A → List A
first_by key seen [] = []
first_by key seen (x ∷ xs) =
    let fresh = x ∷ first_by key (key x ∷ seen) xs in
    if listed (key x) seen then first_by key seen xs else fresh

unfoldable pub mention_key : Mention → Text
mention_key m = if is_empty m.user_id then m.name else m.user_id

unfoldable pub all_resources : List IncomingMessage → List Resource
all_resources [] = []
all_resources (m ∷ ms) = m.resources ++ all_resources ms

unfoldable pub all_mentions : List IncomingMessage → List Mention
all_mentions [] = []
all_mentions (m ∷ ms) = m.mentions ++ all_mentions ms

-- `mergeBatchMessages` of a batch, which is never empty
unfoldable pub merge_batch_messages : IncomingMessage → List IncomingMessage → IncomingMessage
unfolding join_texts texts_of first_by mention_key all_resources all_mentions any
merge_batch_messages m [] = m
merge_batch_messages m (m' ∷ ms) =
    let batch = m ∷ m' ∷ ms in
    record (last_of m' ms) {
      text = join_texts (texts_of batch);
      mention_all = any (λ x. x.mention_all) batch;
      resources = first_by (λ r. r.download_code) [] (all_resources batch);
      mentions = first_by mention_key [] (all_mentions batch);
    }

unfoldable pub extract_message_ids : List IncomingMessage → List Text
extract_message_ids [] = []
extract_message_ids (m ∷ ms) = m.msg_id ∷ extract_message_ids ms

module _ {H J : Type 0} where
  unfoldable pub new_chat_queue :
      Text → BatchConfig → Option MediaBatchConfig → Bool → ChatQueue H J
  new_chat_queue scope batch_cfg media_batch serial_only = record {
    scope = scope;
    batch_cfg = batch_cfg;
    media_batch = media_batch;
    serial_only = serial_only;
    buffer = [];
    buffer_chars = 0;
    timer = none;
    pending_handler = none;
    tasks = [];
    closed = false;
  }

  -- `cq.tasks <- …`, once for each task
  unfoldable pub send_all : List (Task H J) → ChatQueue H J → Option (ChatQueue H J)
  send_all ts cq = if cq.closed then none else some (record cq { tasks = cq.tasks ++ ts })

  unfoldable pub clear_timer : ChatQueue H J → ChatQueue H J
  clear_timer cq = record cq { timer = none }

  -- the serial mode: each message is a batch of its own
  unfoldable pub one_by_one : H → List IncomingMessage → List (Task H J)
  one_by_one handler [] = []
  one_by_one handler (m ∷ ms) =
      flushes handler (record { message = m; source_ids = m.msg_id ∷ [] }) ∷ one_by_one handler ms

  -- what is sent for a batch `m ∷ ms`
  unfoldable pub batch_tasks : Bool → H → IncomingMessage → List IncomingMessage → List (Task H J)
  unfolding one_by_one merge_batch_messages extract_message_ids
  batch_tasks serial_only handler m ms =
      if serial_only
      then one_by_one handler (m ∷ ms)
      else flushes handler (record {
        message = merge_batch_messages m ms;
        source_ids = extract_message_ids (m ∷ ms);
      })
        ∷ []

  unfoldable pub enqueue_flush : ChatQueue H J → Option (ChatQueue H J)
  enqueue_flush cq = elim cq.buffer [
    | [] ↦ some cq
    | m ∷ ms ↦
        let emptied = record cq { buffer = []; buffer_chars = 0; pending_handler = none } in
        elim cq.pending_handler [
          | none ↦ some emptied
          | some handler ↦ send_all (batch_tasks cq.serial_only handler m ms) emptied
        ]
  ]

  -- the delay of the debounce timer
  unfoldable pub delay_for : ChatQueue H J → IncomingMessage → ℕ
  delay_for cq msg =
      let text_delay =
        if leb cq.batch_cfg.long_threshold_chars cq.buffer_chars
        then cq.batch_cfg.long_delay
        else cq.batch_cfg.delay in
      elim cq.media_batch [
        | none ↦ text_delay
        | some mb ↦
            if mb.enabled && not (leb (length msg.resources) 0)
            then mb.delay_ms * millisecond
            else text_delay
      ]

  -- the message is in the buffer, and its handler, if none is waiting
  unfoldable pub append_message : ChatQueue H J → IncomingMessage → Option H → ChatQueue H J
  append_message cq msg handler = record cq {
    buffer = cq.buffer ++ (msg ∷ []);
    buffer_chars = cq.buffer_chars + length msg.text;
    pending_handler = elim cq.pending_handler [ none ↦ handler | some h ↦ some h ];
  }

  -- the three tests of `Push` for a flush at once
  unfoldable pub is_due : ChatQueue H J → Bool
  is_due cq =
      (leb cq.batch_cfg.max_messages (length cq.buffer)
        || leb cq.batch_cfg.max_chars cq.buffer_chars)
      || (leb cq.batch_cfg.delay 0 || cq.serial_only)

  unfoldable pub push : ChatQueue H J → IncomingMessage → Option H → Option (ChatQueue H J)
  push cq msg handler =
      let cq' = append_message cq msg handler in
      if is_due cq'
      then enqueue_flush (clear_timer cq')
      else some (record (clear_timer cq') { timer = some (delay_for cq' msg) })

  -- the timer's function
  unfoldable pub timer_fires : ChatQueue H J → Option (ChatQueue H J)
  timer_fires cq = enqueue_flush (record cq { timer = none })

  -- what `Run` and `FlushNow` do first, under the mutex
  unfoldable pub flush_pending : ChatQueue H J → Option (ChatQueue H J)
  flush_pending cq = elim cq.buffer [ [] ↦ some cq | _ ∷ _ ↦ enqueue_flush (clear_timer cq) ]

  -- the send of `Run`, and of `FlushNow`, once the mutex has been released
  unfoldable pub send_task : Task H J → ChatQueue H J → Option (ChatQueue H J)
  unfolding send_all
  send_task t cq = send_all (t ∷ []) cq

  -- `Run` up to its wait for the task, when no other call comes between its two parts. Those are steps
  -- of their own in Queue/Runs.antt.
  unfoldable pub start_run : ChatQueue H J → J → Option (ChatQueue H J)
  start_run cq task = elim (flush_pending cq) [ none ↦ none | some cq' ↦ send_task (runs task) cq' ]

  -- `FlushNow` up to its wait for the mark, when no other call comes between its two parts
  unfoldable pub start_flush_now : ChatQueue H J → Option (ChatQueue H J)
  start_flush_now cq = elim (flush_pending cq) [ none ↦ none | some cq' ↦ send_task marks cq' ]

  -- One round of the worker: the task that it runs, if there is one. After `Dispose` it stops, by
  -- the closed `stopCh` or, once the tasks are done, by the closed channel.
  unfoldable pub take_task : ChatQueue H J → Option (Task H J × ChatQueue H J)
  take_task cq = elim cq.tasks [ [] ↦ none | t ∷ ts ↦ some (t, record cq { tasks = ts }) ]

  unfoldable pub dispose : ChatQueue H J → ChatQueue H J
  dispose cq = if cq.closed then cq else record (clear_timer cq) { closed = true }
