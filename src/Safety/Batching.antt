-- ===== src/Safety/Batching.antt =====
-- internal/safety/batching.go: the older batching of messages. `Push`, `Dispose` and a timer hold the
-- mutex of the pipeline from start to end, so each is one step. A flush, which is a goroutine or part of
-- `FlushNow`, takes the buffer under the mutex and calls the handler after it has released it: these are
-- two steps, between which anything may come. A timer that was stopped too late to hold it back may
-- still fire.
pub mod Account
pub mod Drains
use dingtalk_channel_sdk_go.Prelude.{
  leb, if◌then◌else◌, is_some, length, last_of, Text, is_empty, Map, lookup, insert, ℕ, zero, suc,
  ◌+◌, Bool, ◌||◌, Option, none, some, List, [], ◌∷◌, ◌++◌, arith,
}
use dingtalk_channel_sdk_go.Types.{IncomingMessage, BatchConfig, BatchedDispatch}
use dingtalk_channel_sdk_go.Safety.Queue.{join_texts, texts_of, extract_message_ids}

-- `mergeMessages` of a batch, which is never empty
unfoldable pub merge_messages : IncomingMessage → List IncomingMessage → IncomingMessage
unfolding join_texts texts_of
merge_messages m [] = m
merge_messages m (m' ∷ ms) =
    let last = last_of m' ms in
    elim (texts_of (m ∷ m' ∷ ms)) [
      | [] ↦ last
      | t ∷ ts ↦ record last { text = join_texts (t ∷ ts) }
    ]

-- `chatPipeline`; `timer` has the delay with which it was armed, `flushes` the flushes that are yet to
-- take the buffer, `taken` the batches that flushes hold, and `handed` what the handler has got.
pub record ChatPipeline : Type 0 where
  pub cfg : BatchConfig
  pub buffer : List IncomingMessage
  pub buffer_chars : ℕ
  pub timer : Option ℕ
  pub has_handler : Bool
  pub flushes : ℕ
  pub taken : List BatchedDispatch
  pub handed : List BatchedDispatch

unfoldable pub new_chat_pipeline : BatchConfig → Bool → ChatPipeline
new_chat_pipeline cfg has_handler = record {
  cfg = cfg;
  buffer = [];
  buffer_chars = 0;
  timer = none;
  has_handler = has_handler;
  flushes = 0;
  taken = [];
  handed = [];
}

-- the thresholds of a flush
unfoldable pub is_due : ChatPipeline → Bool
is_due p = leb p.cfg.max_messages (length p.buffer) || leb p.cfg.max_chars p.buffer_chars

unfoldable pub delay_for : ChatPipeline → ℕ
delay_for p =
    if leb p.cfg.long_threshold_chars p.buffer_chars then p.cfg.long_delay else p.cfg.delay

-- what `Push` does when it has added the message
unfoldable pub schedule : ChatPipeline → ChatPipeline
unfolding is_due delay_for
schedule p =
    if is_due p
    then record p { timer = none; flushes = suc p.flushes }
    else record p { timer = some (delay_for p) }

unfoldable pub push : IncomingMessage → ChatPipeline → ChatPipeline
unfolding schedule
push msg p =
    schedule (record p {
      buffer = p.buffer ++ (msg ∷ []);
      buffer_chars = p.buffer_chars + length msg.text;
    })

-- the function of a timer
unfoldable pub fire : ChatPipeline → ChatPipeline
fire p = record p { timer = none; flushes = suc p.flushes }

-- a batch, as the handler gets it
unfoldable pub batch_of : IncomingMessage → List IncomingMessage → BatchedDispatch
unfolding merge_messages extract_message_ids
batch_of m ms = record { message = merge_messages m ms; source_ids = extract_message_ids (m ∷ ms) }

-- what a flush does under the mutex
unfoldable pub take_buffer : List IncomingMessage → ChatPipeline → ChatPipeline
unfolding batch_of
take_buffer [] p = p
take_buffer (m ∷ ms) p = record p {
  buffer = [];
  buffer_chars = 0;
  taken = p.taken ++ (batch_of m ms ∷ []);
}

-- a flush that is about to start, if there is one
unfoldable pub start_flush : ℕ → ChatPipeline → ChatPipeline
unfolding take_buffer
start_flush zero p = p
start_flush (suc others) p = take_buffer p.buffer (record p { flushes = others })

-- one of the batches, and the others
unfoldable pub pick : ℕ → List BatchedDispatch → Option (BatchedDispatch × List BatchedDispatch)
pick n [] = none
pick zero (b ∷ bs) = some (b, bs)
pick (suc n) (b ∷ bs) = elim (pick n bs) [ none ↦ none | some (c, rest) ↦ some (c, b ∷ rest) ]

-- the call of the handler, if there is one
unfoldable pub hand : BatchedDispatch → ChatPipeline → ChatPipeline
hand b p = if p.has_handler then record p { handed = p.handed ++ (b ∷ []) } else p

-- The flush that holds this batch goes on, outside the mutex.
unfoldable pub finish_flush :
    Option (BatchedDispatch × List BatchedDispatch) → ChatPipeline → ChatPipeline
unfolding hand
finish_flush none p = p
finish_flush (some (b, rest)) p = hand b (record p { taken = rest })

-- `FlushNow` under the mutex, with what is in the buffer; its flush follows
unfoldable pub begin_flush_now : List IncomingMessage → ChatPipeline → ChatPipeline
begin_flush_now [] p = p
begin_flush_now (_ ∷ _) p = record p { timer = none; flushes = suc p.flushes }

-- `FlushNow`, when no other call comes between its parts
unfoldable pub flush_now : List IncomingMessage → ChatPipeline → ChatPipeline
unfolding hand batch_of
flush_now [] p = p
flush_now (m ∷ ms) p =
    hand (batch_of m ms) (record p { timer = none; buffer = []; buffer_chars = 0 })

-- `Dispose`; the number of characters stays
unfoldable pub dispose : ChatPipeline → ChatPipeline
dispose p = record p { timer = none; buffer = [] }

-- What happens to a pipeline: a push, its timer, one that could not be stopped, the start of `FlushNow`,
-- a flush that takes the buffer, a flush that hands over the batch with this number, `Dispose`.
pub data Event : Type 0 where
  pushes : IncomingMessage → Event
  timer_fires late_timer_fires flushes_now flush_starts disposes : Event
  flush_finishes : ℕ → Event

unfoldable pub step : ChatPipeline → Event → ChatPipeline
unfolding fire start_flush pick finish_flush begin_flush_now dispose
step p (pushes msg) = push msg p
step p timer_fires = if is_some p.timer then fire p else p
step p late_timer_fires = fire p
step p flushes_now = begin_flush_now p.buffer p
step p flush_starts = start_flush p.flushes p
step p disposes = dispose p
step p (flush_finishes n) = finish_flush (pick n p.taken) p

unfoldable pub run : ChatPipeline → List Event → ChatPipeline
run p [] = p
run p (e ∷ es) = run (step p e) es

-- `MessageBatcher`: the pipelines by their scopes
pub record MessageBatcher : Type 0 where
  pub cfg : BatchConfig
  pub has_handler : Bool
  pub pipelines : Map ChatPipeline

unfoldable pub new_message_batcher : BatchConfig → Bool → MessageBatcher
new_message_batcher cfg has_handler = record {
  cfg = cfg;
  has_handler = has_handler;
  pipelines = [];
}

-- `getOrCreate`
unfoldable pub get_or_create : MessageBatcher → Text → ChatPipeline
get_or_create b scope = elim (lookup scope b.pipelines) [
  | some p ↦ p
  | none ↦ new_chat_pipeline b.cfg b.has_handler
]

-- `Push` of the batcher
unfoldable pub push_message : MessageBatcher → IncomingMessage → MessageBatcher
unfolding get_or_create push
push_message b msg =
    let scope = if is_empty msg.conversation_id then msg.msg_id else msg.conversation_id in
    record b { pipelines = insert scope (push msg (get_or_create b scope)) b.pipelines }

unfoldable pub flush_each : Map ChatPipeline → Map ChatPipeline
unfolding flush_now
flush_each [] = []
flush_each ((scope, p) ∷ rest) = (scope, flush_now p.buffer p) ∷ flush_each rest

-- `FlushAll`; the flushes run side by side, each on a pipeline of its own
unfoldable pub flush_all : MessageBatcher → MessageBatcher
unfolding flush_each
flush_all b = record b { pipelines = flush_each b.pipelines }

-- the batches that the pipelines have handed over
unfoldable pub all_handed : Map ChatPipeline → List BatchedDispatch
all_handed [] = []
all_handed ((scope, p) ∷ rest) = p.handed ++ all_handed rest

-- `Dispose` of the batcher, with the batches that its handler has got
unfoldable pub dispose_batcher : MessageBatcher → MessageBatcher × List BatchedDispatch
unfolding flush_all all_handed
dispose_batcher b = (record b { pipelines = [] }, all_handed (flush_all b).pipelines)
