-- ===== src/Safety/Batching/Drains.antt =====
-- The older batching hands every message over in the end.
use dingtalk_channel_sdk_go.Prelude.{
  if◌then◌else◌, is_some, length, All, Text, ℕ, zero, suc, ◌+◌, ◌<◌, ◌≡◌, refl, ap, ◌∙◌, ◌⊎◌, inl,
  inr, Bool, true, false, Option, none, some, List, [], ◌∷◌, ◌++◌, arith,
}
use dingtalk_channel_sdk_go.Types.{IncomingMessage, BatchConfig, BatchedDispatch}
use dingtalk_channel_sdk_go.Safety.Queue.{extract_message_ids}
use dingtalk_channel_sdk_go.Safety.Batching.{
  ChatPipeline, new_chat_pipeline, is_due, schedule, push, fire, take_buffer, start_flush, pick,
  hand, finish_flush, begin_flush_now, Event, pushes, timer_fires, late_timer_fires, flushes_now,
  flush_starts, disposes, flush_finishes, dispose, step, run,
}
use dingtalk_channel_sdk_go.Safety.Batching.Account.{
  tally, sources_of, pushed, IsOpen, total, has_handler-step, run-total,
}

-- a waiting message has a timer or a flush that will take it
abbrev IsLive : ChatPipeline → Type 0
IsLive p = (p.buffer ≡ []) ⊎ ((is_some p.timer ≡ true) ⊎ (0 < p.flushes))

if-IsLive : (b : Bool) (x y : ChatPipeline) → IsLive x → IsLive y → IsLive (if b then x else y)
if-IsLive true x y hx hy = hx
if-IsLive false x y hx hy = hy

buffer-take_buffer :
    (ms : List IncomingMessage) (p : ChatPipeline) → p.buffer ≡ ms → (take_buffer ms p).buffer ≡ []
unfolding take_buffer
buffer-take_buffer [] p e = e
buffer-take_buffer (m ∷ ms) p e = refl

-- a flush leaves nothing behind
buffer-start_flush :
    (n : ℕ) (p : ChatPipeline) → (p.buffer ≡ []) ⊎ (0 < n) → (start_flush n p).buffer ≡ []
unfolding start_flush
buffer-start_flush zero p (inl e) = e
buffer-start_flush zero p (inr h) = absurd (omega (arith, h))
buffer-start_flush (suc others) p h =
    buffer-take_buffer p.buffer (record p { flushes = others }) refl

start_flush-IsLive : (n : ℕ) (p : ChatPipeline) → IsLive p → IsLive (start_flush n p)
unfolding start_flush
start_flush-IsLive zero p h = h
start_flush-IsLive (suc others) p h =
    inl (buffer-take_buffer p.buffer (record p { flushes = others }) refl)

begin_flush_now-IsLive :
    (ms : List IncomingMessage) (p : ChatPipeline) → IsLive p → IsLive (begin_flush_now ms p)
unfolding begin_flush_now
begin_flush_now-IsLive [] p h = h
begin_flush_now-IsLive (m ∷ ms) p h = inr (inr (omega arith))

finish_flush-IsLive :
    (o : Option (BatchedDispatch × List BatchedDispatch)) (p : ChatPipeline)
    → IsLive p
    → IsLive (finish_flush o p)
unfolding finish_flush hand
finish_flush-IsLive none p h = h
finish_flush-IsLive (some (b, rest)) p h = if-IsLive p.has_handler _ _ h h

fire-IsLive : (p : ChatPipeline) → IsLive (fire p)
unfolding fire
fire-IsLive p = inr (inr (omega arith))

schedule-IsLive : (p : ChatPipeline) → IsLive (schedule p)
unfolding schedule fire
schedule-IsLive p = if-IsLive (is_due p) _ _ (fire-IsLive p) (inr (inl refl))

step-IsLive : (p : ChatPipeline) (e : Event) → IsLive p → IsLive (step p e)
unfolding step push dispose
step-IsLive p (pushes msg) h =
    schedule-IsLive (record p {
      buffer = p.buffer ++ (msg ∷ []);
      buffer_chars = p.buffer_chars + length msg.text;
    })
step-IsLive p timer_fires h = if-IsLive (is_some p.timer) _ _ (fire-IsLive p) h
step-IsLive p late_timer_fires h = fire-IsLive p
step-IsLive p flushes_now h = begin_flush_now-IsLive p.buffer p h
step-IsLive p flush_starts h = start_flush-IsLive p.flushes p h
step-IsLive p disposes h = inl refl
step-IsLive p (flush_finishes n) h = finish_flush-IsLive (pick n p.taken) p h

run-IsLive : (p : ChatPipeline) (es : List Event) → IsLive p → IsLive (run p es)
unfolding run
run-IsLive p [] h = h
run-IsLive p (e ∷ es) h = run-IsLive (step p e) es (step-IsLive p e h)

-- what is left for a flush when the timer has had its turn
after_timer :
    (b : Bool) (p : ChatPipeline)
    → (p.buffer ≡ []) ⊎ ((b ≡ true) ⊎ (0 < p.flushes))
    → ((if b then fire p else p).buffer ≡ []) ⊎ (0 < (if b then fire p else p).flushes)
unfolding fire
after_timer true p (inl e) = inl e
after_timer false p (inl e) = inl e
after_timer true p (inr h) = inr (omega arith)
after_timer false p (inr (inl wrong)) = absurd (cc)
after_timer false p (inr (inr h)) = inr h

-- the timer and a flush empty the buffer
drained : (p : ChatPipeline) → IsLive p → (step (step p timer_fires) flush_starts).buffer ≡ []
unfolding step
drained p h =
    let p' = step p timer_fires in
    buffer-start_flush p'.flushes p' (after_timer (is_some p.timer) p h)

-- as many ends of the first flush
unfoldable pub finishes : ℕ → List Event
finishes zero = []
finishes (suc n) = flush_finishes 0 ∷ finishes n

-- with them every batch has left its flush, and the buffer is as it was
finished :
    (bs : List BatchedDispatch) (p : ChatPipeline)
    → p.taken ≡ bs
    → ((run p (finishes (length bs))).taken ≡ [])
      × ((run p (finishes (length bs))).buffer ≡ p.buffer)
unfolding run finishes
finished [] p e = (e, refl)
finished (b ∷ bs) p e =
    let q = step p (flush_finishes 0) in
    let (t, same) = step_first b bs p e in let (t', same') = finished bs q t in (t', same' ∙ same)
  where
    one :
        (c : Bool) (b : BatchedDispatch) (bs : List BatchedDispatch) (p : ChatPipeline)
        → let r = record p { taken = bs; has_handler = c } in
          ((hand b r).taken ≡ bs) × ((hand b r).buffer ≡ p.buffer)
    one true b bs p = unfold hand in (refl, refl)
    one false b bs p = unfold hand in (refl, refl)

    step_first :
        (b : BatchedDispatch) (bs : List BatchedDispatch) (p : ChatPipeline)
        → p.taken ≡ b ∷ bs
        → ((step p (flush_finishes 0)).taken ≡ bs) × ((step p (flush_finishes 0)).buffer ≡ p.buffer)
    step_first b bs p e =
        unfold step pick finish_flush in rw (ap (pick 0) e) (one p.has_handler b bs p)

pushed-finishes : (n : ℕ) → pushed (finishes n) ≡ []
unfolding finishes pushed
pushed-finishes zero = refl
pushed-finishes (suc n) = pushed-finishes n

finishes-IsOpen : (n : ℕ) → All IsOpen (finishes n)
unfolding finishes
finishes-IsOpen zero = tt
finishes-IsOpen (suc n) = (tt, finishes-IsOpen n)

has_handler-run : (p : ChatPipeline) (es : List Event) → (run p es).has_handler ≡ p.has_handler
unfolding run
has_handler-run p [] = refl
has_handler-run p (e ∷ es) = has_handler-run (step p e) es ∙ has_handler-step p e

total-new : (cfg : BatchConfig) (id : Text) → total id (new_chat_pipeline cfg true) ≡ 0
unfolding new_chat_pipeline sources_of extract_message_ids tally
total-new cfg id = refl

-- In any run of a new pipeline with a handler and without `Dispose`, every message that is pushed has
-- been handed over, is held by a flush or waits, exactly as often as it was pushed. It does not wait
-- for ever: once the timer, if one is armed, and a flush, if one is due, have had their turn, and the
-- flushes that hold batches have ended, every message has been handed over as often as it was pushed.
-- In which order the flushes hand their batches over is left open.
pub run_drains :
    (cfg : BatchConfig) (es : List Event) (id : Text)
    → All IsOpen es
    → let p = run (new_chat_pipeline cfg true) es in
      let q = run p (timer_fires ∷ flush_starts ∷ []) in
      let end = run q (finishes (length q.taken)) in
      (tally id (sources_of p.handed)
          + tally id (sources_of p.taken)
          + tally id (extract_message_ids p.buffer)
        ≡ tally id (pushed es))
      × (tally id (sources_of end.handed) ≡ tally id (pushed es))
run_drains cfg es id open_run =
    let start = new_chat_pipeline cfg true in
    let on : start.has_handler ≡ true = unfold new_chat_pipeline in refl in
    let p = run start es in
    let q = run p (timer_fires ∷ flush_starts ∷ []) in
    let n = length q.taken in
    let end = run q (finishes n) in
    let live : IsLive start = inl (unfold new_chat_pipeline in refl) in
    let empty : q.buffer ≡ [] = unfold run in drained p (run-IsLive start es live) in
    let on_p = has_handler-run start es ∙ on in
    let on_q = has_handler-run p (timer_fires ∷ flush_starts ∷ []) ∙ on_p in
    let total_p = run-total id start es on open_run in
    let total_q = run-total id p (timer_fires ∷ flush_starts ∷ []) on_p (tt, (tt, tt)) in
    let total_end = run-total id q (finishes n) on_q (finishes-IsOpen n) in
    let nothing : tally id (pushed (timer_fires ∷ flush_starts ∷ [])) ≡ 0 =
      unfold pushed tally in refl in
    let nothing' : tally id (pushed (finishes n)) ≡ 0 =
      ap (tally id) (pushed-finishes n) ∙ (unfold tally in refl) in
    let (gone, same) = finished q.taken q refl in
    let no_batch : tally id (sources_of end.taken) ≡ 0 =
      ap (λ bs. tally id (sources_of bs)) gone ∙ (unfold sources_of tally in refl) in
    let no_wait : tally id (extract_message_ids end.buffer) ≡ 0 =
      ap (λ ms. tally id (extract_message_ids ms)) (same ∙ empty)
      ∙ (unfold extract_message_ids tally in refl) in
    let zero_start = total-new cfg id in
    (
      omega (arith, total_p, zero_start),
      omega (arith, total_p, total_q, total_end, zero_start, nothing, nothing', no_batch, no_wait),
    )
