-- ===== src/Safety/Batching/Account.antt =====
-- The older batching loses no message: each has been handed over, is held by a flush, or waits.
use dingtalk_channel_sdk_go.Prelude.{
  if◌then◌else◌, is_some, length, All, Text, ◌==◌, ℕ, zero, suc, ◌+◌, ◌≡◌, refl, ap, ◌∙◌, Bool,
  true, false, Option, none, some, List, [], ◌∷◌, ◌++◌, arith,
}
use dingtalk_channel_sdk_go.Types.{IncomingMessage, BatchedDispatch}
use dingtalk_channel_sdk_go.Safety.Queue.{extract_message_ids}
use dingtalk_channel_sdk_go.Safety.Batching.{
  ChatPipeline, is_due, schedule, push, fire, batch_of, take_buffer, start_flush, pick, hand,
  finish_flush, begin_flush_now, Event, pushes, timer_fires, late_timer_fires, flushes_now,
  flush_starts, disposes, flush_finishes, dispose, step, run,
}

-- how often an id occurs in a list
unfoldable pub tally : Text → List Text → ℕ
tally id [] = 0
tally id (j ∷ js) = (if j == id then 1 else 0) + tally id js

-- the messages of batches, and those that have been pushed
unfoldable pub sources_of : List BatchedDispatch → List Text
sources_of [] = []
sources_of (b ∷ bs) = b.source_ids ++ sources_of bs

unfoldable pub pushed : List Event → List Text
pushed [] = []
pushed (pushes msg ∷ es) = msg.msg_id ∷ pushed es
pushed (_ ∷ es) = pushed es

-- no `Dispose`, which throws away what waits
abbrev pub IsOpen : Event → Type 0
IsOpen disposes = ⊥
IsOpen _ = Unit

module _ (id : Text) where
  tally-append : (xs ys : List Text) → tally id (xs ++ ys) ≡ tally id xs + tally id ys
  unfolding tally
  tally-append [] ys = omega arith
  tally-append (x ∷ xs) ys = omega (arith, tally-append xs ys)

  abbrev pub in_batches : List BatchedDispatch → ℕ
  in_batches bs = tally id (sources_of bs)

  abbrev pub in_buffer : List IncomingMessage → ℕ
  in_buffer ms = tally id (extract_message_ids ms)

  in_batches-append :
      (xs ys : List BatchedDispatch) → in_batches (xs ++ ys) ≡ in_batches xs + in_batches ys
  unfolding sources_of tally
  in_batches-append [] ys = omega arith
  in_batches-append (b ∷ xs) ys = omega (
    arith,
    tally-append b.source_ids (sources_of (xs ++ ys)),
    tally-append b.source_ids (sources_of xs),
    in_batches-append xs ys,
  )

  in_batches-one : (b : BatchedDispatch) → in_batches (b ∷ []) ≡ tally id b.source_ids
  unfolding sources_of tally
  in_batches-one b = omega (arith, tally-append b.source_ids [])

  in_batches-cons :
      (b : BatchedDispatch) (bs : List BatchedDispatch)
      → in_batches (b ∷ bs) ≡ tally id b.source_ids + in_batches bs
  unfolding sources_of
  in_batches-cons b bs = tally-append b.source_ids (sources_of bs)

  in_buffer-append :
      (ms : List IncomingMessage) (msg : IncomingMessage)
      → in_buffer (ms ++ (msg ∷ [])) ≡ in_buffer ms + tally id (msg.msg_id ∷ [])
  unfolding extract_message_ids tally
  in_buffer-append [] msg = omega arith
  in_buffer-append (m ∷ ms) msg = omega (arith, in_buffer-append ms msg)

  -- what has been handed over, what flushes hold, and what waits
  abbrev pub total : ChatPipeline → ℕ
  total p = in_batches p.handed + in_batches p.taken + in_buffer p.buffer

  take_buffer-total :
      (ms : List IncomingMessage) (p : ChatPipeline)
      → p.buffer ≡ ms
      → total (take_buffer ms p) ≡ total p
  unfolding take_buffer batch_of
  take_buffer-total [] p e = refl
  take_buffer-total (m ∷ ms) p e =
      let b = batch_of m ms in
      let none_left : in_buffer [] ≡ 0 = unfold extract_message_ids tally in refl in
      let waits : in_buffer p.buffer ≡ in_buffer (m ∷ ms) = ap in_buffer e in
      omega (arith, in_batches-append p.taken (b ∷ []), in_batches-one b, waits, none_left)

  abbrev Picked : List BatchedDispatch → Option (BatchedDispatch × List BatchedDispatch) → Type 0
  Picked bs none = Unit
  Picked bs (some (b, rest)) = in_batches bs ≡ tally id b.source_ids + in_batches rest

  pick-Picked : (n : ℕ) (bs : List BatchedDispatch) → Picked bs (pick n bs)
  unfolding pick
  pick-Picked n [] = tt
  pick-Picked zero (b ∷ bs) = in_batches-cons b bs
  pick-Picked (suc n) (b ∷ bs) = go (pick n bs) (pick-Picked n bs)
    where
      go :
          (o : Option (BatchedDispatch × List BatchedDispatch))
          → Picked bs o
          → Picked (b ∷ bs) (elim o [ none ↦ none | some (c, rest) ↦ some (c, b ∷ rest) ])
      go none h = tt
      go (some (c, rest)) h = omega (arith, h, in_batches-cons b bs, in_batches-cons b rest)

  finish_flush-total :
      (o : Option (BatchedDispatch × List BatchedDispatch)) (p : ChatPipeline)
      → p.has_handler ≡ true
      → Picked p.taken o
      → total (finish_flush o p) ≡ total p
  unfolding finish_flush hand
  finish_flush-total none p on h = refl
  finish_flush-total (some (b, rest)) p on h =
      rw on (omega (arith, h, in_batches-append p.handed (b ∷ []), in_batches-one b))

  start_flush-total : (n : ℕ) (p : ChatPipeline) → total (start_flush n p) ≡ total p
  unfolding start_flush
  start_flush-total zero p = refl
  start_flush-total (suc others) p = take_buffer-total p.buffer (record p { flushes = others }) refl

  begin_flush_now-total :
      (ms : List IncomingMessage) (p : ChatPipeline) → total (begin_flush_now ms p) ≡ total p
  unfolding begin_flush_now
  begin_flush_now-total [] p = refl
  begin_flush_now-total (m ∷ ms) p = refl

  if-total :
      (b : Bool) (x y : ChatPipeline) (n : ℕ)
      → total x ≡ n
      → total y ≡ n
      → total (if b then x else y) ≡ n
  if-total true x y n hx hy = hx
  if-total false x y n hx hy = hy

  push-total :
      (msg : IncomingMessage) (p : ChatPipeline)
      → total (push msg p) ≡ total p + tally id (msg.msg_id ∷ [])
  unfolding push schedule
  push-total msg p =
      let q : ChatPipeline = record p {
        buffer = p.buffer ++ (msg ∷ []);
        buffer_chars = p.buffer_chars + length msg.text;
      } in
      let grown : total q ≡ total p + tally id (msg.msg_id ∷ []) =
        omega (arith, in_buffer-append p.buffer msg) in
      if-total (is_due q) _ _ (total p + tally id (msg.msg_id ∷ [])) grown grown

  -- an event that pushes nothing
  silent : {n m : ℕ} → n ≡ m → n ≡ m + tally id []
  unfolding tally
  silent e = omega (arith, e)

  step-total :
      (p : ChatPipeline) (e : Event)
      → p.has_handler ≡ true
      → IsOpen e
      → total (step p e) ≡ total p + tally id (pushed (e ∷ []))
  unfolding step pushed fire
  step-total p (pushes msg) on h = push-total msg p
  step-total p timer_fires on h = silent (if-total (is_some p.timer) _ _ (total p) refl refl)
  step-total p late_timer_fires on h = silent refl
  step-total p flushes_now on h = silent (begin_flush_now-total p.buffer p)
  step-total p flush_starts on h = silent (start_flush-total p.flushes p)
  step-total p disposes on h = absurd h
  step-total p (flush_finishes n) on h =
      silent (finish_flush-total (pick n p.taken) p on (pick-Picked n p.taken))

  pushed-cons :
      (e : Event) (es : List Event)
      → tally id (pushed (e ∷ es)) ≡ tally id (pushed (e ∷ [])) + tally id (pushed es)
  unfolding pushed tally
  pushed-cons (pushes msg) es = omega arith
  pushed-cons timer_fires es = omega arith
  pushed-cons late_timer_fires es = omega arith
  pushed-cons flushes_now es = omega arith
  pushed-cons flush_starts es = omega arith
  pushed-cons disposes es = omega arith
  pushed-cons (flush_finishes n) es = omega arith

-- the handler stays
pub has_handler-step : (p : ChatPipeline) (e : Event) → (step p e).has_handler ≡ p.has_handler
unfolding step push schedule fire start_flush take_buffer finish_flush hand begin_flush_now dispose
has_handler-step p (pushes msg) = ground arith
has_handler-step p timer_fires = ground arith
has_handler-step p late_timer_fires = refl
has_handler-step p flushes_now = begun p.buffer
  where
    begun : (ms : List IncomingMessage) → (begin_flush_now ms p).has_handler ≡ p.has_handler
    begun [] = refl
    begun (m ∷ ms) = refl
has_handler-step p flush_starts = started p.flushes p.buffer
  where
    started :
        (n : ℕ) (ms : List IncomingMessage)
        → (start_flush n (record p { buffer = ms })).has_handler ≡ p.has_handler
    started zero ms = refl
    started (suc n) [] = refl
    started (suc n) (m ∷ ms) = refl
has_handler-step p disposes = refl
has_handler-step p (flush_finishes n) = finished (pick n p.taken)
  where
    finished :
        (o : Option (BatchedDispatch × List BatchedDispatch))
        → (finish_flush o p).has_handler ≡ p.has_handler
    finished none = refl
    finished (some (b, rest)) = ground arith

pub run-total :
    (id : Text) (p : ChatPipeline) (es : List Event)
    → p.has_handler ≡ true
    → All IsOpen es
    → total id (run p es) ≡ total id p + tally id (pushed es)
unfolding run
run-total id p [] on h = unfold pushed tally in omega arith
run-total id p (e ∷ es) on (first, h) = omega (
  arith,
  run-total id (step p e) es (has_handler-step p e ∙ on) h,
  step-total id p e on first,
  pushed-cons id e es,
)
