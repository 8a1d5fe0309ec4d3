-- ===== src/Safety/Queue/Runs.antt =====
-- A queue with its worker, through any sequence of calls, timers and rounds of the worker.
use dingtalk_channel_sdk_go.Prelude.{
  Option-cases, Text, ◌≡◌, refl, sym, ap, ◌∙◌, inl, inr, Bool, Option, none, some, List, [], ◌∷◌,
  ◌++◌,
}
use mathlib.Core.List.{append-nil, append_assoc}
use dingtalk_channel_sdk_go.Types.{IncomingMessage, BatchConfig, MediaBatchConfig}
use dingtalk_channel_sdk_go.Safety.Queue.{
  Task, runs, marks, ChatQueue, extract_message_ids, new_chat_queue, push, timer_fires,
  flush_pending, send_task, take_task,
}
use dingtalk_channel_sdk_go.Safety.Queue.Order.{
  all_sources, all_sources-append, waiting, Adds, IsReady, push-Adds, timer_fires-Adds,
  send_all-Adds, flush_pending-Adds,
}

-- A queue and the tasks that its worker has run.
pub record World (H J : Type 0) : Type 0 where
  pub queue : ChatQueue H J
  pub handed : List (Task H J)

-- What happens to a queue: pushes, the timer, the flush with which `Run` and `FlushNow` begin, the send
-- that follows it at any later time, and rounds of the worker.
pub data Event (H J : Type 0) : Type 0 where
  pushes : IncomingMessage → H → Event H J
  timer_ends : Event H J
  flushes_pending : Event H J
  sends_run : J → Event H J
  sends_mark : Event H J
  works : Event H J

module _ {H J : Type 0} where
  unfoldable pub on_queue : World H J → Option (ChatQueue H J) → Option (World H J)
  on_queue w none = none
  on_queue w (some cq) = some (record w { queue = cq })

  unfoldable pub step : World H J → Event H J → Option (World H J)
  unfolding on_queue
  step w (pushes m h) = on_queue w (push w.queue m (some h))
  step w timer_ends =
      on_queue w (elim w.queue.timer [ none ↦ some w.queue | some _ ↦ timer_fires w.queue ])
  step w flushes_pending = on_queue w (flush_pending w.queue)
  step w (sends_run j) = on_queue w (send_task (runs j) w.queue)
  step w sends_mark = on_queue w (send_task marks w.queue)
  step w works = elim (take_task w.queue) [
    | none ↦ some w
    | some (t, cq) ↦ some (record { queue = cq; handed = w.handed ++ (t ∷ []) })
  ]

  unfoldable pub run : World H J → List (Event H J) → Option (World H J)
  run w [] = some w
  run w (e ∷ es) = elim (step w e) [ none ↦ none | some w' ↦ run w' es ]

  abbrev pub pushed_by : Event H J → List Text
  pushed_by (pushes m h) = m.msg_id ∷ []
  pushed_by timer_ends = []
  pushed_by flushes_pending = []
  pushed_by (sends_run j) = []
  pushed_by sends_mark = []
  pushed_by works = []

  abbrev pub all_pushed : List (Event H J) → List Text
  all_pushed [] = []
  all_pushed (e ∷ es) = pushed_by e ++ all_pushed es

  abbrev pub account : World H J → List Text
  account w = all_sources w.handed ++ waiting w.queue

  -- a step that succeeds, and what it adds to the account
  abbrev Accounts : World H J → Option (World H J) → List Text → Type 0
  Accounts w o more =
      (w' : World H J) × (o ≡ some w') × IsReady w'.queue × (account w' ≡ account w ++ more)

  on_queue-Accounts :
      (w : World H J) (o : Option (ChatQueue H J)) (more : List Text)
      → Adds o w.queue more
      → Accounts w (on_queue w o) more
  on_queue-Accounts w o more (cq, e, r, grown) = (
    record w { queue = cq },
    (unfold on_queue in rw e refl),
    r,
    ap (λ l. all_sources w.handed ++ l) grown
        ∙ sym (append_assoc (all_sources w.handed) (waiting w.queue) more),
  )

  works-Accounts : (w : World H J) → IsReady w.queue → Accounts w (step w works) []
  works-Accounts w = go w.queue.tasks w
    where
      go :
          (ts : List (Task H J)) (w : World H J)
          → let w' = record w { queue = record (w.queue) { tasks = ts } } in
            IsReady w'.queue → Accounts w' (step w' works) []
      go [] w r =
          let w' = record w { queue = record (w.queue) { tasks = [] } } in
          (w', (unfold step take_task in refl), r, sym (append-nil (account w')))
      go (t ∷ ts) w r = (
        record { queue = record (w.queue) { tasks = ts }; handed = w.handed ++ (t ∷ []) },
        (unfold step take_task in refl),
        record { opened = r.opened; handled = r.handled },
        simp (all_sources-append, append_assoc, append-nil),
      )

  timer_step-Adds :
      (cq : ChatQueue H J)
      → IsReady cq
      → Adds (elim cq.timer [ none ↦ some cq | some _ ↦ timer_fires cq ]) cq []
  timer_step-Adds cq r = elim (Option-cases cq.timer) [
    | inl off ↦ rw off (cq, refl, r, sym (append-nil (waiting cq)))
    | inr (t, armed) ↦ rw armed (timer_fires-Adds cq r)
  ]

  step-Accounts :
      (w : World H J) (e : Event H J) → IsReady w.queue → Accounts w (step w e) (pushed_by e)
  unfolding step
  step-Accounts w (pushes m h) r = on_queue-Accounts w _ (m.msg_id ∷ []) (push-Adds w.queue r m h)
  step-Accounts w timer_ends r = on_queue-Accounts w _ [] (timer_step-Adds w.queue r)
  step-Accounts w flushes_pending r = on_queue-Accounts w _ [] (flush_pending-Adds w.queue r)
  step-Accounts w (sends_run j) r =
      on_queue-Accounts w _ [] (unfold send_task in send_all-Adds w.queue r (runs j) refl)
  step-Accounts w sends_mark r =
      on_queue-Accounts w _ [] (unfold send_task in send_all-Adds w.queue r marks refl)
  step-Accounts w works r = works-Accounts w r

  pub run-step :
      (w : World H J) (e : Event H J) (es : List (Event H J)) {w' : World H J}
      → step w e ≡ some w'
      → run w (e ∷ es) ≡ run w' es
  unfolding run
  run-step w e es p = rw (p, run) refl

  run-Accounts :
      (es : List (Event H J)) (w : World H J)
      → IsReady w.queue
      → Accounts w (run w es) (all_pushed es)
  run-Accounts [] w r = (w, (unfold run in refl), r, sym (append-nil (account w)))
  run-Accounts (e ∷ es) w r =
      let (w', p, r', grown) = step-Accounts w e r in
      let (w'', p', r'', grown') = run-Accounts es w' r' in
      (
        w'',
        run-step w e es p ∙ p',
        r'',
        grown'
            ∙ (ap (λ l. l ++ all_pushed es) grown
                ∙ append_assoc (account w) (pushed_by e) (all_pushed es)),
      )

  -- From a new queue, whatever is pushed with a handler, in whatever order the calls, the timer and
  -- the worker come: nothing panics, and the messages handed over, then those in the tasks, then
  -- those in the buffer are the messages pushed, each once and in the order of the pushes.
  pub run_in_order :
      (scope : Text) (cfg : BatchConfig) (media : Option MediaBatchConfig) (serial_only : Bool)
      (es : List (Event H J))
      → let start : World H J = record {
        queue = new_chat_queue scope cfg media serial_only;
        handed = [];
      } in
        (w : World H J) × (run start es ≡ some w) × (account w ≡ all_pushed es)
  run_in_order scope cfg media serial_only es =
      let start : World H J = record {
        queue = new_chat_queue scope cfg media serial_only;
        handed = [];
      } in
      let (w, p, r, same) = run-Accounts es start (record {
        opened = unfold new_chat_queue in refl;
        handled = unfold new_chat_queue in refl;
      }) in
      (w, p, same ∙ (unfold new_chat_queue extract_message_ids in refl))
