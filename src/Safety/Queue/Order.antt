-- ===== src/Safety/Queue/Order.antt =====
-- Every message that is pushed is handed to a handler once, in the order of the pushes.
use dingtalk_channel_sdk_go.Prelude.{
  Bool-cases, is_some, Text, ℕ, ◌≡◌, refl, sym, ap, ◌∙◌, inl, inr, Bool, true, false, ◌||◌, Option,
  none, some, List, [], ◌∷◌, ◌++◌, arith,
}
use mathlib.Core.List.{append-nil, append_assoc}
use dingtalk_channel_sdk_go.Types.{IncomingMessage}
use dingtalk_channel_sdk_go.Safety.Queue.{
  Task, flushes, runs, marks, ChatQueue, extract_message_ids, send_all, clear_timer, delay_for,
  one_by_one, batch_tasks, enqueue_flush, append_message, is_due, push, timer_fires, flush_pending,
}

module _ {H J : Type 0} where
  -- the messages that a task hands over
  abbrev pub sources : Task H J → List Text
  sources (flushes h d) = d.source_ids
  sources (runs j) = []
  sources marks = []

  abbrev pub all_sources : List (Task H J) → List Text
  all_sources [] = []
  all_sources (t ∷ ts) = sources t ++ all_sources ts

  pub all_sources-append :
      (ts us : List (Task H J)) → all_sources (ts ++ us) ≡ all_sources ts ++ all_sources us
  all_sources-append [] us = refl
  all_sources-append (t ∷ ts) us =
      ap (λ l. sources t ++ l) (all_sources-append ts us)
      ∙ sym (append_assoc (sources t) (all_sources ts) (all_sources us))

module _ (H J : Type 0) where
  all_sources-one_by_one :
      (h : H) (ms : List IncomingMessage)
      → all_sources {H = H} {J = J} (one_by_one h ms) ≡ extract_message_ids ms
  unfolding one_by_one extract_message_ids
  all_sources-one_by_one h [] = refl
  all_sources-one_by_one h (m ∷ ms) = ap (◌∷◌ m.msg_id) (all_sources-one_by_one h ms)

  all_sources-batch_tasks :
      (serial : Bool) (h : H) (m : IncomingMessage) (ms : List IncomingMessage)
      → all_sources {H = H} {J = J} (batch_tasks serial h m ms) ≡ extract_message_ids (m ∷ ms)
  all_sources-batch_tasks true h m ms = unfold batch_tasks in all_sources-one_by_one h (m ∷ ms)
  all_sources-batch_tasks false h m ms =
      unfold batch_tasks in append-nil (extract_message_ids (m ∷ ms))

abbrev pub is_nil : List IncomingMessage → Bool
is_nil [] = true
is_nil (_ ∷ _) = false

module _ {H J : Type 0} where
  -- The channel is open, and messages that wait have a handler.
  pub record IsReady (cq : ChatQueue H J) : Type 0 where
    pub opened : cq.closed ≡ false
    pub handled : (is_nil cq.buffer || is_some cq.pending_handler) ≡ true

  -- A flush sends the whole buffer.
  record Flushed (cq cq' : ChatQueue H J) : Type 0 where
    ready : IsReady cq'
    emptied : cq'.buffer ≡ []
    sent : all_sources cq'.tasks ≡ all_sources cq.tasks ++ extract_message_ids cq.buffer

  enqueue_flush-Flushed :
      (cq : ChatQueue H J)
      → IsReady cq
      → (cq' : ChatQueue H J) × (enqueue_flush cq ≡ some cq') × Flushed cq cq'
  enqueue_flush-Flushed cq r = go cq.buffer cq.pending_handler cq r.opened r.handled
    where
      go :
          (b : List IncomingMessage) (p : Option H) (cq : ChatQueue H J)
          → cq.closed ≡ false
          → (is_nil b || is_some p) ≡ true
          → let full = record cq { buffer = b; pending_handler = p } in
            (cq' : ChatQueue H J) × (enqueue_flush full ≡ some cq') × Flushed full cq'
      go [] p cq o h =
          unfold enqueue_flush extract_message_ids in
          (
            record cq { buffer = []; pending_handler = p },
            refl,
            record {
              ready = record { opened = o; handled = refl };
              emptied = refl;
              sent = sym (append-nil (all_sources cq.tasks));
            },
          )
      go (m ∷ ms) none cq o h = absurd (cc)
      go (m ∷ ms) (some handler) cq o h =
          let ts = batch_tasks cq.serial_only handler m ms in
          (
            record cq {
              buffer = [];
              buffer_chars = 0;
              pending_handler = none;
              tasks = cq.tasks ++ ts;
            },
            (unfold enqueue_flush send_all in rw o refl),
            record {
              ready = record { opened = o; handled = refl };
              emptied = refl;
              sent =
                  all_sources-append cq.tasks ts
                  ∙ ap (λ l. all_sources cq.tasks ++ l)
                      (all_sources-batch_tasks H J cq.serial_only handler m ms);
            },
          )

extract-append :
    (ms ns : List IncomingMessage)
    → extract_message_ids (ms ++ ns) ≡ extract_message_ids ms ++ extract_message_ids ns
unfolding extract_message_ids
extract-append [] ns = refl
extract-append (m ∷ ms) ns = ap (◌∷◌ m.msg_id) (extract-append ms ns)

module _ {H J : Type 0} where
  -- the messages that are not yet handed over, in order: those of the tasks, then the buffer
  abbrev pub waiting : ChatQueue H J → List Text
  waiting cq = all_sources cq.tasks ++ extract_message_ids cq.buffer

  -- an operation that succeeds and adds to what waits
  abbrev pub Adds : Option (ChatQueue H J) → ChatQueue H J → List Text → Type 0
  Adds o cq more =
      (cq' : ChatQueue H J) × (o ≡ some cq') × IsReady cq' × (waiting cq' ≡ waiting cq ++ more)

  Flushed-waiting : {cq cq' : ChatQueue H J} → Flushed cq cq' → waiting cq' ≡ waiting cq
  unfolding extract_message_ids
  Flushed-waiting {cq} {cq'} f =
      ap (λ b. all_sources cq'.tasks ++ extract_message_ids b) f.emptied
      ∙ (append-nil (all_sources cq'.tasks) ∙ f.sent)

  enqueue_flush-Adds : (cq : ChatQueue H J) → IsReady cq → Adds (enqueue_flush cq) cq []
  enqueue_flush-Adds cq r =
      let (cq', e, f) = enqueue_flush-Flushed cq r in
      (cq', e, f.ready, Flushed-waiting f ∙ sym (append-nil (waiting cq)))

  -- the timer is no part of what waits
  pub timed : (cq : ChatQueue H J) (t : Option ℕ) → IsReady cq → IsReady (record cq { timer = t })
  timed cq t r = record { opened = r.opened; handled = r.handled }

  module _ (cq : ChatQueue H J) (r : IsReady cq) where
    waiting-append_message :
        (m : IncomingMessage) (h : H)
        → IsReady (append_message cq m (some h))
          × (waiting (append_message cq m (some h)) ≡ waiting cq ++ (m.msg_id ∷ []))
    unfolding append_message
    waiting-append_message m h = (
      record { opened = r.opened; handled = ground arith },
      (unfold extract_message_ids in
          ap (λ l. all_sources cq.tasks ++ l) (extract-append cq.buffer (m ∷ []))
          ∙ sym (
              append_assoc (all_sources cq.tasks) (extract_message_ids cq.buffer) (m.msg_id ∷ []))),
    )

    pub push-Adds : (m : IncomingMessage) (h : H) → Adds (push cq m (some h)) cq (m.msg_id ∷ [])
    unfolding clear_timer
    push-Adds m h =
        let cq' = append_message cq m (some h) in
        let (ready, grown) = waiting-append_message m h in
        elim (Bool-cases (is_due cq')) [
          | inl due ↦
              let (cq'', e, r', same) =
                enqueue_flush-Adds (clear_timer cq') (timed cq' none ready) in
              (cq'', (unfold push in rw due e), r', same ∙ (append-nil (waiting cq') ∙ grown))
          | inr not_due ↦
              let t = delay_for cq' m in
              (
                record cq' { timer = some t },
                (unfold push in rw not_due refl),
                timed cq' (some t) ready,
                grown,
              )
        ]

    pub timer_fires-Adds : Adds (timer_fires cq) cq []
    unfolding timer_fires
    timer_fires-Adds = enqueue_flush-Adds (record cq { timer = none }) (timed cq none r)

    pub send_all-Adds : (t : Task H J) → sources t ≡ [] → Adds (send_all (t ∷ []) cq) cq []
    send_all-Adds t silent =
        let kept : all_sources (cq.tasks ++ (t ∷ [])) ≡ all_sources cq.tasks =
          all_sources-append cq.tasks (t ∷ [])
          ∙ (ap (λ l. all_sources cq.tasks ++ (l ++ [])) silent
              ∙ append-nil (all_sources cq.tasks)) in
        (
          record cq { tasks = cq.tasks ++ (t ∷ []) },
          (unfold send_all in rw r.opened refl),
          record { opened = r.opened; handled = r.handled },
          ap (λ l. l ++ extract_message_ids cq.buffer) kept ∙ sym (append-nil (waiting cq)),
        )

  pub flush_pending-Adds : (cq : ChatQueue H J) → IsReady cq → Adds (flush_pending cq) cq []
  flush_pending-Adds cq = go cq.buffer cq
    where
      go :
          (b : List IncomingMessage) (cq : ChatQueue H J)
          → let full = record cq { buffer = b } in IsReady full → Adds (flush_pending full) full []
      go [] cq r =
          let same = record cq { buffer = [] } in
          (same, (unfold flush_pending in refl), r, sym (append-nil (waiting same)))
      go (m ∷ ms) cq r =
          unfold flush_pending clear_timer in
          enqueue_flush-Adds (record cq { buffer = m ∷ ms; timer = none })
            (timed (record cq { buffer = m ∷ ms }) none r)
