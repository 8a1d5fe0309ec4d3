-- ===== src/Safety/Queue/Timed.antt =====
-- What holds of a queue between two calls: messages that wait have a timer, and are not too many.
use dingtalk_channel_sdk_go.Prelude.{
  Bool-cases, is_some, some_inj, length, ℕ, ◌+◌, ◌≡◌, refl, sym, ap, subst, ◌∙◌, inl, inr, Bool,
  true, false, not, ◌||◌, Option, none, some, List, [], ◌∷◌, ◌++◌, arith,
}
use dingtalk_channel_sdk_go.Prelude.{some_inj}
use dingtalk_channel_sdk_go.Types.{IncomingMessage}
use dingtalk_channel_sdk_go.Safety.Queue.{
  Task, ChatQueue, send_all, clear_timer, enqueue_flush, delay_for, append_message, is_due, push,
  flush_pending,
}
use dingtalk_channel_sdk_go.Safety.Queue.Order.{is_nil}

abbrev pub total_chars : List IncomingMessage → ℕ
total_chars [] = 0
total_chars (m ∷ ms) = length m.text + total_chars ms

pub total_chars-append :
    (ms ns : List IncomingMessage) → total_chars (ms ++ ns) ≡ total_chars ms + total_chars ns
total_chars-append [] ns = omega arith
total_chars-append (m ∷ ms) ns = omega (arith, total_chars-append ms ns)

pub or_true : (b : Bool) → (b || true) ≡ true
or_true true = refl
or_true false = refl

pub closed_send : {A : Type 0} {a : A} → none ≡ some a → ⊥
closed_send e = cc

module _ {H J : Type 0} where
  -- A buffer with messages has its timer running and is not due, and the characters are counted.
  pub record IsTimed (cq : ChatQueue H J) : Type 0 where
    pub armed : (is_nil cq.buffer || is_some cq.timer) ≡ true
    pub small : (is_nil cq.buffer || not (is_due cq)) ≡ true
    pub counted : cq.buffer_chars ≡ total_chars cq.buffer

  pub IsTimed-of_nil : (cq : ChatQueue H J) → cq.buffer ≡ [] → cq.buffer_chars ≡ 0 → IsTimed cq
  IsTimed-of_nil cq b c = record {
    armed = rw b refl;
    small = rw b refl;
    counted = c ∙ sym (ap total_chars b);
  }

  pub enqueue_flush-IsTimed :
      (cq : ChatQueue H J) {cq' : ChatQueue H J}
      → cq.buffer_chars ≡ total_chars cq.buffer
      → enqueue_flush cq ≡ some cq'
      → IsTimed cq'
  unfolding enqueue_flush send_all
  enqueue_flush-IsTimed cq = go cq.buffer cq.pending_handler cq.closed cq
    where
      go :
          (b : List IncomingMessage) (p : Option H) (c : Bool) (cq : ChatQueue H J)
          {cq' : ChatQueue H J}
          → let full = record cq { buffer = b; pending_handler = p; closed = c } in
            cq.buffer_chars ≡ total_chars b → enqueue_flush full ≡ some cq' → IsTimed cq'
      go [] p c cq h e =
          let same = some_inj e in
          subst {A = ChatQueue H J} IsTimed same
            (IsTimed-of_nil (record cq { buffer = []; pending_handler = p; closed = c }) refl h)
      go (m ∷ ms) none c cq h e =
          let same = some_inj e in
          subst {A = ChatQueue H J} IsTimed same (IsTimed-of_nil _ refl refl)
      go (m ∷ ms) (some handler) true cq h e = absurd (closed_send e)
      go (m ∷ ms) (some handler) false cq h e =
          let same = some_inj e in
          subst {A = ChatQueue H J} IsTimed same (IsTimed-of_nil _ refl refl)

  pub send_all-IsTimed :
      (ts : List (Task H J)) (cq : ChatQueue H J) {cq' : ChatQueue H J}
      → IsTimed cq
      → send_all ts cq ≡ some cq'
      → IsTimed cq'
  unfolding send_all is_due
  send_all-IsTimed ts cq {cq'} h e = elim (Bool-cases cq.closed) [
    | inl shut ↦
        let panics : send_all ts cq ≡ none = rw shut refl in absurd (closed_send (sym panics ∙ e))
    | inr opened ↦
        let sends : send_all ts cq ≡ some (record cq { tasks = cq.tasks ++ ts }) = rw opened refl in
        let sent = sym sends ∙ e in
        subst {A = ChatQueue H J} IsTimed (some_inj sent)
          (record { armed = h.armed; small = h.small; counted = h.counted })
  ]

  IsTimed-when :
      (cq : ChatQueue H J) (t : ℕ)
      → is_due cq ≡ false
      → cq.buffer_chars ≡ total_chars cq.buffer
      → IsTimed (record (clear_timer cq) { timer = some t })
  unfolding clear_timer is_due
  IsTimed-when cq t fits counts = record {
    armed = ground arith;
    small = subst (λ b. (is_nil cq.buffer || not b) ≡ true) (sym fits) (or_true (is_nil cq.buffer));
    counted = counts;
  }

  pub push-IsTimed :
      (cq : ChatQueue H J) (m : IncomingMessage) (h : Option H) {cq' : ChatQueue H J}
      → IsTimed cq
      → push cq m h ≡ some cq'
      → IsTimed cq'
  push-IsTimed cq m h {cq'} t e =
      let cq1 = append_message cq m h in
      let counts : cq1.buffer_chars ≡ total_chars cq1.buffer =
        unfold append_message in omega (arith, total_chars-append cq.buffer (m ∷ []), t.counted) in
      elim (Bool-cases (is_due cq1)) [
        | inl due ↦
            let flushed : enqueue_flush (clear_timer cq1) ≡ some cq' =
              (unfold push in rw due at e) in
            enqueue_flush-IsTimed (clear_timer cq1) (unfold clear_timer in counts) flushed
        | inr fits ↦
            let armed : some (record (clear_timer cq1) { timer = some (delay_for cq1 m) })
                ≡ some cq' =
              (unfold push in rw fits at e) in
            subst {A = ChatQueue H J} IsTimed (some_inj armed)
              (IsTimed-when cq1 (delay_for cq1 m) fits counts)
      ]

  pub flush_pending-IsTimed :
      (cq : ChatQueue H J) {cq' : ChatQueue H J}
      → IsTimed cq
      → flush_pending cq ≡ some cq'
      → IsTimed cq'
  unfolding flush_pending clear_timer
  flush_pending-IsTimed cq = go cq.buffer cq
    where
      go :
          (b : List IncomingMessage) (cq : ChatQueue H J) {cq' : ChatQueue H J}
          → let full = record cq { buffer = b } in
            IsTimed full → flush_pending full ≡ some cq' → IsTimed cq'
      go [] cq t e = subst {A = ChatQueue H J} IsTimed (some_inj e) t
      go (m ∷ ms) cq t e =
          enqueue_flush-IsTimed (clear_timer (record cq { buffer = m ∷ ms })) t.counted e
