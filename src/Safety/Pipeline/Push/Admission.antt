-- ===== src/Safety/Pipeline/Push/Admission.antt =====
-- What the first five steps of `PushMessage` report and what they lock.
use dingtalk_channel_sdk_go.Prelude.{
  ltb, if◌then◌else◌, Bool-cases, Option-cases, is_some, Text, ==_refl, ℕ, ◌+◌, ◌≡◌, refl, sym, ap,
  subst, ◌∙◌, inl, inr, Bool, true, false, not, some, List, [], ◌∷◌, ◌++◌, arith,
}
use dingtalk_channel_sdk_go.Types
use dingtalk_channel_sdk_go.Types.{IncomingMessage, RejectReason, RejectEvent}
use dingtalk_channel_sdk_go.Safety.Stale
use dingtalk_channel_sdk_go.Safety.Seen.{SeenCache}
use dingtalk_channel_sdk_go.Safety.Lock
use dingtalk_channel_sdk_go.Safety.Lock.Exclusion.{held, acquire_lem}
use dingtalk_channel_sdk_go.Safety.Policy
use dingtalk_channel_sdk_go.Safety.Policy.Reasons.{evaluate-IsExplained}
use dingtalk_channel_sdk_go.Safety.Pipeline.{SafetyPipeline, emit_reject}
use dingtalk_channel_sdk_go.Safety.Pipeline.Push.{
  Clock, admit, admit_checked, check_duplicate, dedup_keys, is_self_sent,
}

abbrev pub event_of : IncomingMessage → RejectReason → RejectEvent
event_of msg r = record {
  message_id = msg.msg_id;
  chat_id = msg.conversation_id;
  sender_id = msg.sender_id;
  reason = some r;
}

-- What an answer promises. A message that goes on is not reported, is allowed by the policy, is not
-- the robot's own, was not locked, and is locked before the end of the term; one that does not is
-- reported once, with a reason, if there is a callback, and the locks are as they were.
abbrev pub Settled : SafetyPipeline → ℕ → IncomingMessage → SafetyPipeline × Bool → Type 0
Settled p now msg (p', true) =
    (p'.rejects ≡ p.rejects)
    × ((Policy.evaluate p.policy msg).allowed ≡ true)
    × (is_self_sent p msg ≡ false)
    × (held p.lock now msg.msg_id ≡ false)
    × ((t : ℕ)
        → held p'.lock t msg.msg_id ≡ ltb (Lock.unix_milli t) (Lock.unix_milli now + p.lock.ttl_ms))
Settled p now msg (p', false) =
    (p'.lock ≡ p.lock)
    × ((r : RejectReason) × (p'.rejects
          ≡ (if p.has_on_reject then p.rejects ++ (event_of msg r ∷ []) else p.rejects)))

reported :
    (p : SafetyPipeline) (msg : IncomingMessage) (r : RejectReason) (now : ℕ)
    → Settled p now msg (emit_reject p msg (some r), false)
unfolding emit_reject
reported p msg r now = elim (Bool-cases p.has_on_reject) [
  | inl there ↦ rw there (refl, (r, refl))
  | inr missing ↦ rw missing (refl, (r, refl))
]

refused_by_policy :
    (p : SafetyPipeline) (msg : IncomingMessage) (now : ℕ)
    → (Policy.evaluate p.policy msg).allowed ≡ false
    → Settled p now msg (emit_reject p msg (Policy.evaluate p.policy msg).reason, false)
refused_by_policy p msg now no_entry =
    let explained = evaluate-IsExplained p.policy msg ∙ ap not no_entry in
    elim (Option-cases (Policy.evaluate p.policy msg).reason) [
      | inl silent ↦ let no_way : false ≡ true = sym (ap is_some silent) ∙ explained in absurd (cc)
      | inr (r, said) ↦
          subst (λ o. Settled p now msg (emit_reject p msg o, false)) (sym said)
            (reported p msg r now)
    ]

acquired :
    (p : SafetyPipeline) (msg : IncomingMessage) (now : ℕ)
    → (Policy.evaluate p.policy msg).allowed ≡ true
    → is_self_sent p msg ≡ false
    → (Lock.acquire p.lock now msg.msg_id).1 ≡ true
    → Settled p now msg (record p { lock = (Lock.acquire p.lock now msg.msg_id).0 }, true)
acquired p msg now entry foreign free =
    let (answer, _, takes) = acquire_lem p.lock now msg.msg_id in
    let was_free = sym answer ∙ free in
    (
      refl,
      entry,
      foreign,
      ground (arith, was_free),
      λ t. takes free t msg.msg_id ∙ rw (==_refl msg.msg_id) refl,
    )

refused_by_lock :
    (p : SafetyPipeline) (msg : IncomingMessage) (now : ℕ)
    → (Lock.acquire p.lock now msg.msg_id).1 ≡ false
    → Settled p now msg (
      emit_reject
          (record p { lock = (Lock.acquire p.lock now msg.msg_id).0 })
          msg
          (some Types.lock_contention),
      false,
    )
refused_by_lock p msg now taken =
    let (_, same, _) = acquire_lem p.lock now msg.msg_id in
    subst {A = Lock.ProcessingLock}
      (λ l.
        Settled p now msg
          (emit_reject (record p { lock = l }) msg (some Types.lock_contention), false))
      (sym (same taken)) (reported p msg Types.lock_contention now)

admit_checked-Settled :
    (p : SafetyPipeline) (now : ℕ) (msg : IncomingMessage)
    → Settled p now msg (admit_checked p now msg)
admit_checked-Settled p now msg = elim (Bool-cases (is_self_sent p msg)) [
  | inl own ↦ unfold admit_checked in rw own (reported p msg Types.self_sent now)
  | inr foreign ↦ elim (Bool-cases (Policy.evaluate p.policy msg).allowed) [
    | inr no_entry ↦
        unfold admit_checked in rw (foreign, no_entry) (refused_by_policy p msg now no_entry)
    | inl entry ↦ elim (Bool-cases (Lock.acquire p.lock now msg.msg_id).1) [
      | inl free ↦
          unfold admit_checked in rw (foreign, entry, free) (acquired p msg now entry foreign free)
      | inr taken ↦
          unfold admit_checked in rw (foreign, entry, taken) (refused_by_lock p msg now taken)
    ]
  ]
]

only_seen :
    (p : SafetyPipeline) (c : Clock) (keys : List Text)
    → (check_duplicate p c keys).0 ≡ record p { seen = (check_duplicate p c keys).0.seen }
unfolding check_duplicate
only_seen p c keys = refl

whatever_seen :
    (p : SafetyPipeline) (seen : SeenCache) (now : ℕ) (msg : IncomingMessage)
    (x : SafetyPipeline × Bool)
    → Settled (record p { seen = seen }) now msg x
    → Settled p now msg x
unfolding is_self_sent
whatever_seen p seen now msg (p', true) h = h
whatever_seen p seen now msg (p', false) h = h

-- an answer about the pipeline after the check, which changes nothing but the cache
after_check :
    (p : SafetyPipeline) (c : Clock) (keys : List Text) (msg : IncomingMessage)
    (answer : SafetyPipeline → SafetyPipeline × Bool)
    → ((q : SafetyPipeline) → Settled q c.lock_at msg (answer q))
    → Settled p c.lock_at msg (answer (check_duplicate p c keys).0)
after_check p c keys msg answer h =
    let seen = (check_duplicate p c keys).0.seen in
    let q = record p { seen = seen } in
    subst {A = SafetyPipeline} (λ q. Settled p c.lock_at msg (answer q)) (sym (only_seen p c keys))
      (whatever_seen p seen c.lock_at msg (answer q) (h q))

-- A message that goes on was not stale and no duplicate, is not reported, is allowed by the policy, is
-- not the robot's own and was not locked; its id is locked from then on at exactly the instants that
-- lie, in milliseconds, before the instant of the lock plus the lock term, so at none if the term is 0.
-- Any other message leaves the locks as they were, and is reported exactly once, with its ids and a
-- reason, if there is a callback for rejections; without one nothing is reported.
pub admit-Settled :
    (digest : Text → Text) (p : SafetyPipeline) (c : Clock) (proto_id : Text)
    (msg : IncomingMessage)
    → Settled p c.lock_at msg (admit digest p c proto_id msg)
      × ((admit digest p c proto_id msg).1 ≡ true
          → (Stale.is_stale p.stale c.stale_at msg.create_at ≡ false)
            × ((check_duplicate p c (dedup_keys digest proto_id msg)).1 ≡ false))
admit-Settled digest p c proto_id msg =
    let checked = check_duplicate p c (dedup_keys digest proto_id msg) in
    elim (Bool-cases (Stale.is_stale p.stale c.stale_at msg.create_at)) [
      | inl old ↦ unfold admit in rw old (reported p msg Types.stale c.lock_at, λ on. absurd (cc))
      | inr recent ↦ elim (Bool-cases checked.1) [
        | inl dup ↦
            unfold admit in
            rw (recent, dup)
              (
                after_check p c _ msg (λ q. (emit_reject q msg (some Types.duplicate), false))
                    (λ q. reported q msg Types.duplicate c.lock_at),
                λ on. absurd (cc),
              )
        | inr new ↦
            unfold admit in
            rw (recent, new)
              (
                after_check p c _ msg (λ q. admit_checked q c.lock_at msg)
                    (λ q. admit_checked-Settled q c.lock_at msg),
                λ on. (refl, refl),
              )
      ]
    ]
