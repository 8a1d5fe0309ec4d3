-- ===== src/Safety/Pipeline/Push/Kept.antt =====
-- What the first five steps of `PushMessage` leave alone.
use dingtalk_channel_sdk_go.Prelude.{
  if◌then◌else◌, Text, ℕ, ◌≡◌, refl, ap, Bool, true, false, not, Option, some, List, [], ◌∷◌, ◌++◌,
}
use dingtalk_channel_sdk_go.Types.{IncomingMessage, BatchedDispatch, RejectReason}
use dingtalk_channel_sdk_go.Types
use dingtalk_channel_sdk_go.Safety.Stale
use dingtalk_channel_sdk_go.Safety.Policy
use dingtalk_channel_sdk_go.Safety.Lock
use dingtalk_channel_sdk_go.Safety.Pipeline.{SafetyPipeline, emit_reject}
use dingtalk_channel_sdk_go.Safety.Pipeline.Push.{
  Clock, is_self_sent, check_duplicate, dedup_keys, admit_checked, admit,
}

pub if_either :
    {A : Type 0} (good : A → Type 0) (b : Bool) {x y : A}
    → good x
    → good y
    → good (if b then x else y)
if_either good true h k = h
if_either good false h k = k

-- what a check of the first five steps may change
abbrev pub Kept : SafetyPipeline → SafetyPipeline → Type 0
Kept p q = q ≡ record p { seen = q.seen; lock = q.lock; rejects = q.rejects }

Kept-refl : (p : SafetyPipeline) → Kept p p
Kept-refl p = refl

Kept-emit_reject :
    (p q : SafetyPipeline) (msg : IncomingMessage) (r : Option RejectReason)
    → Kept p q
    → Kept p (emit_reject q msg r)
unfolding emit_reject
Kept-emit_reject p q msg r h = if_either (Kept p) (not q.has_on_reject) h (
    ap {A = SafetyPipeline}
      (λ z. record z {
        rejects =
            q.rejects
            ++ (record {
              message_id = msg.msg_id;
              chat_id = msg.conversation_id;
              sender_id = msg.sender_id;
              reason = r;
            }
                ∷ []);
      })
      h)

Kept-admit_checked :
    (p q : SafetyPipeline) (now : ℕ) (msg : IncomingMessage)
    → Kept p q
    → Kept p (admit_checked q now msg).0
unfolding admit_checked
Kept-admit_checked p q now msg h =
    let lock = (Lock.acquire q.lock now msg.msg_id).0 in
    let taken : Kept p (record q { lock = lock }) =
      ap {A = SafetyPipeline} (λ z. record z { lock = lock }) h in
    let good = λ (x : SafetyPipeline × Bool). Kept p x.0 in
    if_either good (is_self_sent q msg) (Kept-emit_reject p q msg (some Types.self_sent) h) (
      if_either good (not (Policy.evaluate q.policy msg).allowed)
        (Kept-emit_reject p q msg (Policy.evaluate q.policy msg).reason h)
        (if_either good (Lock.acquire q.lock now msg.msg_id).1 taken
          (Kept-emit_reject p (record q { lock = lock }) msg (some Types.lock_contention) taken)))

Kept-check_duplicate :
    (p : SafetyPipeline) (c : Clock) (keys : List Text) → Kept p (check_duplicate p c keys).0
unfolding check_duplicate
Kept-check_duplicate p c keys = refl

pub Kept-admit :
    (digest : Text → Text) (p : SafetyPipeline) (c : Clock) (proto_id : Text)
    (msg : IncomingMessage)
    → Kept p (admit digest p c proto_id msg).0
unfolding admit
Kept-admit digest p c proto_id msg =
    let (q, dup) = check_duplicate p c (dedup_keys digest proto_id msg) in
    let h = Kept-check_duplicate p c (dedup_keys digest proto_id msg) in
    let good = λ (x : SafetyPipeline × Bool). Kept p x.0 in
    if_either good (Stale.is_stale p.stale c.stale_at msg.create_at)
      (Kept-emit_reject p p msg (some Types.stale) (Kept-refl p))
      (if_either good dup (Kept-emit_reject p q msg (some Types.duplicate) h)
        (Kept-admit_checked p q c.lock_at msg h))
