-- ===== src/Safety/Pipeline/Push/Direct.antt =====
-- The direct path of `PushMessage`: without a queue, and for a message that is no media to merge.
use dingtalk_channel_sdk_go.Prelude.{
  if◌then◌else◌, Bool-cases, Text, ℕ, ◌≡◌, refl, ap, subst, ◌∙◌, inl, inr, Bool, true, false, none,
  some, [], ◌∷◌, ◌++◌,
}
use dingtalk_channel_sdk_go.Types.{IncomingMessage, RejectReason}
use dingtalk_channel_sdk_go.Safety.Lock.Exclusion.{held}
use dingtalk_channel_sdk_go.Safety.Media
use dingtalk_channel_sdk_go.Safety.Media.{MediaPipelineManager}
use dingtalk_channel_sdk_go.Safety.Pipeline.{SafetyPipeline, batch_mode}
use dingtalk_channel_sdk_go.Safety.Pipeline.Push.{
  Clock, admit, enabled_queue, dispatch_direct, dispatch, push_message,
}
use dingtalk_channel_sdk_go.Safety.Pipeline.Push.Admission.{Settled, event_of, admit-Settled}
use dingtalk_channel_sdk_go.Safety.Pipeline.Push.Kept.{Kept, Kept-admit}
use dingtalk_channel_sdk_go.Safety.Pipeline.Push.Handed.{
  handed, with_one, Handed, dispatch_direct_lem,
}

-- what is handed over, from a pipeline whose components alone have changed
Handed-Kept :
    (p : SafetyPipeline) (msg : IncomingMessage) (t : ℕ) (q p' : SafetyPipeline)
    → Kept p q
    → Handed q msg t p'
    → (handed p' ≡ with_one p msg) × (p'.rejects ≡ q.rejects) × (held p'.lock t msg.msg_id ≡ false)
unfolding batch_mode
Handed-Kept p msg t q p' kept (called, silent, free) =
    (called ∙ ap {A = SafetyPipeline} (λ z. with_one z msg) kept, silent, free)

dispatch_alone :
    (digest : Text → Text) (p : SafetyPipeline) (now : ℕ) (ok : Bool) (msg : IncomingMessage)
    → enabled_queue p ≡ none
    → dispatch digest p now ok msg ≡ some (dispatch_direct digest p now ok msg)
unfolding dispatch
dispatch_alone digest p now ok msg e = rw (e, dispatch) refl

same_queue : (p q : SafetyPipeline) → Kept p q → enabled_queue q ≡ enabled_queue p
unfolding enabled_queue
same_queue p q kept = ap {A = SafetyPipeline} enabled_queue kept

same_media :
    (p q : SafetyPipeline) (msg : IncomingMessage)
    → Kept p q
    → Media.is_compatible q.media msg ≡ Media.is_compatible p.media msg
same_media p q msg kept = ap {A = SafetyPipeline} (λ z. Media.is_compatible z.media msg) kept

on_silent :
    (p q : SafetyPipeline) (now : ℕ) (msg : IncomingMessage)
    → Settled p now msg (q, true)
    → q.rejects ≡ p.rejects
on_silent p q now msg h = h.0

-- A message on the direct path, with callbacks for messages and for rejections, without an enabled
-- queue, and no media message to merge: the push always ends; a message that goes on is handed over once,
-- is not reported and is not locked afterwards, whether or not the handler failed; any other is
-- handed over to nobody and reported once, with a reason.
pub push_message_lem :
    (digest : Text → Text) (p : SafetyPipeline) (c : Clock) (t : ℕ) (proto_id : Text)
    (msg : IncomingMessage) (ok : Bool)
    → p.has_on_message ≡ true
    → p.has_on_reject ≡ true
    → enabled_queue p ≡ none
    → Media.is_compatible p.media msg ≡ false
    → (p' : SafetyPipeline) × (push_message digest p c proto_id msg ok ≡ some p')
      × ((admit digest p c proto_id msg).1 ≡ true → Handed p msg t p')
      × ((admit digest p c proto_id msg).1 ≡ false
          → (handed p' ≡ handed p)
            × ((r : RejectReason) × (p'.rejects ≡ p.rejects ++ (event_of msg r ∷ []))))
push_message_lem digest p c t proto_id msg ok there watched alone plain =
    let (q, on) = admit digest p c proto_id msg in
    let kept = Kept-admit digest p c proto_id msg in
    let settled = (admit-Settled digest p c proto_id msg).0 in
    let queue = same_queue p q kept ∙ alone in
    elim (Bool-cases on) [
      | inl goes ↦
          let told =
            dispatch_direct_lem digest q c.done_at t ok msg
              (ap {A = SafetyPipeline} (λ z. z.has_on_message) kept ∙ there)
              (same_media p q msg kept ∙ plain) in
          let (called, silent, free) =
            Handed-Kept p msg t q (dispatch_direct digest q c.done_at ok msg) kept told in
          (
            dispatch_direct digest q c.done_at ok msg,
            unfold push_message in rw goes (dispatch_alone digest q c.done_at ok msg queue),
            λ _. (
              called,
              silent
                  ∙ (on_silent p q c.lock_at msg
                      (subst (λ b. Settled p c.lock_at msg (q, b)) goes settled)),
              free,
            ),
            λ off. absurd (cc),
          )
      | inr stays ↦
          let (_, (r, told)) = subst (λ b. Settled p c.lock_at msg (q, b)) stays settled in
          (
            q,
            unfold push_message in rw stays refl,
            λ on. absurd (cc),
            λ _. (
              ap {A = SafetyPipeline} handed kept,
              (
                r,
                told
                    ∙ ap (λ b. if b then p.rejects ++ (event_of msg r ∷ []) else p.rejects) watched,
              ),
            ),
          )
    ]
