-- ===== src/Safety/Pipeline/Push/Handed.antt =====
-- What the direct dispatch of `PushMessage` hands to the user.
use dingtalk_channel_sdk_go.Prelude.{
  if◌then◌else◌, Bool-cases, any, Text, ==_refl, listed, ℕ, ◌≡◌, refl, ◌∙◌, inl, inr, Bool, true,
  false, List, [], ◌∷◌, ◌++◌, arith,
}
use dingtalk_channel_sdk_go.Types.{IncomingMessage, BatchedDispatch}
use dingtalk_channel_sdk_go.Safety.Lock.Exclusion.{held}
use dingtalk_channel_sdk_go.Safety.Media
use dingtalk_channel_sdk_go.Safety.Media.{MediaPipelineManager}
use dingtalk_channel_sdk_go.Safety.Pipeline.{
  SafetyPipeline, batch_mode, batch_flush, message_flush, settle, msg_ids, sources_or,
}
use dingtalk_channel_sdk_go.Safety.Pipeline.Flush.{held-message_flush, held-batch_flush}
use dingtalk_channel_sdk_go.Safety.Pipeline.Push.{dispatch_direct}
use dingtalk_channel_sdk_go.Safety.Pipeline.Push.Kept.{if_either}

-- what has been handed to the user's code, a batch in batch mode and else a message
abbrev pub handed :
    SafetyPipeline → List BatchedDispatch × List (IncomingMessage × List IncomingMessage)
handed p = (p.batches, p.messages)

-- one more message handed over
abbrev pub with_one :
    SafetyPipeline
    → IncomingMessage
    → List BatchedDispatch × List (IncomingMessage × List IncomingMessage)
with_one p msg =
    if batch_mode p
    then (p.batches ++ (record { message = msg; source_ids = msg.msg_id ∷ [] } ∷ []), p.messages)
    else (p.batches, p.messages ++ ((msg, msg ∷ []) ∷ []))

-- One more message is handed over, nothing is reported, and the message is not locked.
abbrev pub Handed : SafetyPipeline → IncomingMessage → ℕ → SafetyPipeline → Type 0
Handed p msg t p' =
    (handed p' ≡ with_one p msg) × (p'.rejects ≡ p.rejects) × (held p'.lock t msg.msg_id ≡ false)

has_on_batch-batch_mode : (p : SafetyPipeline) → batch_mode p ≡ true → p.has_on_batch ≡ true
unfolding batch_mode
has_on_batch-batch_mode p h = ground arith

listed_one : (id : Text) → listed id (id ∷ []) ≡ true
unfolding listed any
listed_one id = rw (==_refl id) refl

batch_flush-Handed :
    (p : SafetyPipeline) (now t : ℕ) (ok : Bool) (msg : IncomingMessage)
    → batch_mode p ≡ true
    → let p' = batch_flush p now ok (record { message = msg; source_ids = msg.msg_id ∷ [] }) in
      Handed p msg t p'
batch_flush-Handed p now t ok msg batch =
    let d : BatchedDispatch = record { message = msg; source_ids = msg.msg_id ∷ [] } in
    let there = has_on_batch-batch_mode p batch in
    (
      rw batch (unfold batch_flush settle in rw there refl),
      unfold batch_flush settle in rw there refl,
      held-batch_flush p now t ok d msg.msg_id ∙ rw (listed_one msg.msg_id) refl,
    )

message_flush-Handed :
    (p : SafetyPipeline) (now t : ℕ) (ok : Bool) (msg : IncomingMessage)
    → batch_mode p ≡ false
    → p.has_on_message ≡ true
    → let p' = message_flush p now ok msg (msg ∷ []) in Handed p msg t p'
message_flush-Handed p now t ok msg single there = (
  rw single (unfold message_flush settle sources_or in rw there refl),
  unfold message_flush settle in rw there refl,
  held-message_flush p now t ok msg (msg ∷ []) msg.msg_id
      ∙ (unfold msg_ids sources_or in rw (listed_one msg.msg_id) refl),
)

abbrev call_user : SafetyPipeline → ℕ → Bool → IncomingMessage → SafetyPipeline
call_user p now ok msg =
    if batch_mode p
    then batch_flush p now ok (record { message = msg; source_ids = msg.msg_id ∷ [] })
    else message_flush p now ok msg (msg ∷ [])

called_lem :
    (p : SafetyPipeline) (now t : ℕ) (ok : Bool) (msg : IncomingMessage)
    → p.has_on_message ≡ true
    → Handed p msg t (call_user p now ok msg)
called_lem p now t ok msg there = elim (Bool-cases (batch_mode p)) [
  | inl batch ↦ let h = batch_flush-Handed p now t ok msg batch in rw batch (rw batch at h)
  | inr single ↦
      let h = message_flush-Handed p now t ok msg single there in rw single (rw single at h)
]

other_media :
    (p : SafetyPipeline) (msg : IncomingMessage) (t : ℕ) (media : MediaPipelineManager)
    (p' : SafetyPipeline)
    → Handed (record p { media = media }) msg t p'
    → Handed p msg t p'
unfolding batch_mode
other_media p msg t media p' h = h

pub dispatch_direct_lem :
    (digest : Text → Text) (p : SafetyPipeline) (now t : ℕ) (ok : Bool) (msg : IncomingMessage)
    → p.has_on_message ≡ true
    → Media.is_compatible p.media msg ≡ false
    → let p' = dispatch_direct digest p now ok msg in Handed p msg t p'
unfolding dispatch_direct
dispatch_direct_lem digest p now t ok msg there plain =
    let flushed = Media.flush_incompatible_for p.media msg in
    let called = λ (q : SafetyPipeline). Handed p msg t (call_user q now ok msg) in
    rw plain (
      if_either called p.media.cfg.enabled
        (other_media p msg t flushed (call_user (record p { media = flushed }) now ok msg)
          (called_lem (record p { media = flushed }) now t ok msg there))
        (called_lem p now t ok msg there))
