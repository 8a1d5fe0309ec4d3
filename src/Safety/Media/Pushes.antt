-- ===== src/Safety/Media/Pushes.antt =====
-- What a message that arrives does to the buckets.
use dingtalk_channel_sdk_go.Prelude.{
  leb, if◌then◌else◌, Bool-cases, some_inj, length, length-append, Text, ◌==◌, lookup, insert,
  lookup-insert, ◌<◌, ◌≡◌, refl, sym, ap, subst, ◌∙◌, inl, inr, true, not, none, some, [], ◌∷◌,
  ◌++◌, arith,
}
use dingtalk_channel_sdk_go.Types.{IncomingMessage, MediaBatchConfig}
use dingtalk_channel_sdk_go.Safety.Media.{
  MediaBucket, MediaPipelineManager, new_media_pipeline_manager, flush_bucket, sources_of, push,
  batch_key,
}
use dingtalk_channel_sdk_go.Safety.Media.Flushes.{
  IsTimed, IsFilled, lookup-flush_bucket, cfg-flush_bucket,
}

-- the bucket of a message that arrives, and the buckets before a flush
unfoldable bucket_with : (Text → Text) → MediaPipelineManager → IncomingMessage → MediaBucket
bucket_with digest m msg =
    let sources = sources_of (lookup (batch_key digest msg) m.buckets) ++ (msg ∷ []) in
    record { sources = sources; timed = not (leb m.cfg.max_items (length sources)) }

unfoldable stored : (Text → Text) → MediaPipelineManager → IncomingMessage → MediaPipelineManager
stored digest m msg = record m {
  has_handler = true;
  buckets = insert (batch_key digest msg) (bucket_with digest m msg) m.buckets;
}

lookup-stored :
    (digest : Text → Text) (m : MediaPipelineManager) (msg : IncomingMessage) (k : Text)
    → lookup k (stored digest m msg).buckets
      ≡ (if batch_key digest msg == k then some (bucket_with digest m msg) else lookup k m.buckets)
unfolding stored
lookup-stored digest m msg k =
    lookup-insert (batch_key digest msg) k (bucket_with digest m msg) m.buckets

length-bucket_with :
    (digest : Text → Text) (m : MediaPipelineManager) (msg : IncomingMessage)
    → 0 < length (bucket_with digest m msg).sources
unfolding bucket_with
length-bucket_with digest m msg =
    let e = length-append (sources_of (lookup (batch_key digest msg) m.buckets)) (msg ∷ []) in
    rw e (omega arith)

push_cases :
    (digest : Text → Text) (m : MediaPipelineManager) (msg : IncomingMessage)
    → push digest m msg ≡ (
        if leb m.cfg.max_items (length (bucket_with digest m msg).sources)
        then flush_bucket (stored digest m msg) (batch_key digest msg)
        else stored digest m msg)
unfolding push stored bucket_with
push_cases digest m msg = refl

stored-IsFilled :
    (digest : Text → Text) (m : MediaPipelineManager) (msg : IncomingMessage)
    → IsTimed m
    → IsFilled (stored digest m msg)
stored-IsFilled digest m msg h k b e =
    let e' = sym (lookup-stored digest m msg k) ∙ e in
    elim (Bool-cases (batch_key digest msg == k)) [
      | inl same ↦
          let found = some_inj (rw same at e') in
          subst (λ (x : MediaBucket). 0 < length x.sources) found (length-bucket_with digest m msg)
      | inr other ↦ (h k b (rw other at e')).0
    ]

cfg-stored :
    (digest : Text → Text) (m : MediaPipelineManager) (msg : IncomingMessage)
    → (stored digest m msg).cfg ≡ m.cfg
unfolding stored
cfg-stored digest m msg = refl

timed-bucket_with :
    (digest : Text → Text) (m : MediaPipelineManager) (msg : IncomingMessage)
    → (bucket_with digest m msg).timed
      ≡ not (leb m.cfg.max_items (length (bucket_with digest m msg).sources))
unfolding bucket_with
timed-bucket_with digest m msg = refl

cfg-push :
    (digest : Text → Text) (m : MediaPipelineManager) (msg : IncomingMessage)
    → (push digest m msg).cfg ≡ m.cfg
cfg-push digest m msg =
    elim (Bool-cases (leb m.cfg.max_items (length (bucket_with digest m msg).sources))) [
      | inl full ↦
          rw (push_cases, full)
            (cfg-flush_bucket (stored digest m msg) (batch_key digest msg)
              ∙ cfg-stored digest m msg)
      | inr room ↦ rw (push_cases, room) (cfg-stored digest m msg)
    ]

-- A message goes to the bucket of its key alone, which a full bucket leaves empty.
lookup-push :
    (digest : Text → Text) (m : MediaPipelineManager) (msg : IncomingMessage) (k : Text)
    → IsTimed m
    → lookup k (push digest m msg).buckets ≡ (
        if batch_key digest msg == k
        then (if leb m.cfg.max_items (length (bucket_with digest m msg).sources)
            then none
            else some (bucket_with digest m msg))
        else lookup k m.buckets)
lookup-push digest m msg k h =
    elim (Bool-cases (leb m.cfg.max_items (length (bucket_with digest m msg).sources))) [
      | inl full ↦
          let s = stored digest m msg in
          let key = batch_key digest msg in
          rw (push_cases, full)
            (lookup-flush_bucket s key k (stored-IsFilled digest m msg h)
              ∙ rw (lookup-stored digest m msg k)
                  (elim (Bool-cases (key == k)) [ inl e ↦ rw e refl | inr e ↦ rw e refl ]))
      | inr room ↦ rw (push_cases, room) (lookup-stored digest m msg k)
    ]

-- A message that arrives keeps every bucket below the limit, with its timer running, so that it is
-- flushed in time.
pub push-IsTimed :
    (digest : Text → Text) (m : MediaPipelineManager) (msg : IncomingMessage)
    → IsTimed m
    → IsTimed (push digest m msg)
push-IsTimed digest m msg h k b e =
    let n = length (bucket_with digest m msg).sources in
    let e' = sym (lookup-push digest m msg k h) ∙ e in
    rw (cfg-push digest m msg) (elim (Bool-cases (batch_key digest msg == k)) [
      | inr other ↦ h k b (rw other at e')
      | inl same ↦ elim (Bool-cases (leb m.cfg.max_items n)) [
        | inl full ↦ let gone : none ≡ some b = rw (same, full) at e' in absurd (cc)
        | inr room ↦
            let found : bucket_with digest m msg ≡ b = some_inj (rw (same, room) at e') in
            subst {A = MediaBucket}
              (λ x.
                (0 < length x.sources) × (length x.sources < m.cfg.max_items) × (x.timed ≡ true))
              found
              (
                length-bucket_with digest m msg,
                ground (arith, room),
                timed-bucket_with digest m msg ∙ ap not room,
              )
      ]
    ])

pub new-IsTimed : (cfg : MediaBatchConfig) → IsTimed (new_media_pipeline_manager cfg)
unfolding new_media_pipeline_manager lookup
new-IsTimed cfg k b e = let gone : none ≡ some b = e in absurd (cc)
