-- ===== src/Safety/Media/Flushes.antt =====
-- What waits in the buckets, and what a flush leaves.
use dingtalk_channel_sdk_go.Prelude.{
  if◌then◌else◌, Bool-cases, Option-cases, is_some, length, any, Text, ◌==◌, ==_iff, listed, Map,
  lookup, remove, lookup-remove, ◌<◌, ◌≡◌, refl, sym, ap, ◌∙◌, inl, inr, Bool, true, ◌&&◌, none,
  some, List, [], ◌∷◌, ◌++◌, arith,
}
use dingtalk_channel_sdk_go.Types.{IncomingMessage}
use dingtalk_channel_sdk_go.Safety.Media.{
  MediaBucket, MediaPipelineManager, flush_bucket, keys_where, flush_buckets, merge_batch_sources,
}

-- Every bucket has messages, fewer than the limit, and its timer is running.
abbrev pub IsTimed : MediaPipelineManager → Type 0
IsTimed m =
    (k : Text) (b : MediaBucket)
    → lookup k m.buckets ≡ some b
    → (0 < length b.sources) × (length b.sources < m.cfg.max_items) × (b.timed ≡ true)

abbrev pub IsFilled : MediaPipelineManager → Type 0
IsFilled m = (k : Text) (b : MediaBucket) → lookup k m.buckets ≡ some b → 0 < length b.sources

pub timed-IsFilled : (m : MediaPipelineManager) → IsTimed m → IsFilled m
timed-IsFilled m h k b e = (h k b e).0

-- the two cases of a flush
pub flush_bucket-none :
    (m : MediaPipelineManager) (key : Text) → lookup key m.buckets ≡ none → flush_bucket m key ≡ m
unfolding flush_bucket
flush_bucket-none m key e = rw (e, flush_bucket) refl

pub flush_bucket-some :
    (m : MediaPipelineManager) (key : Text) (s : IncomingMessage) (ss : List IncomingMessage)
    (timed : Bool)
    → lookup key m.buckets ≡ some (record { sources = s ∷ ss; timed = timed })
    → flush_bucket m key ≡ record m {
      buckets = remove key m.buckets;
      flushed = if m.has_handler then m.flushed ++ (merge_batch_sources s ss ∷ []) else m.flushed;
    }
unfolding flush_bucket
flush_bucket-some m key s ss timed e = rw (e, flush_bucket) refl

-- a flush takes the bucket of its key away
pub lookup-flush_bucket :
    (m : MediaPipelineManager) (key k : Text)
    → IsFilled m
    → lookup k (flush_bucket m key).buckets ≡ (if key == k then none else lookup k m.buckets)
lookup-flush_bucket m key k h = elim (Option-cases (lookup key m.buckets)) [
  | inl miss ↦
      rw (flush_bucket-none m key miss)
        (ground (arith, ap (λ t. lookup t m.buckets) {x = key} {y = k}, ==_iff key k))
  | inr (b, there) ↦ filled b.sources b.timed there (h key b there)
]
  where
    filled :
        (ss : List IncomingMessage) (t : Bool)
        → lookup key m.buckets ≡ some (record { sources = ss; timed = t })
        → 0 < length ss
        → lookup k (flush_bucket m key).buckets ≡ (if key == k then none else lookup k m.buckets)
    filled [] t there some_there = absurd (omega arith)
    filled (s ∷ ss) t there some_there =
        rw (flush_bucket-some m key s ss t there) (lookup-remove key k m.buckets)

pub cfg-flush_bucket : (m : MediaPipelineManager) (key : Text) → (flush_bucket m key).cfg ≡ m.cfg
unfolding flush_bucket
cfg-flush_bucket m key = ground arith

-- What a flush leaves was there before.
flush_bucket-sub :
    (m : MediaPipelineManager) (key k : Text) {b : MediaBucket}
    → IsFilled m
    → lookup k (flush_bucket m key).buckets ≡ some b
    → lookup k m.buckets ≡ some b
flush_bucket-sub m key k h e =
    let e' = sym (lookup-flush_bucket m key k h) ∙ e in
    elim (Bool-cases (key == k)) [
      | inl hit ↦ let gone : none ≡ some _ = rw hit at e' in absurd (cc)
      | inr other ↦ rw other at e'
    ]

pub flush_bucket-IsFilled :
    (m : MediaPipelineManager) (key : Text) → IsFilled m → IsFilled (flush_bucket m key)
flush_bucket-IsFilled m key h k b e = h k b (flush_bucket-sub m key k h e)

flush_bucket-IsTimed :
    (m : MediaPipelineManager) (key : Text) → IsTimed m → IsTimed (flush_bucket m key)
flush_bucket-IsTimed m key h k b e =
    rw (cfg-flush_bucket m key) (h k b (flush_bucket-sub m key k (timed-IsFilled m h) e))

pub lookup-flush_buckets :
    (ks : List Text) (m : MediaPipelineManager) (k : Text)
    → IsFilled m
    → lookup k (flush_buckets ks m).buckets ≡ (if listed k ks then none else lookup k m.buckets)
unfolding flush_buckets listed any
lookup-flush_buckets [] m k h = refl
lookup-flush_buckets (j ∷ ks) m k h =
    lookup-flush_buckets ks (flush_bucket m j) k (flush_bucket-IsFilled m j h)
    ∙ ground (arith, lookup-flush_bucket m j k h)

flush_buckets-IsTimed :
    (ks : List Text) (m : MediaPipelineManager) → IsTimed m → IsTimed (flush_buckets ks m)
unfolding flush_buckets
flush_buckets-IsTimed [] m h = h
flush_buckets-IsTimed (k ∷ ks) m h =
    flush_buckets-IsTimed ks (flush_bucket m k) (flush_bucket-IsTimed m k h)

pub listed-keys_where :
    (test : Text → Bool) (bs : Map MediaBucket) (k : Text)
    → listed k (keys_where test bs) ≡ (test k && is_some (lookup k bs))
unfolding keys_where listed any lookup
listed-keys_where test [] k = ground arith
listed-keys_where test ((j, b) ∷ bs) k =
    ground (arith, listed-keys_where test bs k, ==_iff j k, ap test {x = j} {y = k})
