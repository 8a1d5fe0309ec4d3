-- ===== src/Safety/Media/Handed.antt =====
-- What a flush of the buckets of a conversation hands over, and what it leaves.
use dingtalk_channel_sdk_go.Prelude.{
  if◌then◌else◌, Bool-cases, Option-cases, some_inj, length, any, Text, ◌==◌, eq_of_==, listed,
  lookup, ◌<◌, ◌≡◌, refl, sym, ap, subst, ◌∙◌, inl, inr, Bool, true, none, some, List, [], ◌∷◌,
  ◌++◌, arith,
}
use mathlib.Core.List.{Mem, mem-cons_self, mem-cons_of_mem, append-nil, append_assoc}
use dingtalk_channel_sdk_go.Types.{IncomingMessage, Merged}
use dingtalk_channel_sdk_go.Safety.Media.{
  MediaBucket, MediaPipelineManager, flush_bucket, keys_where, flush_buckets, is_chat_key,
  flush_incompatible_for, merge_batch_sources,
}
use dingtalk_channel_sdk_go.Safety.Media.Flushes.{
  IsTimed, IsFilled, timed-IsFilled, flush_bucket-none, flush_bucket-some, flush_bucket-IsFilled,
  lookup-flush_bucket, lookup-flush_buckets, listed-keys_where,
}

abbrev bucket : IncomingMessage → List IncomingMessage → Bool → MediaBucket
bucket s ss timed = record { sources = s ∷ ss; timed = timed }

abbrev HasMerged : List Merged → List IncomingMessage → Type 0
HasMerged more [] = Unit
HasMerged more (s ∷ ss) = Mem (merge_batch_sources s ss) more

-- What the buckets of these keys hold has been given to the handler, merged, after all that it got
-- before.
abbrev pub Hands : (Text → Bool) → MediaPipelineManager → MediaPipelineManager → Type 0
Hands test m m' =
    (more : List Merged) × (m'.flushed ≡ m.flushed ++ more)
    × ((k : Text) (s : IncomingMessage) (ss : List IncomingMessage) (timed : Bool)
        → test k ≡ true
        → lookup k m.buckets ≡ some (record { sources = s ∷ ss; timed = timed })
        → Mem (merge_batch_sources s ss) more)

missing-Hands :
    (j : Text) (ks : List Text) (m : MediaPipelineManager)
    → lookup j m.buckets ≡ none
    → Hands (λ k. listed k ks) m (flush_buckets ks m)
    → Hands (λ k. listed k (j ∷ ks)) m (flush_buckets ks m)
unfolding listed any
missing-Hands j ks m miss (more, e, hands) = (
  more,
  e,
  λ k s ss t asked there. elim (Bool-cases (j == k)) [
    | inl same ↦
        let gone : lookup k m.buckets ≡ none =
          subst (λ i. lookup i m.buckets ≡ none) (eq_of_== j k same) miss in
        let no_way = sym gone ∙ there in absurd (cc)
    | inr other ↦ hands k s ss t (rw other at asked) there
  ],
)

filled-Hands :
    (j : Text) (ks : List Text) (m : MediaPipelineManager) (b : MediaBucket)
    → IsFilled m
    → lookup j m.buckets ≡ some b
    → m.has_handler ≡ true
    → ((m' : MediaPipelineManager)
        → IsFilled m'
        → m'.has_handler ≡ true
        → Hands (λ k. listed k ks) m' (flush_buckets ks m'))
    → Hands (λ k. listed k (j ∷ ks)) m (flush_buckets ks (flush_bucket m j))
unfolding listed any
filled-Hands j ks m b h met on rest = go b.sources b.timed met (h j b met)
  where
    go :
        (xs : List IncomingMessage) (t : Bool)
        → lookup j m.buckets ≡ some (record { sources = xs; timed = t })
        → 0 < length xs
        → Hands (λ k. listed k (j ∷ ks)) m (flush_buckets ks (flush_bucket m j))
    go [] t there some_there = absurd (omega arith)
    go (s ∷ ss) t there some_there =
        let first = merge_batch_sources s ss in
        let e = flush_bucket-some m j s ss t there in
        let after : (flush_bucket m j).flushed ≡ m.flushed ++ (first ∷ []) =
          ap {A = MediaPipelineManager} (λ x. x.flushed) e ∙ rw on refl in
        let on' : (flush_bucket m j).has_handler ≡ true =
          ap {A = MediaPipelineManager} (λ x. x.has_handler) e ∙ on in
        let (more, grown, hands) = rest (flush_bucket m j) (flush_bucket-IsFilled m j h) on' in
        (
          first ∷ more,
          grown ∙ (ap (λ l. l ++ more) after ∙ append_assoc m.flushed (first ∷ []) more),
          λ k s' ss' t' asked here. elim (Bool-cases (j == k)) [
            | inl same ↦
                let here' : lookup j m.buckets ≡ some (bucket s' ss' t') =
                  subst (λ i. lookup i m.buckets ≡ some (bucket s' ss' t'))
                    (sym (eq_of_== j k same)) here in
                let both : bucket s ss t ≡ bucket s' ss' t' = some_inj (sym there ∙ here') in
                let head : Mem first (first ∷ more) = mem-cons_self in
                subst {A = MediaBucket} (λ x. HasMerged (first ∷ more) x.sources) both head
            | inr other ↦ mem-cons_of_mem first (
                hands k s' ss' t' (rw other at asked) (lookup-flush_bucket m j k h ∙ rw other here))
          ],
        )

flush_buckets-Hands :
    (ks : List Text) (m : MediaPipelineManager)
    → IsFilled m
    → m.has_handler ≡ true
    → Hands (λ k. listed k ks) m (flush_buckets ks m)
unfolding flush_buckets
flush_buckets-Hands [] m h on =
    ([], sym (append-nil m.flushed), λ k s ss t asked there. unfold listed any in absurd (cc))
flush_buckets-Hands (j ∷ ks) m h on = elim (Option-cases (lookup j m.buckets)) [
  | inl miss ↦
      subst {A = MediaPipelineManager} (λ x. Hands (λ k. listed k (j ∷ ks)) m (flush_buckets ks x))
        (sym (flush_bucket-none m j miss))
        (missing-Hands j ks m miss (flush_buckets-Hands ks m h on))
  | inr (b, there) ↦ filled-Hands j ks m b h there on (λ m'. flush_buckets-Hands ks m')
]

-- When another kind of message of a conversation arrives, and there is a handler: the messages in each
-- bucket of that conversation are given to the handler, merged, after all that it got before; these
-- buckets are gone then, and every other bucket stays as it was.
pub flush_incompatible_for-Hands :
    (m : MediaPipelineManager) (msg : IncomingMessage)
    → IsTimed m
    → m.has_handler ≡ true
    → Hands (λ k. is_chat_key k msg.conversation_id) m (flush_incompatible_for m msg)
      × ((k : Text)
          → lookup k (flush_incompatible_for m msg).buckets
            ≡ (if is_chat_key k msg.conversation_id then none else lookup k m.buckets))
unfolding flush_incompatible_for
flush_incompatible_for-Hands m msg h on =
    let test = λ (j : Text). is_chat_key j msg.conversation_id in
    let ks = keys_where test m.buckets in
    let filled = timed-IsFilled m h in
    let (more, grown, hands) = flush_buckets-Hands ks m filled on in
    (
      (
        more,
        grown,
        λ k s ss t asked there.
            hands k s ss t (listed-keys_where test m.buckets k ∙ rw (asked, there) refl) there,
      ),
      λ k. lookup-flush_buckets ks m k filled ∙ ground (arith, listed-keys_where test m.buckets k),
    )
