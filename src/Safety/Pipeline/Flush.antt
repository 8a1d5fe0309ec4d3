-- ===== src/Safety/Pipeline/Flush.antt =====
-- What a flush of internal/safety/pipeline.go leaves in the lock and in the cache.
use dingtalk_channel_sdk_go.Prelude.{
  if◌then◌else◌, Bool-cases, length, All, any, Text, listed, listed_iff, ℕ, ◌+◌, ◌≤◌, ◌<◌, ◌≡◌,
  refl, ap, ◌∙◌, ◌≢◌, inl, inr, Bool, true, false, none, List, [], ◌∷◌, arith,
}
use mathlib.Core.List.{Mem}
use dingtalk_channel_sdk_go.Types.{IncomingMessage, DedupConfig, BatchedDispatch}
use dingtalk_channel_sdk_go.Safety.Seen
use dingtalk_channel_sdk_go.Safety.Seen.{SeenCache}
use dingtalk_channel_sdk_go.Safety.Seen.Invariant.{IsValid}
use dingtalk_channel_sdk_go.Safety.Seen.Views.{view}
use dingtalk_channel_sdk_go.Safety.Seen.Recency.{note_all, knows}
use dingtalk_channel_sdk_go.Safety.Seen.Runs.{Call, run}
use dingtalk_channel_sdk_go.Safety.Seen.Remembers.{keys_of, IsDuring, noted_run-knows}
use dingtalk_channel_sdk_go.Safety.Seen.Refinement.{Yields}
use dingtalk_channel_sdk_go.Safety.Seen.Checks.{add_keys-Yields}
use dingtalk_channel_sdk_go.Safety.Seen.Answers.{has-knows, any_of_listed}
use dingtalk_channel_sdk_go.Safety.Lock.{ProcessingLock, release}
use dingtalk_channel_sdk_go.Safety.Lock.Exclusion.{held, held-release}
use dingtalk_channel_sdk_go.Safety.Pipeline.{
  SafetyPipeline, release_all, mark_all, settle, batch_flush, message_flush, msg_ids, sources_or,
}

held-release_all :
    (ids : List Text) (pl : ProcessingLock) (t : ℕ) (id : Text)
    → held (release_all ids pl) t id ≡ (if listed id ids then false else held pl t id)
unfolding release_all listed any
held-release_all [] pl t id = refl
held-release_all (j ∷ ids) pl t id =
    held-release_all ids (release pl j) t id ∙ ground (arith, held-release pl t j id)

-- After `messageFlush`, with or without an error, no source of the merged message is locked, and
-- every other lock is as it was.
pub held-message_flush :
    (p : SafetyPipeline) (now t : ℕ) (ok : Bool) (merged : IncomingMessage)
    (given : List IncomingMessage) (id : Text)
    → held (message_flush p now ok merged given).lock t id
      ≡ (if listed id (msg_ids (sources_or merged given)) then false else held p.lock t id)
unfolding message_flush settle
held-message_flush p now t ok merged given id = elim (Bool-cases p.has_on_message) [
  | inl there ↦ rw there (held-release_all (msg_ids (sources_or merged given)) p.lock t id)
  | inr missing ↦ rw missing (held-release_all (msg_ids (sources_or merged given)) p.lock t id)
]

-- After `batchFlush`, with or without an error, no source id of the batch is locked, and every other
-- lock is as it was.
pub held-batch_flush :
    (p : SafetyPipeline) (now t : ℕ) (ok : Bool) (d : BatchedDispatch) (id : Text)
    → held (batch_flush p now ok d).lock t id
      ≡ (if listed id d.source_ids then false else held p.lock t id)
unfolding batch_flush settle
held-batch_flush p now t ok d id = elim (Bool-cases p.has_on_batch) [
  | inl there ↦ rw there (held-release_all d.source_ids p.lock t id)
  | inr missing ↦ rw missing (held-release_all d.source_ids p.lock t id)
]

mark_all-Yields :
    (now : ℕ) (ids : List Text) (sc : SeenCache)
    → IsValid sc
    → Yields sc
        (mark_all now ids sc)
        (note_all sc.cfg.max_entries (now + sc.cfg.ttl) ids (view sc.evict_list))
unfolding mark_all note_all Seen.add
mark_all-Yields now [] sc h = (h, refl, refl)
mark_all-Yields now (id ∷ ids) sc h =
    let sc' = Seen.add false sc now (id ∷ []) in
    let (valid, seen, same) = add_keys-Yields false sc (now + sc.cfg.ttl) (id ∷ []) h in
    let (valid', seen', same') = mark_all-Yields now ids sc' valid in
    let joined =
      seen'
      ∙ (ap {A = DedupConfig} (λ c. note_all c.max_entries (now + c.ttl) ids (view sc'.evict_list))
            same
          ∙ ap (note_all sc.cfg.max_entries (now + sc.cfg.ttl) ids) seen) in
    (valid', joined, same' ∙ same)

-- When marks wait for the handler, which is there, and the cache is valid: a failure leaves the cache
-- alone, so that the message may come again. After a success at `now`, and after any calls of the cache
-- that read the clock not before `now` and before the marks expire, whose keys and the sources are no
-- more than the cache may hold, every source id that is not empty is a duplicate until it expires.
pub message_flush_marks :
    (p : SafetyPipeline) (now : ℕ) (merged : IncomingMessage) (given : List IncomingMessage)
    (cs : List Call)
    → IsValid p.seen
    → p.mark_after_handler ≡ true
    → p.has_on_message ≡ true
    → length (msg_ids (sources_or merged given)) + keys_of cs ≤ p.seen.cfg.max_entries
    → All (IsDuring now (now + p.seen.cfg.ttl)) cs
    → ((message_flush p now false merged given).seen ≡ p.seen)
      × ((id : Text) (t : ℕ) (js : List Text)
          → id ≢ []
          → Mem id (msg_ids (sources_or merged given))
          → Mem id js
          → t < now + p.seen.cfg.ttl
          → (Seen.has none (run (message_flush p now true merged given).seen cs) t js).1 ≡ true)
unfolding message_flush settle
message_flush_marks p now merged given cs h after there fits during = (
  rw (there, after) refl,
  λ id t js ne marked asked soon.
      let ids = msg_ids (sources_or merged given) in
      let (valid, noted, same) = mark_all-Yields now ids p.seen h in
      let end = run (mark_all now ids p.seen) cs in
      let (valid', known) =
        noted_run-knows p.seen (mark_all now ids p.seen) (view p.seen.evict_list) now t ids id cs
          valid same noted fits during ne marked soon in
      rw (there, after)
        (has-knows end t js valid'
          ∙ any_of_listed (knows (view end.evict_list) t) id js ((listed_iff id js).1 asked) known),
)
