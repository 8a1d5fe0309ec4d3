-- ===== src/Safety/Pipeline/Push/Once.antt =====
-- A message goes on once, whatever id the gateway delivers it under.
use dingtalk_channel_sdk_go.Prelude.{
  ltb, Bool-cases, length, All, Text, is_empty, ℤ, pos, negsuc, ℕ, ◌+◌, ◌≤◌, ◌<◌, ◌≡◌, refl, sym,
  ap, subst, ◌∙◌, ◌≢◌, ◌⊎◌, inl, inr, true, false, not, ◌&&◌, Option, none, some, List, [], ◌∷◌,
  arith,
}
use mathlib.Core.List.{Mem, mem-cons_self, mem-cons_of_mem}
use dingtalk_channel_sdk_go.Types
use dingtalk_channel_sdk_go.Types.{IncomingMessage, RejectReason}
use dingtalk_channel_sdk_go.Safety.Stale
use dingtalk_channel_sdk_go.Safety.Seen
use dingtalk_channel_sdk_go.Safety.Seen.{SeenCache}
use dingtalk_channel_sdk_go.Safety.Seen.Invariant.{IsValid}
use dingtalk_channel_sdk_go.Safety.Seen.Runs.{Call, run}
use dingtalk_channel_sdk_go.Safety.Seen.Remembers.{keys_of, IsDuring, check_and_mark_remembers}
use dingtalk_channel_sdk_go.Safety.Pipeline.{SafetyPipeline, emit_reject}
use dingtalk_channel_sdk_go.Safety.Pipeline.Push.{
  Clock, admit, admit_checked, check_duplicate, dedup_keys, content_fingerprint,
}
use dingtalk_channel_sdk_go.Safety.Pipeline.Push.Admission.{admit-Settled}

seen-emit_reject :
    (p : SafetyPipeline) (msg : IncomingMessage) (r : Option RejectReason)
    → (emit_reject p msg r).seen ≡ p.seen
unfolding emit_reject
seen-emit_reject p msg r = ground arith

seen-admit_checked :
    (p : SafetyPipeline) (now : ℕ) (msg : IncomingMessage)
    → (admit_checked p now msg).0.seen ≡ p.seen
unfolding admit_checked
seen-admit_checked p now msg = grind (arith, seen-emit_reject)

pub seen-admit :
    (digest : Text → Text) (p : SafetyPipeline) (c : Clock) (proto_id : Text)
    (msg : IncomingMessage)
    → Stale.is_stale p.stale c.stale_at msg.create_at ≡ false
    → (admit digest p c proto_id msg).0.seen
      ≡ (check_duplicate p c (dedup_keys digest proto_id msg)).0.seen
seen-admit digest p c proto_id msg recent =
    let checked = check_duplicate p c (dedup_keys digest proto_id msg) in
    elim (Bool-cases checked.1) [
      | inl dup ↦
          unfold admit in rw (recent, dup) (seen-emit_reject checked.0 msg (some Types.duplicate))
      | inr new ↦ unfold admit in rw (recent, new) (seen-admit_checked checked.0 c.lock_at msg)
    ]

pub admit_duplicate :
    (digest : Text → Text) (p : SafetyPipeline) (c : Clock) (proto_id : Text)
    (msg : IncomingMessage)
    → (check_duplicate p c (dedup_keys digest proto_id msg)).1 ≡ true
    → (admit digest p c proto_id msg).1 ≡ false
unfolding admit
admit_duplicate digest p c proto_id msg dup =
    elim (Bool-cases (Stale.is_stale p.stale c.stale_at msg.create_at)) [
      | inl old ↦ rw old refl
      | inr recent ↦ rw (recent, dup) refl
    ]

-- the message id is a key, and there are at most three keys
keys_cases :
    (digest : Text → Text) (proto_id : Text) (msg : IncomingMessage)
    → (dedup_keys digest proto_id msg ≡ proto_id ∷ msg.msg_id ∷ [])
      ⊎ ((f : Text) × (dedup_keys digest proto_id msg ≡ proto_id ∷ msg.msg_id ∷ f ∷ []))
unfolding dedup_keys
keys_cases digest proto_id msg = go msg.create_at
  where
    go :
        (z : ℤ)
        → let keys = dedup_keys digest proto_id (record msg { create_at = z }) in
          (keys ≡ proto_id ∷ msg.msg_id ∷ [])
          ⊎ ((f : Text) × (keys ≡ proto_id ∷ msg.msg_id ∷ f ∷ []))
    go (negsuc _) = inl refl
    go (pos t) = elim (Bool-cases (not (is_empty msg.text) && ltb 0 t)) [
      | inl full ↦
          inr (content_fingerprint digest msg.conversation_id t msg.msg_type msg.text, rw full refl)
      | inr bare ↦ inl (rw bare refl)
    ]

Mem-dedup_keys :
    (digest : Text → Text) (proto_id : Text) (msg : IncomingMessage)
    → Mem msg.msg_id (dedup_keys digest proto_id msg)
Mem-dedup_keys digest proto_id msg = elim (keys_cases digest proto_id msg) [
  | inl e ↦ rw e (mem-cons_of_mem proto_id mem-cons_self)
  | inr (f, e) ↦ rw e (mem-cons_of_mem proto_id mem-cons_self)
]

length-dedup_keys :
    (digest : Text → Text) (proto_id : Text) (msg : IncomingMessage)
    → length (dedup_keys digest proto_id msg) ≤ 3
length-dedup_keys digest proto_id msg = elim (keys_cases digest proto_id msg) [
  | inl e ↦ rw e (omega arith)
  | inr (f, e) ↦ rw e (omega arith)
]

checks_and_marks :
    (p : SafetyPipeline) (c : Clock) (keys : List Text)
    → p.mark_after_handler ≡ false
    → ((check_duplicate p c keys).0.seen
        ≡ (Seen.check_and_mark none p.seen c.has_at c.add_at keys).0)
      × ((check_duplicate p c keys).1 ≡ (Seen.check_and_mark none p.seen c.has_at c.add_at keys).1)
unfolding check_duplicate
checks_and_marks p c keys first = rw first (refl, refl)

-- When marks are set on arrival, and the cache is valid: a message with an id that is not empty went
-- on and was marked at `c.add_at`. Then the cache got any calls, each of which read the clock not
-- before that and before the mark expires; their keys and three are no more than the cache may hold.
-- Then a message with the same id is refused until the mark expires, also under another delivery id
-- and with another content, whatever else has changed in the pipeline.
pub admit_once :
    (digest : Text → Text) (p q : SafetyPipeline) (c c' : Clock) (proto_id proto_id' : Text)
    (msg msg' : IncomingMessage) (cs : List Call)
    → IsValid p.seen
    → 3 + keys_of cs ≤ p.seen.cfg.max_entries
    → p.mark_after_handler ≡ false
    → q.mark_after_handler ≡ false
    → (admit digest p c proto_id msg).1 ≡ true
    → All (IsDuring c.add_at (c.add_at + p.seen.cfg.ttl)) cs
    → q.seen ≡ run (admit digest p c proto_id msg).0.seen cs
    → msg.msg_id ≢ []
    → msg'.msg_id ≡ msg.msg_id
    → c'.has_at < c.add_at + p.seen.cfg.ttl
    → (admit digest q c' proto_id' msg').1 ≡ false
admit_once digest p q c c' proto_id proto_id' msg msg' cs h room first first' on during kept ne same
      soon =
    let keys = dedup_keys digest proto_id msg in
    let keys' = dedup_keys digest proto_id' msg' in
    let (recent, new) = (admit-Settled digest p c proto_id msg).1 on in
    let (marked, answer) = checks_and_marks p c keys first in
    let cache =
      kept
      ∙ ap {A = SeenCache} (λ s. run s cs) (seen-admit digest p c proto_id msg recent ∙ marked) in
    let asked : Mem msg.msg_id keys' =
      subst (λ i. Mem i keys') same (Mem-dedup_keys digest proto_id' msg') in
    let fits : length keys + keys_of cs ≤ p.seen.cfg.max_entries =
      omega (arith, length-dedup_keys digest proto_id msg) in
    admit_duplicate digest q c' proto_id' msg' (
      (checks_and_marks q c' keys' first').1
      ∙ (ap {A = SeenCache} (λ s. (Seen.check_and_mark none s c'.has_at c'.add_at keys').1) cache
          ∙ check_and_mark_remembers none none p.seen c.has_at c.add_at c'.has_at c'.add_at keys
              keys' msg.msg_id cs h (sym answer ∙ new) fits during ne
              (Mem-dedup_keys digest proto_id msg) asked soon))
