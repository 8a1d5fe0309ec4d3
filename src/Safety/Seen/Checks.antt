-- ===== src/Safety/Seen/Checks.antt =====
-- `Has`, `Add` and `CheckAndMark`, with both layers, refine the operations on recency lists.
use dingtalk_channel_sdk_go.Prelude.{
  if◌then◌else◌, Bool-cases, is_some, Text, is_empty, ℕ, ◌+◌, refl, ap, subst, ◌∙◌, inl, inr, Bool,
  true, false, not, ◌&&◌, Option, none, some, List, [], ◌∷◌, ◌++◌,
}
use dingtalk_channel_sdk_go.Safety.Seen.{
  SeenCache, add_to_memory, has_memory, add_keys, add, has_remote, has, check_and_mark,
}
use dingtalk_channel_sdk_go.Safety.Seen.Invariant.{IsValid}
use dingtalk_channel_sdk_go.Types.{DedupConfig}
use dingtalk_channel_sdk_go.Safety.Seen.Views.{view}
use dingtalk_channel_sdk_go.Safety.Seen.Recency.{
  Recency, note, look, note_all, look_remote, look_all, check,
}
use dingtalk_channel_sdk_go.Safety.Seen.Refinement.{Yields, add_to_memory-Yields}
use dingtalk_channel_sdk_go.Safety.Seen.Lookups.{Agrees, has_memory-Agrees}

-- the record of remote writes is no part of the invariant or the view
noted-Yields :
    (sc sc' : SeenCache) (ids : List Text) {v : Recency}
    → Yields sc sc' v
    → Yields sc (record sc' { remote_writes = ids }) v
noted-Yields sc sc' ids (h, seen, same) = (
  record {
    linked = record {
      agrees = h.linked.agrees;
      distinct = h.linked.distinct;
      fresh = h.linked.fresh;
    };
    bounded = h.bounded;
  },
  seen,
  same,
)

added : Bool → SeenCache → ℕ → Text → SeenCache
added remote sc x k =
    let more = add_to_memory sc k x in
    let noted = record more { remote_writes = more.remote_writes ++ (k ∷ []) } in
    if is_empty k then sc else (if remote then noted else more)

added-Yields :
    (remote : Bool) (sc : SeenCache) (x : ℕ) (k : Text)
    → IsValid sc
    → Yields sc (added remote sc x k) (
        if is_empty k then view sc.evict_list else note sc.cfg.max_entries k x (view sc.evict_list))
unfolding added
added-Yields remote sc x [] h = (h, refl, refl)
added-Yields true sc x (c ∷ k) h =
    noted-Yields sc (add_to_memory sc (c ∷ k) x) _ (add_to_memory-Yields sc h (c ∷ k) x)
added-Yields false sc x (c ∷ k) h = add_to_memory-Yields sc h (c ∷ k) x

-- every key of `Add` is noted
pub add_keys-Yields :
    (remote : Bool) (sc : SeenCache) (x : ℕ) (ks : List Text)
    → IsValid sc
    → Yields sc (add_keys remote sc x ks) (note_all sc.cfg.max_entries x ks (view sc.evict_list))
unfolding add_keys note_all added
add_keys-Yields remote sc x [] h = (h, refl, refl)
add_keys-Yields remote sc x (k ∷ ks) h =
    let (valid, seen, same) = added-Yields remote sc x k h in
    let sc' = added remote sc x k in
    let (valid', seen', same') = add_keys-Yields remote sc' x ks valid in
    let joined =
      seen'
      ∙ (ap (λ n. note_all n x ks (view sc'.evict_list))
            (ap (λ (c : DedupConfig). c.max_entries) same)
          ∙ ap (note_all sc.cfg.max_entries x ks) seen) in
    (valid', joined, same' ∙ same)

-- the second layer
has_remote-Agrees :
    (exists : Text → Bool) (sc : SeenCache) (now : ℕ) (ks : List Text)
    → IsValid sc
    → Agrees sc
        (has_remote exists sc now ks)
        (look_remote exists sc.cfg.max_entries (now + sc.cfg.ttl) (view sc.evict_list) ks)
unfolding has_remote look_remote
has_remote-Agrees exists sc now [] h = ((h, refl, refl), refl)
has_remote-Agrees exists sc now (k ∷ ks) h = elim (Bool-cases (not (is_empty k) && exists k)) [
  | inl there ↦ rw there (add_to_memory-Yields sc h k (now + sc.cfg.ttl), refl)
  | inr missing ↦ rw missing (has_remote-Agrees exists sc now ks h)
]

-- a step after another
module _ (sc sc' : SeenCache) {v : Recency} (y : Yields sc sc' v) where
  then_remote :
      (exists : Text → Bool) (now : ℕ) (ks : List Text)
      → Agrees sc
          (has_remote exists sc' now ks)
          (look_remote exists sc.cfg.max_entries (now + sc.cfg.ttl) v ks)
  then_remote exists now ks =
      let (next, same) =
        subst
          (λ w.
            Agrees sc' (has_remote exists sc' now ks)
              (look_remote exists sc.cfg.max_entries (now + sc.cfg.ttl) w ks))
          y.1
          (subst {A = DedupConfig}
            (λ c.
              Agrees sc' (has_remote exists sc' now ks)
                (look_remote exists c.max_entries (now + c.ttl) (view sc'.evict_list) ks))
            y.2 (has_remote-Agrees exists sc' now ks y.0)) in
      ((next.0, next.1, next.2 ∙ y.2), same)

  then_add :
      (remote : Bool) (later : ℕ) (ks : List Text)
      → Yields sc (add remote sc' later ks) (note_all sc.cfg.max_entries (later + sc.cfg.ttl) ks v)
  unfolding add
  then_add remote later ks =
      let next =
        subst
          (λ w.
            Yields sc' (add remote sc' later ks)
              (note_all sc.cfg.max_entries (later + sc.cfg.ttl) ks w))
          y.1
          (subst {A = DedupConfig}
            (λ c.
              Yields sc' (add remote sc' later ks)
                (note_all c.max_entries (later + c.ttl) ks (view sc'.evict_list)))
            y.2 (add_keys-Yields remote sc' (later + sc'.cfg.ttl) ks y.0)) in
      (next.0, next.1, next.2 ∙ y.2)

pub has-Agrees :
    (redis : Option (Text → Bool)) (sc : SeenCache) (now : ℕ) (ks : List Text)
    → IsValid sc
    → Agrees sc
        (has redis sc now ks)
        (look_all redis sc.cfg.max_entries sc.cfg.ttl (view sc.evict_list) now ks)
has-Agrees redis sc now ks h =
    let (yields, same) = has_memory-Agrees sc now ks h in
    elim (Bool-cases (look (view sc.evict_list) now ks).1) [
      | inl hit ↦ unfold has look_all in rw (same ∙ hit) (rw hit (yields, refl))
      | inr miss ↦ unfold has look_all in rw (same ∙ miss) (rw miss (remote redis yields))
    ]
  where
    remote :
        (redis : Option (Text → Bool))
        → Yields sc (has_memory sc now ks).0 (look (view sc.evict_list) now ks).0
        → Agrees sc
            (elim redis [
              | none ↦ ((has_memory sc now ks).0, false)
              | some exists ↦ has_remote exists (has_memory sc now ks).0 now ks
            ])
            (elim redis [
              | none ↦ ((look (view sc.evict_list) now ks).0, false)
              | some exists ↦
                  look_remote exists sc.cfg.max_entries
                    (now + sc.cfg.ttl)
                    (look (view sc.evict_list) now ks).0
                    ks
            ])
    remote none y = (y, refl)
    remote (some exists) y = then_remote sc (has_memory sc now ks).0 y exists now ks

-- `CheckAndMark` keeps the invariant, and refines the check of a recency list: whatever the second
-- layer answers, the result is the same and the new cache shows the new list.
pub check_and_mark-Agrees :
    (redis : Option (Text → Bool)) (sc : SeenCache) (now later : ℕ) (ks : List Text)
    → IsValid sc
    → Agrees sc
        (check_and_mark redis sc now later ks)
        (check redis sc.cfg.max_entries sc.cfg.ttl (view sc.evict_list) now later ks)
check_and_mark-Agrees redis sc now later ks h =
    let (yields, same) = has-Agrees redis sc now ks h in
    let found = look_all redis sc.cfg.max_entries sc.cfg.ttl (view sc.evict_list) now ks in
    elim (Bool-cases found.1) [
      | inl dup ↦ unfold check_and_mark check in rw (same ∙ dup) (rw dup (yields, refl))
      | inr new ↦
          unfold check_and_mark check in
          rw (same ∙ new)
            (rw new (then_add sc (has redis sc now ks).0 yields (is_some redis) later ks, refl))
    ]
