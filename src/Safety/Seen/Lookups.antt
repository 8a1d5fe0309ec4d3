-- ===== src/Safety/Seen/Lookups.antt =====
-- `Has`, `Add` and `CheckAndMark` on the linked cache and on its view.
use dingtalk_channel_sdk_go.Prelude.{
  ltb, if◌then◌else◌, Bool-cases, Option-cases, Text, is_empty, lookup, remove, ℕ, ◌≡◌, refl, sym,
  ap, subst, ◌∙◌, inl, inr, Bool, true, Option, none, some, List, [], ◌∷◌,
}
use dingtalk_channel_sdk_go.Safety.Seen.{
  Element, SeenCache, move_to_front, entry_of, drop_entry, has_memory,
}
use dingtalk_channel_sdk_go.Safety.Seen.Entries.{find_key, find_key-key}
use dingtalk_channel_sdk_go.Safety.Seen.Invariant.{IsValid, entry_of-find_key}
use dingtalk_channel_sdk_go.Safety.Seen.Views.{view, lookup-view, expiry_of}
use dingtalk_channel_sdk_go.Safety.Seen.Recency.{Recency, look}
use dingtalk_channel_sdk_go.Safety.Seen.Refinement.{Yields, drop_entry-Yields, moved-Yields}

-- the entry that `Has` meets for a key
met : SeenCache → Text → Option Element
met sc k = if is_empty k then none else entry_of sc k

has_memory_skip :
    (sc : SeenCache) (now : ℕ) (k : Text) (ks : List Text)
    → met sc k ≡ none
    → has_memory sc now (k ∷ ks) ≡ has_memory sc now ks
unfolding has_memory met
has_memory_skip sc now k ks e = rw (e, has_memory) refl

has_memory-met :
    (sc : SeenCache) (now : ℕ) (k : Text) (ks : List Text) {e : Element}
    → met sc k ≡ some e
    → has_memory sc now (k ∷ ks) ≡ (
        if ltb now e.expires_at
        then (record sc { evict_list = move_to_front e sc.evict_list }, true)
        else has_memory (drop_entry sc e) now ks)
unfolding has_memory met
has_memory-met sc now k ks e = rw (e, has_memory) refl

expiry_of-met :
    (sc : SeenCache) (k : Text)
    → IsValid sc
    → expiry_of (met sc k) ≡ (if is_empty k then none else lookup k (view sc.evict_list))
unfolding met
expiry_of-met sc [] h = refl
expiry_of-met sc (c ∷ k) h =
    ap expiry_of (entry_of-find_key sc (c ∷ k) h.linked) ∙ sym (lookup-view (c ∷ k) sc.evict_list)

pub look_lem :
    (v : Recency) (now : ℕ) (k : Text) (ks : List Text) {o : Option ℕ}
    → (if is_empty k then none else lookup k v) ≡ o
    → look v now (k ∷ ks) ≡ elim o [
      | none ↦ look v now ks
      | some x ↦ if ltb now x then ((k, x) ∷ remove k v, true) else look (remove k v) now ks
    ]
unfolding look
look_lem v now k ks e = rw (e, look) refl

-- an entry that is met is the one of its key
met-found :
    (sc : SeenCache) (k : Text) {e : Element}
    → IsValid sc
    → met sc k ≡ some e
    → (e.key ≡ k) × (find_key e.key sc.evict_list ≡ some e)
unfolding met
met-found sc [] h m = absurd (cc)
met-found sc (c ∷ k) {e} h m =
    let hit = sym (entry_of-find_key sc (c ∷ k) h.linked) ∙ m in
    let named = find_key-key (c ∷ k) sc.evict_list hit in
    (named, subst (λ j. find_key j sc.evict_list ≡ some e) (sym named) hit)

-- The answer and the new state of a cache, against those of its view.
abbrev pub Agrees : SeenCache → SeenCache × Bool → Recency × Bool → Type 0
Agrees sc (sc', b) (v, c) = Yields sc sc' v × (b ≡ c)

-- one key that is met: a hit moves up, an expired entry goes and the search goes on
met-Agrees :
    (sc : SeenCache) (now : ℕ) (k : Text) (ks : List Text) (e : Element)
    → IsValid sc
    → met sc k ≡ some e
    → Agrees
        (drop_entry sc e)
        (has_memory (drop_entry sc e) now ks)
        (look (view (drop_entry sc e).evict_list) now ks)
    → let v = view sc.evict_list in
      Agrees sc
        (if ltb now e.expires_at
          then (record sc { evict_list = move_to_front e sc.evict_list }, true)
          else has_memory (drop_entry sc e) now ks)
        (if ltb now e.expires_at
          then ((k, e.expires_at) ∷ remove k v, true)
          else look (remove k v) now ks)
met-Agrees sc now k ks e h hit rest =
    let v = view sc.evict_list in
    let (named, found) = met-found sc k h hit in
    elim (Bool-cases (ltb now e.expires_at)) [
      | inl live ↦
          let moved = moved-Yields sc h e e.expires_at found in
          rw live ((moved.0, moved.1 ∙ ap (λ j. (j, e.expires_at) ∷ remove j v) named, refl), refl)
      | inr expired ↦
          let dropped = drop_entry-Yields sc h e found in
          let (yields, same) =
            subst
              (λ w. Agrees (drop_entry sc e) (has_memory (drop_entry sc e) now ks) (look w now ks))
              (dropped.1 ∙ ap (λ j. remove j v) named) rest in
          rw expired ((yields.0, yields.1, yields.2 ∙ dropped.2), same)
    ]

-- `Has` in memory looks the keys up in the view
pub has_memory-Agrees :
    (sc : SeenCache) (now : ℕ) (ks : List Text)
    → IsValid sc
    → Agrees sc (has_memory sc now ks) (look (view sc.evict_list) now ks)
has_memory-Agrees sc now [] h = unfold has_memory look in ((h, refl, refl), refl)
has_memory-Agrees sc now (k ∷ ks) h =
    let v = view sc.evict_list in
    elim (Option-cases (met sc k)) [
      | inl miss ↦ rw (has_memory_skip sc now k ks miss) (
          rw (look_lem v now k ks (sym (expiry_of-met sc k h) ∙ ap expiry_of miss))
            (has_memory-Agrees sc now ks h))
      | inr (e, hit) ↦
          let valid = (drop_entry-Yields sc h e (met-found sc k h hit).1).0 in
          rw (has_memory-met sc now k ks hit) (
            rw (look_lem v now k ks (sym (expiry_of-met sc k h) ∙ ap expiry_of hit))
              (met-Agrees sc now k ks e h hit (has_memory-Agrees (drop_entry sc e) now ks valid)))
    ]
