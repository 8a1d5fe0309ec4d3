-- ===== src/Safety/Seen/Refinement.antt =====
-- Each operation of the linked cache does to its view what the operation on recency lists does, and
-- keeps the invariant.
use dingtalk_channel_sdk_go.Prelude.{
  Option-cases, length, take, length-take-le, take_of_length-le, Text, insert, remove, ℕ, suc, ◌≤◌,
  ◌≡◌, refl, sym, ap, subst, ◌∙◌, inl, inr, none, some, ◌∷◌, arith,
}
use dingtalk_channel_sdk_go.Safety.Seen.{
  Element, SeenCache, move_to_front, entry_of, drop_entry, evict, add_to_memory,
}
use dingtalk_channel_sdk_go.Safety.Seen.Entries.{find_key, find_key-key, length-unlink}
use dingtalk_channel_sdk_go.Safety.Seen.Invariant.{
  IsValid, entry_of-find_key, drop_entry-IsLinked, moved-IsLinked, pushed-IsLinked,
}
use dingtalk_channel_sdk_go.Safety.Seen.Eviction.{evict_one}
use dingtalk_channel_sdk_go.Safety.Seen.Views.{
  view, length-view, view-take, remove-view_absent, remove-view,
}
use dingtalk_channel_sdk_go.Safety.Seen.Recency.{Recency, note}

-- what an operation makes of a cache, and of its view
abbrev pub Yields : SeenCache → SeenCache → Recency → Type 0
Yields sc sc' v = IsValid sc' × (view sc'.evict_list ≡ v) × (sc'.cfg ≡ sc.cfg)

add_miss :
    (sc : SeenCache) (key : Text) (x : ℕ)
    → entry_of sc key ≡ none
    → add_to_memory sc key x
      ≡ evict (suc (length sc.evict_list)) (record sc {
        items = insert key sc.next_node sc.items;
        evict_list = (record { node = sc.next_node; key = key; expires_at = x }) ∷ sc.evict_list;
        next_node = suc sc.next_node;
      })
unfolding add_to_memory
add_miss sc key x miss = rw (miss, add_to_memory) refl

add_hit :
    (sc : SeenCache) (key : Text) (x : ℕ) {e : Element}
    → entry_of sc key ≡ some e
    → add_to_memory sc key x
      ≡ record sc { evict_list = move_to_front (record e { expires_at = x }) sc.evict_list }
unfolding add_to_memory
add_hit sc key x hit = rw (hit, add_to_memory) refl

module _ (sc : SeenCache) (h : IsValid sc) where
  pub drop_entry-Yields :
      (e : Element)
      → find_key e.key sc.evict_list ≡ some e
      → Yields sc (drop_entry sc e) (remove e.key (view sc.evict_list))
  unfolding drop_entry
  drop_entry-Yields e found = (
    record {
      linked = drop_entry-IsLinked sc e h.linked found;
      bounded = omega (arith, length-unlink sc.evict_list e h.linked.distinct found, h.bounded);
    },
    remove-view sc.evict_list e h.linked.distinct found,
    refl,
  )

  pub moved-Yields :
      (e : Element) (x : ℕ)
      → find_key e.key sc.evict_list ≡ some e
      → Yields sc
          (record sc { evict_list = move_to_front (record e { expires_at = x }) sc.evict_list })
          ((e.key, x) ∷ remove e.key (view sc.evict_list))
  unfolding move_to_front
  moved-Yields e x found = (
    record {
      linked = unfold move_to_front in moved-IsLinked sc e x h.linked found;
      bounded = omega (arith, length-unlink sc.evict_list e h.linked.distinct found, h.bounded);
    },
    ap (◌∷◌ (e.key, x)) (remove-view sc.evict_list e h.linked.distinct found),
    refl,
  )

  pushed-Yields :
      (key : Text) (x : ℕ)
      → find_key key sc.evict_list ≡ none
      → let full = record sc {
        items = insert key sc.next_node sc.items;
        evict_list = (record { node = sc.next_node; key = key; expires_at = x }) ∷ sc.evict_list;
        next_node = suc sc.next_node;
      } in
        Yields sc
          (evict (suc (length sc.evict_list)) full)
          (take sc.cfg.max_entries ((key, x) ∷ view sc.evict_list))
  pushed-Yields key x new =
      let entry : Element = record { node = sc.next_node; key = key; expires_at = x } in
      let full = record sc {
        items = insert key sc.next_node sc.items;
        evict_list = entry ∷ sc.evict_list;
        next_node = suc sc.next_node;
      } in
      let (linked, cut, same) =
        evict_one (length sc.evict_list) full (pushed-IsLinked sc key x h.linked new)
          (omega (arith, h.bounded)) in
      (
        record {
          linked = linked;
          bounded = rw (same, cut) (length-take-le sc.cfg.max_entries (entry ∷ sc.evict_list));
        },
        ap view cut ∙ view-take sc.cfg.max_entries (entry ∷ sc.evict_list),
        same,
      )

  -- `addToMemory` notes the key
  pub add_to_memory-Yields :
      (key : Text) (x : ℕ)
      → Yields sc (add_to_memory sc key x) (note sc.cfg.max_entries key x (view sc.evict_list))
  unfolding note
  add_to_memory-Yields key x = elim (Option-cases (find_key key sc.evict_list)) [
    | inl miss ↦
        rw (add_miss sc key x (entry_of-find_key sc key h.linked ∙ miss))
          (rw (remove-view_absent key sc.evict_list miss) (pushed-Yields key x miss))
    | inr (e, hit) ↦
        let list = sc.evict_list in
        let named : e.key ≡ key = find_key-key key list hit in
        let found : find_key e.key list ≡ some e =
          subst (λ k. find_key k list ≡ some e) (sym named) hit in
        let moved = moved-Yields e x found in
        let max = sc.cfg.max_entries in
        let fits : length ((e.key, x) ∷ remove e.key (view list)) ≤ max =
          subst (λ v. length v ≤ max) moved.1
            (rw (length-view (move_to_front (record e { expires_at = x }) list)) moved.0.bounded) in
        let kept = sym (take_of_length-le max ((e.key, x) ∷ remove e.key (view list)) fits) in
        rw (add_hit sc key x (entry_of-find_key sc key h.linked ∙ hit)) (
          moved.0,
          moved.1 ∙ (kept ∙ ap (λ k. take max ((k, x) ∷ remove k (view list))) named),
          refl,
        )
  ]
