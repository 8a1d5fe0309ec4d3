-- ===== src/Safety/Seen/Invariant.antt =====
-- The map and the list agree: what every operation of the cache keeps.
use dingtalk_channel_sdk_go.Prelude.{
  if◌then◌else◌, Bool-cases, Option-cases, length, Text, ◌==◌, eq_of_==, lookup, insert,
  lookup-insert, lookup-remove, ℕ, suc, ◌≤◌, ◌<◌, ◌≡◌, refl, sym, ap, subst, ◌∙◌, inl, inr, Bool,
  true, false, Option, none, some, List, ◌∷◌, arith,
}
use dingtalk_channel_sdk_go.Safety.Seen.{Element, SeenCache, move_to_front, entry_of, drop_entry}
use dingtalk_channel_sdk_go.Safety.Seen.Entries.{
  find_key, IsDistinct, node_of, Below, deref-find_key, unlink-IsDistinct, unlink-Below,
  find_key-unlink, unlink-IsApart, All-find_key, Below-suc, new-IsApart,
}

-- The map leads each key to the node of the entry that the list has for it, no two entries share
-- a node or a key, and the next node is new.
pub record IsLinked (sc : SeenCache) : Type 0 where
  pub agrees : (k : Text) → lookup k sc.items ≡ node_of (find_key k sc.evict_list)
  pub distinct : IsDistinct sc.evict_list
  pub fresh : Below sc.next_node sc.evict_list

pub record IsValid (sc : SeenCache) : Type 0 where
  pub linked : IsLinked sc
  pub bounded : length sc.evict_list ≤ sc.cfg.max_entries

-- a map that agrees with the list finds what the list has
pub entry_of-find_key :
    (sc : SeenCache) (k : Text) → IsLinked sc → entry_of sc k ≡ find_key k sc.evict_list
unfolding entry_of
entry_of-find_key sc k h = elim (Option-cases (find_key k sc.evict_list)) [
  | inl miss ↦
      let none_there : lookup k sc.items ≡ none = h.agrees k ∙ ap node_of miss in
      rw (none_there, entry_of) (sym miss)
  | inr (e, hit) ↦
      let there : lookup k sc.items ≡ some e.node = h.agrees k ∙ ap node_of hit in
      rw (there, entry_of) (rw (deref-find_key k sc.evict_list e h.distinct hit) (sym hit))
]

node_of-if :
    (b : Bool) (o : Option Element)
    → node_of (if b then none else o) ≡ (if b then none else node_of o)
node_of-if true o = refl
node_of-if false o = refl

-- removing an entry from both keeps the agreement
pub drop_entry-IsLinked :
    (sc : SeenCache) (e : Element)
    → IsLinked sc
    → find_key e.key sc.evict_list ≡ some e
    → IsLinked (drop_entry sc e)
unfolding drop_entry
drop_entry-IsLinked sc e h found = record {
  agrees = λ k.
      lookup-remove e.key k sc.items
      ∙ (rw (h.agrees k) (sym (node_of-if (e.key == k) (find_key k sc.evict_list)))
          ∙ ap node_of (sym (find_key-unlink k sc.evict_list e h.distinct found)));
  distinct = unlink-IsDistinct e.node sc.evict_list h.distinct;
  fresh = unlink-Below e.node sc.next_node sc.evict_list h.fresh;
}

node_of-moved :
    (l : List Element) (e : Element) (expires_at : ℕ) (k : Text)
    → IsDistinct l
    → find_key e.key l ≡ some e
    → node_of (find_key k (move_to_front (record e { expires_at = expires_at }) l))
      ≡ node_of (find_key k l)
unfolding move_to_front find_key
node_of-moved l e expires_at k d found = elim (Bool-cases (e.key == k)) [
  | inl hit ↦ rw hit (
      subst (λ j. some e.node ≡ node_of (find_key j l)) (eq_of_== e.key k hit)
        (ap node_of (sym found)))
  | inr miss ↦ rw miss (ap node_of (find_key-unlink k l e d found) ∙ rw miss refl)
]

-- so does moving an entry to the front, also with a new expiry
pub moved-IsLinked :
    (sc : SeenCache) (e : Element) (expires_at : ℕ)
    → IsLinked sc
    → find_key e.key sc.evict_list ≡ some e
    → IsLinked (record sc {
      evict_list = move_to_front (record e { expires_at = expires_at }) sc.evict_list;
    })
unfolding move_to_front
moved-IsLinked sc e expires_at h found = record {
  agrees = λ k. h.agrees k ∙ sym (node_of-moved sc.evict_list e expires_at k h.distinct found);
  distinct = (
    unlink-IsApart sc.evict_list e h.distinct found,
    unlink-IsDistinct e.node sc.evict_list h.distinct,
  );
  fresh = (
    All-find_key (λ x. x.node < sc.next_node) e.key sc.evict_list h.fresh found,
    unlink-Below e.node sc.next_node sc.evict_list h.fresh,
  );
}

pub pushed-IsLinked :
    (sc : SeenCache) (key : Text) (expires_at : ℕ)
    → IsLinked sc
    → find_key key sc.evict_list ≡ none
    → IsLinked (record sc {
      items = insert key sc.next_node sc.items;
      evict_list =
          (record { node = sc.next_node; key = key; expires_at = expires_at }) ∷ sc.evict_list;
      next_node = suc sc.next_node;
    })
unfolding find_key
pushed-IsLinked sc key expires_at h new = record {
  agrees = λ k. lookup-insert key k sc.next_node sc.items ∙ pushed k;
  distinct = (new-IsApart new_entry sc.evict_list h.fresh new, h.distinct);
  fresh = (omega arith, Below-suc sc.next_node sc.evict_list h.fresh);
}
  where
    new_entry : Element
    new_entry = record { node = sc.next_node; key = key; expires_at = expires_at }

    pushed :
        (k : Text)
        → (if key == k then some sc.next_node else lookup k sc.items)
          ≡ node_of (find_key k (new_entry ∷ sc.evict_list))
    pushed k = elim (Bool-cases (key == k)) [ inl hit ↦ rw hit | inr miss ↦ rw miss (h.agrees k) ]
