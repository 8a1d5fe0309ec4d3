-- ===== src/Safety/Seen/Eviction.antt =====
-- The eviction loop cuts the list at the limit, and its fuel is enough.
use dingtalk_channel_sdk_go.Prelude.{
  ltb, le→not-ltb, Bool-cases, length, take, last_of, length-take-le, take_of_length-le, ℕ, zero,
  suc, ◌≤◌, ◌≡◌, refl, sym, ap, subst, ◌∙◌, inl, inr, true, List, [], ◌∷◌, arith,
}
use dingtalk_channel_sdk_go.Safety.Seen.{Element, SeenCache, drop_entry, evict}
use dingtalk_channel_sdk_go.Safety.Seen.Entries.{find_key-last_of, unlink-last_of}
use dingtalk_channel_sdk_go.Safety.Seen.Invariant.{IsLinked, drop_entry-IsLinked}

-- a list within the limit is left alone, on any fuel
pub evict_fits :
    (fuel : ℕ) (sc : SeenCache) → length sc.evict_list ≤ sc.cfg.max_entries → evict fuel sc ≡ sc
unfolding evict
evict_fits zero sc h = refl
evict_fits (suc fuel) sc h = rw (le→not-ltb sc.cfg.max_entries (length sc.evict_list) h)

evict_cons :
    (fuel : ℕ) (sc : SeenCache) (e : Element) (l : List Element)
    → ltb sc.cfg.max_entries (length (e ∷ l)) ≡ true
    → evict (suc fuel) (record sc { evict_list = e ∷ l })
      ≡ evict fuel (drop_entry (record sc { evict_list = e ∷ l }) (last_of e l))
unfolding evict
evict_cons fuel sc e l h = rw h refl

-- what the loop leaves of a cache
abbrev IsEvicted : SeenCache → SeenCache → Type 0
IsEvicted sc sc' =
    IsLinked sc' × (sc'.evict_list ≡ take sc.cfg.max_entries sc.evict_list) × (sc'.cfg ≡ sc.cfg)

evict_list :
    (fuel : ℕ) (l : List Element) (sc : SeenCache)
    → let full = record sc { evict_list = l } in
      IsLinked full → length l ≤ suc sc.cfg.max_entries → IsEvicted full (evict (suc fuel) full)
unfolding drop_entry
evict_list fuel [] sc h len =
    rw (evict_fits (suc fuel) (record sc { evict_list = [] }) (omega arith))
      (h, sym (take_of_length-le sc.cfg.max_entries [] (omega arith)), refl)
evict_list fuel (e ∷ l) sc h len =
    let full = record sc { evict_list = e ∷ l } in
    elim (Bool-cases (ltb sc.cfg.max_entries (length (e ∷ l)))) [
      | inl over ↦
          let exact : length l ≡ sc.cfg.max_entries = ground arith in
          let cut = unlink-last_of e l h.distinct ∙ ap (λ n. take n (e ∷ l)) exact in
          let dropped = drop_entry full (last_of e l) in
          let short : length dropped.evict_list ≤ sc.cfg.max_entries =
            subst (λ xs. length xs ≤ sc.cfg.max_entries) (sym cut)
              (length-take-le sc.cfg.max_entries (e ∷ l)) in
          subst {A = SeenCache} (IsEvicted full)
            (sym (evict_cons fuel sc e l over ∙ evict_fits fuel dropped short))
            (drop_entry-IsLinked full (last_of e l) h (find_key-last_of e l h.distinct), cut, refl)
      | inr fits ↦
          let short : length (e ∷ l) ≤ sc.cfg.max_entries = ground arith in
          subst {A = SeenCache} (IsEvicted full) (sym (evict_fits (suc fuel) full short))
            (h, sym (take_of_length-le sc.cfg.max_entries (e ∷ l) short), refl)
    ]

-- One entry too many: the last one goes, and the rest stays linked.
pub evict_one :
    (fuel : ℕ) (sc : SeenCache)
    → IsLinked sc
    → length sc.evict_list ≤ suc sc.cfg.max_entries
    → IsLinked (evict (suc fuel) sc)
      × ((evict (suc fuel) sc).evict_list ≡ take sc.cfg.max_entries sc.evict_list)
      × ((evict (suc fuel) sc).cfg ≡ sc.cfg)
evict_one fuel sc = evict_list fuel sc.evict_list sc
