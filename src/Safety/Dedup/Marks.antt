-- ===== src/Safety/Dedup/Marks.antt =====
-- What a check of the older filter leaves.
use dingtalk_channel_sdk_go.Prelude.{
  ltb, if◌then◌else◌, le→not-ltb, Bool-cases, length, any, Text, ◌==◌, ==_iff, is_empty, listed,
  listed_iff, Map, lookup, insert, remove, lookup-insert, ℕ, ◌+◌, ◌≤◌, ◌≡◌, refl, ap, ◌∙◌, inl, inr,
  true, false, not, ◌&&◌, some, List, [], ◌∷◌, arith,
}
use mathlib.Core.List.{Mem}
use dingtalk_channel_sdk_go.Safety.Seen.Answers.{any_of_listed}
use dingtalk_channel_sdk_go.Safety.Dedup.{
  Deduper, is_marked, is_duplicate, mark_key, mark_keys, evict, check_and_mark,
}

length-insert : {V : Type 0} (k : Text) (v : V) (m : Map V) → length (insert k v m) ≤ length m + 1
unfolding insert
length-insert k v [] = omega arith
length-insert k v ((j, w) ∷ m) = elim (Bool-cases (j == k)) [
  | inl same ↦ rw same (omega arith)
  | inr other ↦ rw other (omega (arith, length-insert k v m))
]

length-mark_key :
    (now : ℕ) (k : Text) (d : Deduper) → length (mark_key now k d).seen ≤ length d.seen + 1
unfolding mark_key
length-mark_key now k d = elim (Bool-cases (is_empty k)) [
  | inl e ↦ rw e (omega arith)
  | inr e ↦ rw e (length-insert k now d.seen)
]

pub length-mark_keys :
    (now : ℕ) (ks : List Text) (d : Deduper)
    → length (mark_keys now ks d).seen ≤ length d.seen + length ks
unfolding mark_keys
length-mark_keys now [] d = omega arith
length-mark_keys now (k ∷ ks) d =
    omega (arith, length-mark_keys now ks (mark_key now k d), length-mark_key now k d)

cfg-mark_key : (now : ℕ) (k : Text) (d : Deduper) → (mark_key now k d).cfg ≡ d.cfg
unfolding mark_key
cfg-mark_key now k d = elim (Bool-cases (is_empty k)) [ inl e ↦ rw e refl | inr e ↦ rw e refl ]

pub cfg-mark_keys : (now : ℕ) (ks : List Text) (d : Deduper) → (mark_keys now ks d).cfg ≡ d.cfg
unfolding mark_keys
cfg-mark_keys now [] d = refl
cfg-mark_keys now (k ∷ ks) d = cfg-mark_keys now ks (mark_key now k d) ∙ cfg-mark_key now k d

lookup-mark_key :
    (now : ℕ) (j k : Text) (d : Deduper)
    → lookup k (mark_key now j d).seen
      ≡ (if not (is_empty j) && (j == k) then some now else lookup k d.seen)
unfolding mark_key
lookup-mark_key now [] k d = refl
lookup-mark_key now (c ∷ j) k d = lookup-insert (c ∷ j) k now d.seen

-- a key that is marked holds the instant of the mark
pub lookup-mark_keys :
    (now : ℕ) (ks : List Text) (k : Text) (d : Deduper)
    → is_empty k ≡ false
    → lookup k (mark_keys now ks d).seen ≡ (if listed k ks then some now else lookup k d.seen)
unfolding mark_keys listed any
lookup-mark_keys now [] k d ne = refl
lookup-mark_keys now (j ∷ ks) k d ne =
    lookup-mark_keys now ks k (mark_key now j d) ne
    ∙ ground (arith, lookup-mark_key now j k d, ne, ==_iff j k, ap is_empty {x = j} {y = k})

pub seen-evict :
    (d : Deduper) (ks : List Text) → length d.seen ≤ d.cfg.max_entries → (evict d ks).seen ≡ d.seen
unfolding evict
seen-evict d [] fits = refl
seen-evict d (k ∷ ks) fits = rw (le→not-ltb d.cfg.max_entries (length d.seen) fits) refl

pub cfg-evict : (d : Deduper) (ks : List Text) → (evict d ks).cfg ≡ d.cfg
unfolding evict
cfg-evict d [] = refl
cfg-evict d (k ∷ ks) = elim (Bool-cases (ltb d.cfg.max_entries (length d.seen))) [
  | inl over ↦ rw over (cfg-evict (record d { seen = remove k d.seen }) ks)
  | inr fits ↦ rw fits refl
]

pub check_and_mark-is_duplicate :
    (d : Deduper) (now : ℕ) (ks : List Text) → (check_and_mark d now ks).1 ≡ is_duplicate d now ks
unfolding check_and_mark
check_and_mark-is_duplicate d now ks = elim (Bool-cases (is_duplicate d now ks)) [
  | inl dup ↦ rw dup refl
  | inr new ↦ rw new refl
]

pub check_and_mark_new :
    (d : Deduper) (now : ℕ) (ks : List Text)
    → is_duplicate d now ks ≡ false
    → (check_and_mark d now ks).0 ≡ evict (mark_keys now ks d) (mark_keys now ks d).order
unfolding check_and_mark
check_and_mark_new d now ks new = rw new refl

-- a mark that is there and whose term runs answers yes
pub is_duplicate_of_mark :
    (d : Deduper) (now later : ℕ) (js : List Text) (k : Text)
    → is_empty k ≡ false
    → lookup k d.seen ≡ some now
    → later ≤ now + d.cfg.ttl
    → Mem k js
    → is_duplicate d later js ≡ true
unfolding is_duplicate is_marked
is_duplicate_of_mark d now later js k ne found soon asked =
    any_of_listed (λ j. not (is_empty j) && is_marked d.cfg.ttl later (lookup j d.seen)) k js
      ((listed_iff k js).1 asked) (rw ne (ap (is_marked d.cfg.ttl later) found ∙ ground arith))
