-- ===== src/Safety/Dedup/Remembers.antt =====
-- A mark of the older filter is good for its term, as long as all keys fit.
use dingtalk_channel_sdk_go.Prelude.{
  ltb, Bool-cases, length, All, Text, is_empty, listed, listed_iff, Map, lookup, remove, prune,
  keep_if, lookup-prune, ℕ, ◌+◌, ◌-◌, ◌≤◌, ◌≡◌, refl, sym, ap, subst, ◌∙◌, inl, inr, true, false,
  Bool, not, some, List, [], ◌∷◌, arith,
}
use mathlib.Core.List.{Mem}
use dingtalk_channel_sdk_go.Types.{DedupConfig}
use dingtalk_channel_sdk_go.Safety.Dedup.{
  Deduper, is_duplicate, mark_keys, evict, check_and_mark, sweep, dispose,
}
use dingtalk_channel_sdk_go.Safety.Dedup.Marks.{
  length-mark_keys, cfg-mark_keys, lookup-mark_keys, seen-evict, cfg-evict,
  check_and_mark-is_duplicate, check_and_mark_new, is_duplicate_of_mark,
}

-- A call of the filter, with its instant.
pub data Call : Type 0 where
  checks : ℕ → List Text → Call
  sweeps : ℕ → Call
  disposes : Call

unfoldable pub step : Deduper → Call → Deduper
step d (checks now ks) = (check_and_mark d now ks).0
step d (sweeps now) = sweep d now
step d disposes = dispose d

unfoldable pub run : Deduper → List Call → Deduper
run d [] = d
run d (c ∷ cs) = run (step d c) cs

-- the number of keys that are checked
unfoldable pub keys_of_all : List Call → ℕ
keys_of_all [] = 0
keys_of_all (checks now ks ∷ cs) = length ks + keys_of_all cs
keys_of_all (sweeps now ∷ cs) = keys_of_all cs
keys_of_all (disposes ∷ cs) = keys_of_all cs

abbrev pub IsBy : ℕ → Call → Type 0
IsBy end (checks now ks) = now ≤ end
IsBy end (sweeps now) = now ≤ end
IsBy end disposes = Unit

-- a filter that has the mark, and room for this many keys
abbrev Keeps : Text → ℕ → DedupConfig → ℕ → Deduper → Type 0
Keeps k now cfg room d =
    (lookup k d.seen ≡ some now) × (length d.seen + room ≤ cfg.max_entries) × (d.cfg ≡ cfg)

checked-Keeps :
    (k : Text) (now : ℕ) (cfg : DedupConfig) (room t : ℕ) (ks : List Text) (d : Deduper)
    → is_empty k ≡ false
    → t ≤ now + cfg.ttl
    → Keeps k now cfg (length ks + room) d
    → Keeps k now cfg room (check_and_mark d t ks).0
checked-Keeps k now cfg room t ks d ne soon (found, fits, same) =
    elim (Bool-cases (is_duplicate d t ks)) [
      | inl dup ↦ unfold check_and_mark in rw dup (found, omega (arith, fits), same)
      | inr new ↦ elim (Bool-cases (listed k ks)) [
        | inl there ↦
            let term : t ≤ now + d.cfg.ttl =
              subst {A = DedupConfig} (λ c. t ≤ now + c.ttl) (sym same) soon in
            let dup = is_duplicate_of_mark d now t ks k ne found term ((listed_iff k ks).0 there) in
            absurd (cc)
        | inr other ↦
            let m = mark_keys t ks d in
            let config : m.cfg ≡ cfg = cfg-mark_keys t ks d ∙ same in
            let limit : m.cfg.max_entries ≡ cfg.max_entries =
              ap {A = DedupConfig} (λ c. c.max_entries) config in
            let all : (evict m m.order).seen ≡ m.seen =
              seen-evict m m.order (omega (arith, limit, fits, length-mark_keys t ks d)) in
            subst {A = Deduper} (Keeps k now cfg room) (sym (check_and_mark_new d t ks new)) (
              ap (lookup k) all ∙ (lookup-mark_keys t ks k d ne ∙ rw other found),
              rw all (omega (arith, fits, length-mark_keys t ks d)),
              cfg-evict m m.order ∙ config,
            )
      ]
    ]

length-remove : {V : Type 0} (k : Text) (m : Map V) → length (remove k m) ≤ length m
unfolding remove
length-remove k [] = omega arith
length-remove k ((j, v) ∷ m) = ground (arith, length-remove k m)

length-prune : {V : Type 0} (test : V → Bool) (m : Map V) → length (prune test m) ≤ length m
unfolding prune
length-prune test [] = omega arith
length-prune test ((k, v) ∷ m) = ground (arith, length-prune test m, length-remove k (prune test m))

swept-Keeps :
    (k : Text) (now : ℕ) (cfg : DedupConfig) (room t : ℕ) (d : Deduper)
    → t ≤ now + cfg.ttl
    → Keeps k now cfg room d
    → Keeps k now cfg room (sweep d t)
unfolding sweep
swept-Keeps k now cfg room t d soon (found, fits, same) =
    let term : t ≤ now + d.cfg.ttl =
      subst {A = DedupConfig} (λ c. t ≤ now + c.ttl) (sym same) soon in
    let test : ℕ → Bool = λ ts. not (ltb d.cfg.ttl (t - ts)) in
    (
      lookup-prune test k d.seen ∙ (ap (keep_if test) found ∙ ground arith),
      omega (arith, fits, length-prune test d.seen),
      same,
    )

run-Keeps :
    (k : Text) (now : ℕ) (cfg : DedupConfig) (cs : List Call) (d : Deduper)
    → is_empty k ≡ false
    → All (IsBy (now + cfg.ttl)) cs
    → Keeps k now cfg (keys_of_all cs) d
    → Keeps k now cfg 0 (run d cs)
unfolding run step keys_of_all dispose
run-Keeps k now cfg [] d ne soon h = h
run-Keeps k now cfg (checks t ks ∷ cs) d ne (first, soon) h =
    run-Keeps k now cfg cs (check_and_mark d t ks).0 ne soon
      (checked-Keeps k now cfg (keys_of_all cs) t ks d ne first h)
run-Keeps k now cfg (sweeps t ∷ cs) d ne (first, soon) h =
    run-Keeps k now cfg cs (sweep d t) ne soon (swept-Keeps k now cfg (keys_of_all cs) t d first h)
run-Keeps k now cfg (disposes ∷ cs) d ne (first, soon) h =
    run-Keeps k now cfg cs (dispose d) ne soon h

-- A key is a duplicate from its mark until its term is over: after a check at `now` that found none of
-- its keys, and after any checks, sweeps and disposals up to the end of the term, a check up to then
-- with one of these keys, which is not empty, answers yes, if what the filter had and the keys of all
-- these checks fit into it, so that none is evicted.
pub check_and_mark_finds :
    (d : Deduper) (now later : ℕ) (ks js : List Text) (k : Text) (cs : List Call)
    → length d.seen + (length ks + keys_of_all cs) ≤ d.cfg.max_entries
    → (check_and_mark d now ks).1 ≡ false
    → All (IsBy (now + d.cfg.ttl)) cs
    → is_empty k ≡ false
    → Mem k ks
    → Mem k js
    → later ≤ now + d.cfg.ttl
    → (check_and_mark (run (check_and_mark d now ks).0 cs) later js).1 ≡ true
check_and_mark_finds d now later ks js k cs room new during ne marked asked soon =
    let m = mark_keys now ks d in
    let fresh = sym (check_and_mark-is_duplicate d now ks) ∙ new in
    let config = cfg-mark_keys now ks d in
    let limit : m.cfg.max_entries ≡ d.cfg.max_entries =
      ap {A = DedupConfig} (λ c. c.max_entries) config in
    let all : (evict m m.order).seen ≡ m.seen =
      seen-evict m m.order (omega (arith, limit, room, length-mark_keys now ks d)) in
    let first : Keeps k now d.cfg (keys_of_all cs) (check_and_mark d now ks).0 =
      subst {A = Deduper} (Keeps k now d.cfg (keys_of_all cs))
        (sym (check_and_mark_new d now ks fresh))
        (
          ap (lookup k) all
              ∙ (lookup-mark_keys now ks k d ne ∙ rw ((listed_iff k ks).1 marked) refl),
          rw all (omega (arith, room, length-mark_keys now ks d)),
          cfg-evict m m.order ∙ config,
        ) in
    let end = run (check_and_mark d now ks).0 cs in
    let (found, fits, same) =
      run-Keeps k now d.cfg cs (check_and_mark d now ks).0 ne during first in
    let term : later ≤ now + end.cfg.ttl =
      subst {A = DedupConfig} (λ c. later ≤ now + c.ttl) (sym same) soon in
    check_and_mark-is_duplicate end later js
    ∙ is_duplicate_of_mark end now later js k ne found term asked
