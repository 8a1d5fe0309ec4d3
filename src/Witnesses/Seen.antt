-- ===== src/Witnesses/Seen.antt =====
-- internal/safety/seen_cache.go and processing_lock.go at concrete inputs.
use dingtalk_channel_sdk_go.Prelude.{
  any, Text, bytes, ◌==◌, listed, lookup, insert, remove, ◌≡◌, refl, true, false, none, List, [],
  ◌∷◌, map, arith,
}
use mathlib.Core.List.{mem-cons_self}
use dingtalk_channel_sdk_go.Types.{DedupConfig}
use dingtalk_channel_sdk_go.Safety.Seen.{
  SeenCache, fill_dedup_config, new_seen_cache, entry_of, drop_entry, move_to_front, unlink, deref,
  evict, add_to_memory, has_memory, has_remote, has, add_keys, add, check_and_mark, sweep,
}
use dingtalk_channel_sdk_go.Safety.Seen.Invariant.{IsValid}
use dingtalk_channel_sdk_go.Safety.Seen.Views.{view}
use dingtalk_channel_sdk_go.Safety.Seen.Recency.{check}
use dingtalk_channel_sdk_go.Safety.Seen.Lookups.{Agrees}
use dingtalk_channel_sdk_go.Safety.Seen.Checks.{check_and_mark-Agrees}
use dingtalk_channel_sdk_go.Safety.Seen.Remembers.{keys_in, keys_of, check_and_mark_remembers}
use dingtalk_channel_sdk_go.Safety.Seen.Sweeps.{SameFrom, sweep_unseen}
use dingtalk_channel_sdk_go.Safety.Seen.Runs.{
  Call, looks, adds, checks, sweeps, step, run, run-IsValid,
}

-- what a run on a concrete input unfolds, under one name
program : Unit {0}
unfolding fill_dedup_config new_seen_cache entry_of drop_entry move_to_front unlink deref evict
    add_to_memory has_memory has_remote has add_keys add check_and_mark lookup insert remove bytes
    ◌==◌ any listed
program = tt

abbrev small : DedupConfig
small = record { ttl = 100; max_entries = 2; sweep_interval = 10 }

abbrev key_a : Text
key_a = 97 ∷ []

abbrev key_b : Text
key_b = 98 ∷ []

-- A cache for two keys after three checks: the oldest key is gone.
abbrev three_checks : List Call
three_checks =
    checks none 0 0 (key_a ∷ [])
    ∷ checks none 5 5 (key_b ∷ [])
    ∷ checks none 9 9 ((99 ∷ []) ∷ [])
    ∷ []

abbrev used : SeenCache
used = run (new_seen_cache small) three_checks

runs_used :
    (map (λ e. e.0) (view used.evict_list) ≡ (99 ∷ []) ∷ key_b ∷ [])
    × ((has none used 20 (key_a ∷ [])).1 ≡ false)
    × ((has none used 20 (key_a ∷ key_b ∷ [])).1 ≡ true)
    × ((has none used 200 (key_b ∷ [])).1 ≡ false)
unfolding program run step
runs_used = (refl, refl, refl, refl)

run-IsValid_example : IsValid (run (new_seen_cache small) three_checks)
run-IsValid_example = run-IsValid small three_checks

check_and_mark-Agrees_example :
    Agrees used
      (check_and_mark none used 20 21 (key_a ∷ []))
      (check none used.cfg.max_entries used.cfg.ttl (view used.evict_list) 20 21 (key_a ∷ []))
check_and_mark-Agrees_example =
    check_and_mark-Agrees none used 20 21 (key_a ∷ []) run-IsValid_example

sweep_unseen_example : IsValid (sweep used 107) × SameFrom 107 used (sweep used 107)
sweep_unseen_example = sweep_unseen used 107 run-IsValid_example

-- In a cache for five keys, two other keys are marked and the sweeper runs.
abbrev roomy : SeenCache
roomy = run (new_seen_cache (record small { max_entries = 5 })) three_checks

abbrev meanwhile : List Call
meanwhile =
    checks none 30 31 (key_b ∷ (100 ∷ []) ∷ [])
    ∷ sweeps 40
    ∷ looks none 45 ((99 ∷ []) ∷ [])
    ∷ adds false 46 ((101 ∷ []) ∷ [])
    ∷ []

check_and_mark_remembers_example :
    (check_and_mark none
      (run (check_and_mark none roomy 20 21 ((102 ∷ []) ∷ [])).0 meanwhile)
      50
      50
      ((102 ∷ []) ∷ [])).1
    ≡ true
unfolding program run step keys_of keys_in
check_and_mark_remembers_example =
    check_and_mark_remembers none none roomy 20 21 50 50 ((102 ∷ []) ∷ []) ((102 ∷ []) ∷ [])
      (102 ∷ []) meanwhile (run-IsValid (record small { max_entries = 5 }) three_checks) refl
      (omega arith)
      (
        (omega arith, omega arith, omega arith),
        (omega arith, ((omega arith, omega arith), ((omega arith, omega arith), tt))),
      )
      (λ e. cc) mem-cons_self mem-cons_self (omega arith)
