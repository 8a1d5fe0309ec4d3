-- ===== src/Safety/Seen/Runs.antt =====
-- Every cache that a sequence of calls can lead to.
use dingtalk_channel_sdk_go.Prelude.{Text, lookup, ℕ, ◌+◌, refl, Bool, Option, List, [], ◌∷◌, arith}
use dingtalk_channel_sdk_go.Safety.Seen.{
  SeenCache, new_seen_cache, has, add, check_and_mark, sweep, dispose,
}
use dingtalk_channel_sdk_go.Safety.Seen.Entries.{find_key}
use dingtalk_channel_sdk_go.Safety.Seen.Invariant.{IsValid}
use dingtalk_channel_sdk_go.Safety.Seen.Checks.{has-Agrees, add_keys-Yields, check_and_mark-Agrees}
use dingtalk_channel_sdk_go.Safety.Seen.Sweeps.{sweep_unseen}
use dingtalk_channel_sdk_go.Types.{DedupConfig}

-- A call, with the instants at which it reads the clock and what the second layer answers.
pub data Call : Type 0 where
  looks : Option (Text → Bool) → ℕ → List Text → Call
  adds : Bool → ℕ → List Text → Call
  checks : Option (Text → Bool) → ℕ → ℕ → List Text → Call
  sweeps : ℕ → Call
  disposes : Call

unfoldable pub step : SeenCache → Call → SeenCache
step sc (looks redis now ks) = (has redis sc now ks).0
step sc (adds remote now ks) = add remote sc now ks
step sc (checks redis now later ks) = (check_and_mark redis sc now later ks).0
step sc (sweeps now) = sweep sc now
step sc disposes = dispose sc

unfoldable pub run : SeenCache → List Call → SeenCache
run sc [] = sc
run sc (c ∷ cs) = run (step sc c) cs

pub new-IsValid : (cfg : DedupConfig) → IsValid (new_seen_cache cfg)
unfolding new_seen_cache lookup find_key
new-IsValid cfg = record {
  linked = record { agrees = λ k. refl; distinct = tt; fresh = tt };
  bounded = omega arith;
}

pub step-IsValid : (sc : SeenCache) (c : Call) → IsValid sc → IsValid (step sc c)
unfolding step add dispose
step-IsValid sc (looks redis now ks) h = (has-Agrees redis sc now ks h).0.0
step-IsValid sc (adds remote now ks) h = (add_keys-Yields remote sc (now + sc.cfg.ttl) ks h).0
step-IsValid sc (checks redis now later ks) h = (check_and_mark-Agrees redis sc now later ks h).0.0
step-IsValid sc (sweeps now) h = (sweep_unseen sc now h).0
step-IsValid sc disposes h = record {
  linked = record {
    agrees = h.linked.agrees;
    distinct = h.linked.distinct;
    fresh = h.linked.fresh;
  };
  bounded = h.bounded;
}

run_of-IsValid : (cs : List Call) (sc : SeenCache) → IsValid sc → IsValid (run sc cs)
unfolding run
run_of-IsValid [] sc h = h
run_of-IsValid (c ∷ cs) sc h = run_of-IsValid cs (step sc c) (step-IsValid sc c h)

-- Whatever calls are made on a new cache, in any order and at any instants: the map and the list
-- agree, no key and no node occurs twice, and the list is no longer than the limit.
pub run-IsValid : (cfg : DedupConfig) (cs : List Call) → IsValid (run (new_seen_cache cfg) cs)
run-IsValid cfg cs = run_of-IsValid cs (new_seen_cache cfg) (new-IsValid cfg)
