-- ===== src/Safety/Dedup.antt =====
-- internal/safety/dedup.go, the older filter of duplicates. Each operation holds the mutex, so it is
-- one step. `seen` has the instant of the mark, in nanoseconds, and `order` the keys as they came.
pub mod Marks
pub mod Remembers
use dingtalk_channel_sdk_go.Prelude.{
  ltb, leb, if◌then◌else◌, is_some, length, any, Text, is_empty, Map, lookup, insert, remove, prune,
  ℕ, zero, suc, ◌-◌, ◌*◌, Bool, true, false, not, ◌&&◌, Option, none, some, List, [], ◌∷◌, ◌++◌,
  arith,
}
use dingtalk_channel_sdk_go.Types.{DedupConfig, minute}

pub record Deduper : Type 0 where
  pub cfg : DedupConfig
  pub seen : Map ℕ
  pub order : List Text
  pub stopped : Bool

-- `NewDeduperWithConfig`; `default_ttl` is `DefaultDedupTTL`
unfoldable pub new_deduper_with_config : ℕ → DedupConfig → Deduper
new_deduper_with_config default_ttl cfg = record {
  cfg = record {
    ttl = if leb cfg.ttl 0 then default_ttl else cfg.ttl;
    max_entries = if leb cfg.max_entries 0 then 10000 else cfg.max_entries;
    sweep_interval = if leb cfg.sweep_interval 0 then 5 * minute else cfg.sweep_interval;
  };
  seen = [];
  order = [];
  stopped = false;
}

-- `ok && now.Sub(ts) <= d.cfg.TTL`; the difference is negative, so below, if the mark is later
unfoldable pub is_marked : ℕ → ℕ → Option ℕ → Bool
is_marked ttl now none = false
is_marked ttl now (some ts) = leb (now - ts) ttl

unfoldable pub is_duplicate : Deduper → ℕ → List Text → Bool
unfolding any is_marked
is_duplicate d now keys =
    any (λ k. not (is_empty k) && is_marked d.cfg.ttl now (lookup k d.seen)) keys

unfoldable pub mark_key : ℕ → Text → Deduper → Deduper
mark_key now k d = if is_empty k then d else record d {
  order = if is_some (lookup k d.seen) then d.order else d.order ++ (k ∷ []);
  seen = insert k now d.seen;
}

unfoldable pub mark_keys : ℕ → List Text → Deduper → Deduper
mark_keys now [] d = d
mark_keys now (k ∷ ks) d = mark_keys now ks (mark_key now k d)

-- the eviction loop, on the keys in order
unfoldable pub evict : Deduper → List Text → Deduper
evict d [] = record d { order = [] }
evict d (oldest ∷ rest) =
    let next = evict (record d { seen = remove oldest d.seen }) rest in
    if ltb d.cfg.max_entries (length d.seen) then next else record d { order = oldest ∷ rest }

unfoldable pub check_and_mark : Deduper → ℕ → List Text → Deduper × Bool
check_and_mark d now keys =
    let marked = mark_keys now keys d in
    if is_duplicate d now keys then (d, true) else (evict marked marked.order, false)

unfoldable pub keys_of : Map ℕ → List Text
keys_of [] = []
keys_of ((k, ts) ∷ m) = k ∷ keys_of m

-- `sweep`; the order is that in which a `range` meets the keys, which may be any
unfoldable pub sweep : Deduper → ℕ → Deduper
unfolding keys_of
sweep d now =
    let kept = prune (λ ts. not (ltb d.cfg.ttl (now - ts))) d.seen in
    record d { seen = kept; order = keys_of kept }

unfoldable pub dispose : Deduper → Deduper
dispose d = record d { stopped = true }
