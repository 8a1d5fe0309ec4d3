-- ===== src/Safety/Seen.antt =====
-- internal/safety/seen_cache.go: the duplicate cache, a map from keys to nodes of a list in order of
-- use. A node is known by the number under which it was allocated, as by its pointer; `redis`, the
-- second layer, is code that is not here: an answer for each key, and a record of what was written.
pub mod Entries
pub mod Invariant
pub mod Eviction
pub mod Recency
pub mod Views
pub mod Refinement
pub mod Lookups
pub mod Checks
pub mod Rank
pub mod Keeps
pub mod Sweeps
pub mod Runs
pub mod Answers
pub mod Searches
pub mod Remembers
use dingtalk_channel_sdk_go.Prelude.{
  ℕ, zero, suc, ◌+◌, ◌*◌, Bool, true, false, not, ◌&&◌, Option, none, some, List, [], ◌∷◌, ◌++◌,
  arith, ltb, eqb, if◌then◌else◌, is_some, length, last_of, Text, is_empty, Map, lookup, insert,
  remove,
}
use mathlib.Core.List.{reverse}
use dingtalk_channel_sdk_go.Types.{DedupConfig, minute}

-- a `list.Element` with its `cacheEntry`; instants are nanoseconds
pub record Element : Type 0 where
  pub node : ℕ
  pub key : Text
  pub expires_at : ℕ

-- `evict_list` is front first; `next_node` is fresh. `remote_writes` has the keys given to `SetEx`.
pub record SeenCache : Type 0 where
  pub cfg : DedupConfig
  pub items : Map ℕ
  pub evict_list : List Element
  pub next_node : ℕ
  pub remote_writes : List Text
  pub stopped : Bool

-- `fillDedupConfig`: a value that is 0 or less gets its default
unfoldable pub or_default : ℕ → ℕ → ℕ
or_default zero d = d
or_default (suc n) d = suc n

unfoldable pub fill_dedup_config : DedupConfig → DedupConfig
unfolding or_default
fill_dedup_config cfg = record {
  ttl = or_default cfg.ttl (720 * minute);
  max_entries = or_default cfg.max_entries 5000;
  sweep_interval = or_default cfg.sweep_interval (5 * minute);
}

unfoldable pub new_seen_cache : DedupConfig → SeenCache
unfolding fill_dedup_config
new_seen_cache cfg = record {
  cfg = fill_dedup_config cfg;
  items = [];
  evict_list = [];
  next_node = 0;
  remote_writes = [];
  stopped = false;
}

-- the element behind a pointer
unfoldable pub deref : ℕ → List Element → Option Element
deref n [] = none
deref n (e ∷ l) = if eqb e.node n then some e else deref n l

-- `evictList.Remove`
unfoldable pub unlink : ℕ → List Element → List Element
unlink n [] = []
unlink n (e ∷ l) = let rest = unlink n l in if eqb e.node n then rest else e ∷ rest

-- `evictList.MoveToFront`, with the entry as it is afterwards
unfoldable pub move_to_front : Element → List Element → List Element
unfolding unlink
move_to_front e l = e ∷ unlink e.node l

-- `elem, ok := sc.items[key]`, and the entry that it points to
unfoldable pub entry_of : SeenCache → Text → Option Element
entry_of sc key = elim (lookup key sc.items) [ none ↦ none | some n ↦ deref n sc.evict_list ]

-- `sc.evictList.Remove(elem)` and `delete(sc.items, key)`
unfoldable pub drop_entry : SeenCache → Element → SeenCache
unfolding unlink
drop_entry sc e = record sc {
  items = remove e.key sc.items;
  evict_list = unlink e.node sc.evict_list;
}

-- the eviction loop: while the list is longer than the limit, its last entry goes
unfoldable pub evict : ℕ → SeenCache → SeenCache
unfolding drop_entry
evict zero sc = sc
evict (suc fuel) sc =
    let rest = λ (e : Element). evict fuel (drop_entry sc e) in
    if ltb sc.cfg.max_entries (length sc.evict_list)
    then elim sc.evict_list [ [] ↦ sc | e ∷ l ↦ rest (last_of e l) ]
    else sc

unfoldable pub add_to_memory : SeenCache → Text → ℕ → SeenCache
add_to_memory sc key expires_at = elim (entry_of sc key) [
  | some e ↦ record sc {
    evict_list = move_to_front (record e { expires_at = expires_at }) sc.evict_list;
  }
  | none ↦
      let e : Element = record { node = sc.next_node; key = key; expires_at = expires_at } in
      evict (suc (length sc.evict_list)) (record sc {
        items = insert key sc.next_node sc.items;
        evict_list = e ∷ sc.evict_list;
        next_node = suc sc.next_node;
      })
]

-- The memory layer of `Has`. A hit moves the entry to the front, and an entry that has expired goes.
unfoldable pub has_memory : SeenCache → ℕ → List Text → SeenCache × Bool
has_memory sc now [] = (sc, false)
has_memory sc now (key ∷ keys) = elim (if is_empty key then none else entry_of sc key) [
  | none ↦ has_memory sc now keys
  | some e ↦
      let missed = has_memory (drop_entry sc e) now keys in
      if ltb now e.expires_at
      then (record sc { evict_list = move_to_front e sc.evict_list }, true)
      else missed
]

-- The second layer: the first key that it knows is written back to the memory.
unfoldable pub has_remote : (Text → Bool) → SeenCache → ℕ → List Text → SeenCache × Bool
has_remote exists sc now [] = (sc, false)
has_remote exists sc now (key ∷ keys) =
    let next = has_remote exists sc now keys in
    if not (is_empty key) && exists key
    then (add_to_memory sc key (now + sc.cfg.ttl), true)
    else next

-- `Has`; `redis` is what the second layer answers, if there is one
unfoldable pub has : Option (Text → Bool) → SeenCache → ℕ → List Text → SeenCache × Bool
has redis sc now keys =
    let (sc', hit) = has_memory sc now keys in
    if hit
    then (sc', true)
    else elim redis [ none ↦ (sc', false) | some exists ↦ has_remote exists sc' now keys ]

-- the loop of `Add`; `remote` says whether there is a second layer
unfoldable pub add_keys : Bool → SeenCache → ℕ → List Text → SeenCache
add_keys remote sc expires_at [] = sc
add_keys remote sc expires_at (key ∷ keys) =
    let added = add_to_memory sc key expires_at in
    let noted = record added { remote_writes = added.remote_writes ++ (key ∷ []) } in
    add_keys remote (if is_empty key then sc else (if remote then noted else added)) expires_at keys

unfoldable pub add : Bool → SeenCache → ℕ → List Text → SeenCache
add remote sc now keys = add_keys remote sc (now + sc.cfg.ttl) keys

-- `CheckAndMark` when no other goroutine comes between `Has`, at `now`, and `Add`, at `later`.
unfoldable pub check_and_mark :
    Option (Text → Bool) → SeenCache → ℕ → ℕ → List Text → SeenCache × Bool
check_and_mark redis sc now later keys =
    let (sc', dup) = has redis sc now keys in
    if dup then (sc', true) else (add (is_some redis) sc' later keys, false)

-- `sweep`: from the back, up to the first entry that has not expired
unfoldable pub sweep_back : ℕ → SeenCache → List Element → SeenCache
sweep_back now sc [] = sc
sweep_back now sc (e ∷ older) =
    let swept = sweep_back now (drop_entry sc e) older in if ltb now e.expires_at then sc else swept

unfoldable pub sweep : SeenCache → ℕ → SeenCache
unfolding sweep_back
sweep sc now = sweep_back now sc (reverse sc.evict_list)

-- `Dispose` stops the sweeper; a second call does nothing more to the memory.
unfoldable pub dispose : SeenCache → SeenCache
dispose sc = record sc { stopped = true }
