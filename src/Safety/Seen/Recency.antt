-- ===== src/Safety/Seen/Recency.antt =====
-- The cache as its users see it: keys with their expiry, in order of use, most recent first. Of each
-- operation this is what is left when the nodes and the map are forgotten.
use dingtalk_channel_sdk_go.Prelude.{
  ltb, if◌then◌else◌, take, Text, is_empty, Map, lookup, remove, ℕ, ◌+◌, Bool, true, false, not,
  ◌&&◌, Option, none, some, List, [], ◌∷◌,
}

abbrev pub Recency : Type 0
Recency = Map ℕ

-- A use of a key puts it in front and forgets what lies past the limit.
unfoldable pub note : ℕ → Text → ℕ → Recency → Recency
note limit k expires_at v = take limit ((k, expires_at) ∷ remove k v)

-- a key that is present and has not expired
unfoldable pub is_fresh : Option ℕ → ℕ → Bool
is_fresh none now = false
is_fresh (some expires_at) now = ltb now expires_at

abbrev pub knows : Recency → ℕ → Text → Bool
knows v now k = not (is_empty k) && is_fresh (lookup k v) now

-- `Has` in memory: expired keys that are met are forgotten, up to the first hit, which moves up.
unfoldable pub look : Recency → ℕ → List Text → Recency × Bool
look v now [] = (v, false)
look v now (k ∷ ks) = elim (if is_empty k then none else lookup k v) [
  | none ↦ look v now ks
  | some x ↦
      let missed = look (remove k v) now ks in
      if ltb now x then ((k, x) ∷ remove k v, true) else missed
]

unfoldable pub note_all : ℕ → ℕ → List Text → Recency → Recency
unfolding note
note_all limit expires_at [] v = v
note_all limit expires_at (k ∷ ks) v =
    note_all limit expires_at ks (if is_empty k then v else note limit k expires_at v)

-- the second layer: the first key that it has is noted
unfoldable pub look_remote : (Text → Bool) → ℕ → ℕ → Recency → List Text → Recency × Bool
unfolding note
look_remote exists limit x v [] = (v, false)
look_remote exists limit x v (k ∷ ks) =
    let next = look_remote exists limit x v ks in
    if not (is_empty k) && exists k then (note limit k x v, true) else next

-- both layers
unfoldable pub look_all : Option (Text → Bool) → ℕ → ℕ → Recency → ℕ → List Text → Recency × Bool
unfolding look look_remote
look_all redis limit ttl v now ks =
    let (v', hit) = look v now ks in
    if hit then (v', true) else elim redis [
      | none ↦ (v', false)
      | some exists ↦ look_remote exists limit (now + ttl) v' ks
    ]

-- keys that are not known are noted, all of them
unfoldable pub check : Option (Text → Bool) → ℕ → ℕ → Recency → ℕ → ℕ → List Text → Recency × Bool
unfolding look_all note_all
check redis limit ttl v now later ks =
    let (v', dup) = look_all redis limit ttl v now ks in
    if dup then (v', true) else (note_all limit (later + ttl) ks v', false)
