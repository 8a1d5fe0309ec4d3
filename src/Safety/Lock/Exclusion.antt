-- ===== src/Safety/Lock/Exclusion.antt =====
-- What the lock promises: until it expires, only a release of the same id lets another caller in.
use dingtalk_channel_sdk_go.Prelude.{
  ℕ, ◌+◌, ◌≤◌, ◌≡◌, ap, ◌≢◌, Bool, true, false, not, List, [], ◌∷◌, arith, ltb, leb, if◌then◌else◌,
  Text, ◌==◌, ==_iff, lookup, lookup-insert, lookup-remove, lookup-prune,
}
use dingtalk_channel_sdk_go.Safety.Lock.{
  ProcessingLock, unix_milli, is_live, acquire, release, sweep,
}

-- The lock on an id is held at `now`.
abbrev pub held : ProcessingLock → ℕ → Text → Bool
held pl now id = is_live (lookup id pl.locks) (unix_milli now)

-- `acquire` succeeds exactly if the id is not held, and then the id is held for the term and
-- nothing else changes; a refused call changes nothing.
pub acquire_lem :
    (pl : ProcessingLock) (now : ℕ) (id : Text)
    → ((acquire pl now id).1 ≡ not (held pl now id))
      × ((acquire pl now id).1 ≡ false → (acquire pl now id).0 ≡ pl)
      × ((acquire pl now id).1 ≡ true
          → (later : ℕ) (other : Text)
          → held (acquire pl now id).0 later other ≡ (
              if id == other
              then ltb (unix_milli later) (unix_milli now + pl.ttl_ms)
              else held pl later other))
unfolding acquire is_live
acquire_lem pl now id = (
  ground arith,
  ground arith,
  λ ok later other. ground (arith, lookup-insert id other (unix_milli now + pl.ttl_ms) pl.locks),
)

-- `release` frees its id and touches no other.
pub held-release :
    (pl : ProcessingLock) (now : ℕ) (id other : Text)
    → held (release pl id) now other ≡ (if id == other then false else held pl now other)
unfolding release is_live
held-release pl now id other = ground (arith, lookup-remove id other pl.locks)

-- A sweep is not seen by any later call.
pub held-sweep :
    (pl : ProcessingLock) (now later : ℕ) (id : Text)
    → now ≤ later
    → held (sweep pl now) later id ≡ held pl later id
unfolding sweep is_live
held-sweep pl now later id h =
    ground (arith, lookup-prune (λ exp. not (leb exp (unix_milli now))) id pl.locks)

-- What other goroutines may do while a lock is held, each call at its instant.
pub data Call : Type 0 where
  acquires releases : Text → Call
  sweeps : Call

unfoldable pub step : ProcessingLock → ℕ × Call → ProcessingLock
step pl (now, acquires id) = (acquire pl now id).0
step pl (now, releases id) = release pl id
step pl (now, sweeps) = sweep pl now

unfoldable pub run : ProcessingLock → List (ℕ × Call) → ProcessingLock
run pl [] = pl
run pl (c ∷ cs) = run (step pl c) cs

-- The call comes no later than `limit`, and does not release `id`.
abbrev pub Respects : ℕ → Text → ℕ × Call → Type 0
Respects limit id (now, acquires other) = now ≤ limit
Respects limit id (now, releases other) = (now ≤ limit) × (other ≢ id)
Respects limit id (now, sweeps) = now ≤ limit

-- A lock that is held at some instant was held at any earlier one since.
pub held_earlier :
    (pl : ProcessingLock) (now later : ℕ) (id : Text)
    → now ≤ later
    → held pl later id ≡ true
    → held pl now id ≡ true
unfolding is_live
held_earlier pl now later id h e = ground arith

pub held-step :
    (pl : ProcessingLock) (limit : ℕ) (id : Text) (c : ℕ × Call)
    → Respects limit id c
    → held pl limit id ≡ true
    → held (step pl c) limit id ≡ true
unfolding step acquire is_live
held-step pl limit id (now, acquires other) h e = ground (
  arith,
  lookup-insert other id (unix_milli now + pl.ttl_ms) pl.locks,
  ==_iff other id,
  ap (λ k. is_live (lookup k pl.locks) (unix_milli now)) {x = other} {y = id},
)
held-step pl limit id (now, releases other) (h, ne) e =
    rw held-release (ground (arith, ==_iff other id))
held-step pl limit id (now, sweeps) h e = rw (held-sweep pl now limit id h) e
