-- ===== src/Prelude/Maps.antt =====
-- Go maps with string keys, as association lists.
use mathlib.Core.Path.{◌≡◌, refl}
use mathlib.Core.Bool.{Bool}
use mathlib.Core.List.{List, [], ◌∷◌}
use mathlib.Core.Option.{Option, none, some}
use native.Mathlib.Omega.{arith}
use dingtalk_channel_sdk_go.Prelude.Tests.{if◌then◌else◌}
use dingtalk_channel_sdk_go.Prelude.Strings.{Text, ◌==◌, ==_iff}

abbrev pub Map {ℓ} : Type ℓ → Type ℓ
Map V = List (Text × V)

module _ {ℓ} {V : Type ℓ} where
  -- `v, ok := m[k]`
  unfoldable pub lookup : Text → Map V → Option V
  lookup k [] = none
  lookup k ((j, v) ∷ m) = if j == k then some v else lookup k m

  -- `m[k] = v`
  unfoldable pub insert : Text → V → Map V → Map V
  insert key val [] = (key, val) ∷ []
  insert key val (entry ∷ rest) =
      if entry.0 == key then (key, val) ∷ rest else entry ∷ insert key val rest

  -- `delete(m, k)`
  unfoldable pub remove : Text → Map V → Map V
  remove k [] = []
  remove k ((j, w) ∷ m) = if j == k then remove k m else (j, w) ∷ remove k m

  -- what a key holds after a write
  pub lookup-insert :
      (key other : Text) (val : V) (m : Map V)
      → lookup other (insert key val m) ≡ (if key == other then some val else lookup other m)
  unfolding lookup insert
  lookup-insert key other val ((first, w) ∷ rest) =
      let ih = lookup-insert key other val rest in
      ground (arith, ==_iff first other, ==_iff first key, ==_iff key other, ih)
  lookup-insert key other val [] = refl

  -- what a key holds after a delete
  pub lookup-remove :
      (k j : Text) (m : Map V) → lookup j (remove k m) ≡ (if k == j then none else lookup j m)
  unfolding lookup remove
  lookup-remove k j [] = ground arith
  lookup-remove k j ((i, w) ∷ m) =
      ground (arith, ==_iff k j, ==_iff i k, ==_iff i j, lookup-remove k j m)

-- The value of a key, if it passes a test.
abbrev pub keep_if {ℓ} : {V : Type ℓ} → (V → Bool) → Option V → Option V
keep_if test none = none
keep_if test (some v) = if test v then some v else none

module _ {ℓ} {V : Type ℓ} where
  -- `for k, v := range m { if !test(v) { delete(m, k) } }`
  unfoldable pub prune : (V → Bool) → Map V → Map V
  prune test [] = []
  prune test ((k, v) ∷ m) =
      let rest = prune test m in if test v then (k, v) ∷ rest else remove k rest

  -- what a key holds after the entries that fail the test are deleted
  pub lookup-prune :
      (test : V → Bool) (j : Text) (m : Map V) → lookup j (prune test m) ≡ keep_if test (lookup j m)
  unfolding lookup prune
  lookup-prune test j [] = refl
  lookup-prune test j ((k, v) ∷ m) =
      ground (arith, lookup-prune test j m, lookup-remove k j (prune test m))
