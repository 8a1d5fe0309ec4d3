-- ===== src/Safety/Seen/Rank.antt =====
-- How far a noted key can fall back: by at most one place for each key that is noted after it.
use dingtalk_channel_sdk_go.Prelude.{
  Bool-cases, take, Text, ◌==◌, ==_refl, eq_of_==, lookup, remove, ℕ, zero, suc, ◌≤◌, ◌<◌, ◌≡◌,
  refl, sym, ap, subst, inl, inr, false, some, [], ◌∷◌, arith,
}
use dingtalk_channel_sdk_go.Safety.Seen.Recency.{Recency, note}

-- what a prefix has is in every longer prefix
pub lookup-take-le :
    (n m : ℕ) (k : Text) (v : Recency) {x : ℕ}
    → n ≤ m
    → lookup k (take n v) ≡ some x
    → lookup k (take m v) ≡ some x
unfolding lookup
lookup-take-le zero m k v le h = absurd (cc)
lookup-take-le (suc n) zero k v le h = absurd (omega arith)
lookup-take-le (suc n) (suc m) k [] le h = h
lookup-take-le (suc n) (suc m) k ((j, y) ∷ v) {x} le h = elim (Bool-cases (j == k)) [
  | inl hit ↦ rw hit (rw hit at h)
  | inr miss ↦ rw miss (lookup-take-le n m k v (omega arith) (rw miss at h))
]

pub lookup_of-take :
    (n : ℕ) (k : Text) (v : Recency) {x : ℕ} → lookup k (take n v) ≡ some x → lookup k v ≡ some x
unfolding lookup
lookup_of-take zero k v h = absurd (cc)
lookup_of-take (suc n) k [] h = h
lookup_of-take (suc n) k ((j, y) ∷ v) h = elim (Bool-cases (j == k)) [
  | inl hit ↦ rw hit (rw hit at h)
  | inr miss ↦ rw miss (lookup_of-take n k v (rw miss at h))
]

-- removing another key moves no key back
pub lookup-take-remove :
    (n : ℕ) (k j : Text) (v : Recency) {x : ℕ}
    → (k == j) ≡ false
    → lookup j (take n v) ≡ some x
    → lookup j (take n (remove k v)) ≡ some x
unfolding lookup remove
lookup-take-remove zero k j v ne h = absurd (cc)
lookup-take-remove (suc n) k j [] ne h = h
lookup-take-remove (suc n) k j ((i, y) ∷ v) ne h = elim (Bool-cases (i == k)) [
  | inl hit ↦
      let other : (i == j) ≡ false = subst (λ t. (t == j) ≡ false) (sym (eq_of_== i k hit)) ne in
      rw hit (
        lookup-take-le n (suc n) j (remove k v) (omega arith)
          (lookup-take-remove n k j v ne (rw other at h)))
  | inr miss ↦ rw miss (elim (Bool-cases (i == j)) [
    | inl found ↦ rw found (rw found at h)
    | inr next ↦ rw next (lookup-take-remove n k j v ne (rw next at h))
  ])
]

take-take : (n m : ℕ) (v : Recency) → n ≤ m → take n (take m v) ≡ take n v
take-take zero m v h = refl
take-take (suc n) zero v h = absurd (omega arith)
take-take (suc n) (suc m) [] h = refl
take-take (suc n) (suc m) (e ∷ v) h = ap (◌∷◌ e) (take-take n m v (omega arith))

-- The key that is noted comes first.
pub lookup-note_self :
    (limit : ℕ) (k : Text) (x : ℕ) (v : Recency)
    → 0 < limit
    → lookup k (take 1 (note limit k x v)) ≡ some x
unfolding note
lookup-note_self limit k x v h =
    rw (take-take 1 limit ((k, x) ∷ remove k v) h) (unfold lookup in rw (==_refl k) refl)

-- Any other falls back by one place at most.
pub lookup-note :
    (limit n : ℕ) (k j : Text) (x : ℕ) (v : Recency) {y : ℕ}
    → (k == j) ≡ false
    → n < limit
    → lookup j (take n v) ≡ some y
    → lookup j (take (suc n) (note limit k x v)) ≡ some y
unfolding note
lookup-note limit n k j x v other h found =
    rw (take-take (suc n) limit ((k, x) ∷ remove k v) h)
      (unfold lookup in rw other (lookup-take-remove n k j v other found))
