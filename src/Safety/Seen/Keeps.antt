-- ===== src/Safety/Seen/Keeps.antt =====
-- How long a mark lasts: any call moves it back by no more places than the call has keys.
use dingtalk_channel_sdk_go.Prelude.{
  ltb, Bool-cases, some_inj, length, take, any, Text, ◌==◌, eq_of_==, listed, lookup, remove, ℕ,
  suc, ◌+◌, ◌≤◌, ◌<◌, ◌≡◌, refl, sym, subst, ◌∙◌, ◌≢◌, inl, inr, true, false, some, List, [], ◌∷◌,
  arith,
}
use dingtalk_channel_sdk_go.Safety.Seen.Recency.{Recency, note, note_all}
use dingtalk_channel_sdk_go.Safety.Seen.Rank.{
  lookup-take-le, lookup-take-remove, lookup_of-take, lookup-note_self, lookup-note,
}

-- The key is among the first `n`, and expires no sooner than `x`.
abbrev pub IsMarked : Text → ℕ → ℕ → Recency → Type 0
IsMarked k x n v = (y : ℕ) × (lookup k (take n v) ≡ some y) × (x ≤ y)

module _ (k : Text) (x : ℕ) where
  pub longer : (n m : ℕ) (v : Recency) → n ≤ m → IsMarked k x n v → IsMarked k x m v
  longer n m v le (y, found, late) = (y, lookup-take-le n m k v le found, late)

  pub note-IsMarked :
      (limit n : ℕ) (j : Text) (z : ℕ) (v : Recency)
      → n < limit
      → x ≤ z
      → IsMarked k x n v
      → IsMarked k x (suc n) (note limit j z v)
  note-IsMarked limit n j z v h le (y, found, late) = elim (Bool-cases (j == k)) [
    | inl same ↦ longer 1 (suc n) (note limit j z v) (omega arith) (
      z,
      subst (λ t. lookup t (take 1 (note limit j z v)) ≡ some z) (eq_of_== j k same)
          (lookup-note_self limit j z v (omega arith)),
      le,
    )
    | inr other ↦ (y, lookup-note limit n j k z v other h found, late)
  ]

  pub note_all-IsMarked :
      (limit n z : ℕ) (ks : List Text) (v : Recency)
      → n + length ks ≤ limit
      → x ≤ z
      → IsMarked k x n v
      → IsMarked k x (n + length ks) (note_all limit z ks v)
  unfolding note_all
  note_all-IsMarked limit n z [] v h le m = longer n (n + 0) v (omega arith) m
  note_all-IsMarked limit n z ([] ∷ ks) v h le m =
      let rest = note_all-IsMarked limit n z ks v (omega arith) le m in
      longer (n + length ks) (n + suc (length ks)) (note_all limit z ks v) (omega arith) rest
  note_all-IsMarked limit n z ((c ∷ j) ∷ ks) v h le m =
      let w = note limit (c ∷ j) z v in
      let first = note-IsMarked limit n (c ∷ j) z v (omega arith) le m in
      longer (suc n + length ks) (n + suc (length ks)) (note_all limit z ks w) (omega arith)
        (note_all-IsMarked limit (suc n) z ks w (omega arith) le first)

  -- what is noted is marked
  pub noted-IsMarked :
      (limit : ℕ) (ks : List Text) (v : Recency)
      → length ks ≤ limit
      → k ≢ []
      → listed k ks ≡ true
      → IsMarked k x (length ks) (note_all limit x ks v)
  unfolding note_all listed any
  noted-IsMarked limit [] v h ne l = absurd (cc)
  noted-IsMarked limit ([] ∷ ks) v h ne l = elim (Bool-cases ([] == k)) [
    | inl here ↦ absurd (ne (sym (eq_of_== [] k here)))
    | inr there ↦
        longer (length ks) (suc (length ks)) (note_all limit x ks v) (omega arith)
          (noted-IsMarked limit ks v (omega arith) ne (rw there at l))
  ]
  noted-IsMarked limit ((c ∷ j) ∷ ks) v h ne l = elim (Bool-cases ((c ∷ j) == k)) [
    | inl here ↦
        let w = note limit (c ∷ j) x v in
        let first : IsMarked k x 1 w = (
          x,
          subst (λ t. lookup t (take 1 w) ≡ some x) (eq_of_== (c ∷ j) k here)
              (lookup-note_self limit (c ∷ j) x v (omega arith)),
          omega arith,
        ) in
        longer (1 + length ks) (suc (length ks)) (note_all limit x ks w) (omega arith)
          (note_all-IsMarked limit 1 x ks w (omega arith) (omega arith) first)
    | inr there ↦
        longer (length ks) (suc (length ks)) (note_all limit x ks (note limit (c ∷ j) x v))
          (omega arith)
          (noted-IsMarked limit ks (note limit (c ∷ j) x v) (omega arith) ne (rw there at l))
  ]

  -- forgetting an expired key does not touch a mark that runs
  pub remove-IsMarked :
      (n now z : ℕ) (j : Text) (v : Recency)
      → lookup j v ≡ some z
      → ltb now z ≡ false
      → now < x
      → IsMarked k x n v
      → IsMarked k x n (remove j v)
  remove-IsMarked n now z j v met old soon (y, found, late) = elim (Bool-cases (j == k)) [
    | inr other ↦ (y, lookup-take-remove n j k v other found, late)
    | inl same ↦
        let here : lookup j v ≡ some y =
          subst (λ t. lookup t v ≡ some y) (sym (eq_of_== j k same)) (lookup_of-take n k v found) in
        let e : z ≡ y = some_inj (sym met ∙ here) in absurd (ground arith)
  ]

  -- a key that is met and has not expired moves up
  pub moved-IsMarked :
      (n z : ℕ) (j : Text) (v : Recency)
      → lookup j v ≡ some z
      → IsMarked k x n v
      → IsMarked k x (suc n) ((j, z) ∷ remove j v)
  unfolding lookup
  moved-IsMarked n z j v met (y, found, late) = elim (Bool-cases (j == k)) [
    | inr other ↦ (y, rw other (lookup-take-remove n j k v other found), late)
    | inl same ↦
        let here : lookup j v ≡ some y =
          subst (λ t. lookup t v ≡ some y) (sym (eq_of_== j k same)) (lookup_of-take n k v found) in
        (z, rw same refl, subst (λ w. x ≤ w) (some_inj (sym here ∙ met)) late)
  ]
