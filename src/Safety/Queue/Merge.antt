-- ===== src/Safety/Queue/Merge.antt =====
-- What a merged message holds of its sources.
use dingtalk_channel_sdk_go.Prelude.{
  Bool-cases, any, All, Text, ◌==◌, ==_refl, eq_of_==, listed, ◌≡◌, refl, ap, ◌∙◌, inl, inr, Bool,
  true, false, not, ◌&&◌, ◌||◌, List, [], ◌∷◌, arith,
}
use dingtalk_channel_sdk_go.Types.{IncomingMessage}
use dingtalk_channel_sdk_go.Safety.Queue.{
  first_by, mention_key, all_resources, all_mentions, merge_batch_messages,
}

-- No two elements have the same key.
abbrev pub DistinctBy : {A : Type 0} → (A → Text) → List A → Type 0
DistinctBy key [] = Unit
DistinctBy key (x ∷ xs) = All (λ y. (key x == key y) ≡ false) xs × DistinctBy key xs

-- the keys that occur
abbrev pub has_key : {A : Type 0} → (A → Text) → Text → List A → Bool
has_key key k xs = any (λ x. key x == k) xs

listed_cons : (k x : Text) (xs : List Text) → listed k (x ∷ xs) ≡ (x == k || listed k xs)
unfolding listed any
listed_cons k x xs = refl

listed_== : (k j : Text) (seen : List Text) → (j == k) ≡ true → listed j seen ≡ listed k seen
listed_== k j seen e = ap (λ t. listed t seen) (eq_of_== j k e)

module _ {A : Type 0} (key : A → Text) where
  first_by_avoids :
      (seen : List Text) (k : Text) (xs : List A)
      → listed k seen ≡ true
      → All (λ y. (k == key y) ≡ false) (first_by key seen xs)
  unfolding first_by
  first_by_avoids seen k [] h = tt
  first_by_avoids seen k (x ∷ xs) h = elim (Bool-cases (listed (key x) seen)) [
    | inl old ↦ rw old (first_by_avoids seen k xs h)
    | inr new ↦ rw new (
      ground (arith, listed_== (key x) k seen),
      first_by_avoids (key x ∷ seen) k xs (ground (arith, listed_cons k (key x) seen)),
    )
  ]

  pub first_by-DistinctBy : (seen : List Text) (xs : List A) → DistinctBy key (first_by key seen xs)
  unfolding first_by
  first_by-DistinctBy seen [] = tt
  first_by-DistinctBy seen (x ∷ xs) = elim (Bool-cases (listed (key x) seen)) [
    | inl old ↦ rw old (first_by-DistinctBy seen xs)
    | inr new ↦ rw new (
      first_by_avoids (key x ∷ seen) (key x) xs
          (ground (arith, listed_cons (key x) (key x) seen, ==_refl (key x))),
      first_by-DistinctBy (key x ∷ seen) xs,
    )
  ]

  -- a key occurs in the result exactly if it occurs at all and was not seen before
  pub has_key-first_by :
      (seen : List Text) (k : Text) (xs : List A)
      → has_key key k (first_by key seen xs) ≡ (not (listed k seen) && has_key key k xs)
  unfolding first_by any
  has_key-first_by seen k [] = ground arith
  has_key-first_by seen k (x ∷ xs) = elim (Bool-cases (listed (key x) seen)) [
    | inl old ↦ rw old (ground (arith, has_key-first_by seen k xs, listed_== k (key x) seen))
    | inr new ↦ rw new (
        ground (
          arith,
          has_key-first_by (key x ∷ seen) k xs,
          listed_== k (key x) seen,
          listed_cons k (key x) seen,
        ))
  ]

unseen : (k : Text) (b : Bool) → (not (listed k []) && b) ≡ b
unfolding listed any
unseen k b = refl

-- In the message that a batch of two or more becomes, each download code and each mentioned user that
-- occurs in the batch occurs once, and no other occurs.
pub merge-DistinctBy :
    (m m' : IncomingMessage) (ms : List IncomingMessage)
    → let batch = m ∷ m' ∷ ms in
      let merged = merge_batch_messages m (m' ∷ ms) in
      DistinctBy (λ r. r.download_code) merged.resources
      × ((k : Text)
          → has_key (λ r. r.download_code) k merged.resources
            ≡ has_key (λ r. r.download_code) k (all_resources batch))
      × DistinctBy mention_key merged.mentions
      × ((k : Text)
          → has_key mention_key k merged.mentions ≡ has_key mention_key k (all_mentions batch))
unfolding merge_batch_messages
merge-DistinctBy m m' ms =
    let batch = m ∷ m' ∷ ms in
    (
      first_by-DistinctBy (λ r. r.download_code) [] (all_resources batch),
      λ k. has_key-first_by (λ r. r.download_code) [] k (all_resources batch) ∙ unseen k _,
      first_by-DistinctBy mention_key [] (all_mentions batch),
      λ k. has_key-first_by mention_key [] k (all_mentions batch) ∙ unseen k _,
    )
