-- ===== src/Safety/Seen/Answers.antt =====
-- What callers learn from the cache: which keys are duplicates.
use dingtalk_channel_sdk_go.Prelude.{
  ltb, Bool-cases, Option-cases, any, Text, ◌==◌, eq_of_==, listed, lookup, remove, lookup-remove,
  ℕ, ◌≡◌, refl, sym, ap, subst, ◌∙◌, inl, inr, Bool, true, false, Option, none, List, [], ◌∷◌,
  arith,
}
use mathlib.Core.Path.{fun_ext}
use dingtalk_channel_sdk_go.Safety.Seen.{SeenCache, has}
use dingtalk_channel_sdk_go.Safety.Seen.Invariant.{IsValid}
use dingtalk_channel_sdk_go.Safety.Seen.Views.{view}
use dingtalk_channel_sdk_go.Safety.Seen.Recency.{Recency, knows, is_fresh, look, look_all, check}
use dingtalk_channel_sdk_go.Safety.Seen.Checks.{has-Agrees}
use dingtalk_channel_sdk_go.Safety.Seen.Lookups.{look_lem}

-- forgetting an expired key changes no answer
pub knows-remove :
    (v : Recency) (now : ℕ) (k : Text)
    → is_fresh (lookup k v) now ≡ false
    → (j : Text) → knows (remove k v) now j ≡ knows v now j
knows-remove v now k old j = elim (Bool-cases (k == j)) [
  | inl same ↦ rw (lookup-remove k j v) (
      rw same (
        unfold is_fresh in
        ground (arith, subst (λ t. is_fresh (lookup t v) now ≡ false) (eq_of_== k j same) old)))
  | inr other ↦ rw (lookup-remove k j v) (rw other)
]

-- the search at its first key
module _ (v : Recency) (now : ℕ) (ks : List Text) where
  empty_key :
      (look v now ks).1 ≡ any (knows v now) ks
      → (look v now ([] ∷ ks)).1 ≡ any (knows v now) ([] ∷ ks)
  unfolding look any
  empty_key rest = rest

  module _ (c : ℕ) (k : Text) where
    fresh_at : {o : Option ℕ} → lookup (c ∷ k) v ≡ o → knows v now (c ∷ k) ≡ is_fresh o now
    fresh_at e = ap (λ o. is_fresh o now) e

    any_cons :
        {b : Bool}
        → b ≡ any (knows v now) ks
        → knows v now (c ∷ k) ≡ false
        → b ≡ any (knows v now) ((c ∷ k) ∷ ks)
    unfolding any
    any_cons e old = ground arith

    any_first : knows v now (c ∷ k) ≡ true → true ≡ any (knows v now) ((c ∷ k) ∷ ks)
    unfolding any
    any_first new = ground arith

-- a search finds a key exactly if one of the keys is known
look-knows : (v : Recency) (now : ℕ) (ks : List Text) → (look v now ks).1 ≡ any (knows v now) ks
look-knows v now [] = unfold look any in refl
look-knows v now ([] ∷ ks) = let rest = look-knows v now ks in empty_key v now ks rest
look-knows v now ((c ∷ k) ∷ ks) = elim (Option-cases (lookup (c ∷ k) v)) [
  | inl miss ↦ rw (look_lem v now (c ∷ k) ks miss) (
      any_cons v now ks c k (look-knows v now ks)
        (fresh_at v now ks c k miss ∙ unfold is_fresh in refl))
  | inr (x, hit) ↦ rw (look_lem v now (c ∷ k) ks hit) (elim (Bool-cases (ltb now x)) [
    | inl live ↦
        rw live (any_first v now ks c k (fresh_at v now ks c k hit ∙ (unfold is_fresh in live)))
    | inr old ↦
        let forgotten : is_fresh (lookup (c ∷ k) v) now ≡ false =
          fresh_at v now ks c k hit ∙ (unfold is_fresh in old) in
        rw old (
          any_cons v now ks c k
            (look-knows (remove (c ∷ k) v) now ks
              ∙ ap (λ p. any p ks) (fun_ext (knows-remove v now (c ∷ k) forgotten)))
            forgotten)
  ])
]

look_all_memory :
    (limit ttl : ℕ) (v : Recency) (now : ℕ) (ks : List Text)
    → (look_all none limit ttl v now ks).1 ≡ (look v now ks).1
unfolding look_all
look_all_memory limit ttl v now ks = ground arith

-- In memory alone, `Has` finds a duplicate exactly if one of the keys is known.
pub has-knows :
    (sc : SeenCache) (now : ℕ) (ks : List Text)
    → IsValid sc
    → (has none sc now ks).1 ≡ any (knows (view sc.evict_list) now) ks
has-knows sc now ks h =
    (has-Agrees none sc now ks h).1
    ∙ (look_all_memory sc.cfg.max_entries sc.cfg.ttl (view sc.evict_list) now ks
        ∙ look-knows (view sc.evict_list) now ks)

pub any_of_listed :
    (test : Text → Bool) (k : Text) (ks : List Text)
    → listed k ks ≡ true
    → test k ≡ true
    → any test ks ≡ true
unfolding listed any
any_of_listed test k [] there pass = there
any_of_listed test k (j ∷ ks) there pass = elim (Bool-cases (j == k)) [
  | inl here ↦ let first = subst (λ i. test i ≡ true) (sym (eq_of_== j k here)) pass in rw first
  | inr next ↦ let rest = any_of_listed test k ks (rw next at there) pass in ground arith
]

-- a check with a known key finds a duplicate
pub check_known :
    (redis : Option (Text → Bool)) (limit ttl : ℕ) (v : Recency) (now later : ℕ) (ks : List Text)
    → any (knows v now) ks ≡ true
    → (check redis limit ttl v now later ks).1 ≡ true
check_known redis limit ttl v now later ks h =
    let hit : (look v now ks).1 ≡ true = look-knows v now ks ∙ h in
    let found : (look_all redis limit ttl v now ks).1 ≡ true = unfold look_all in rw hit refl in
    unfold check in rw found refl
