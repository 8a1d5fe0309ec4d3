-- ===== src/Prelude/Lists.antt =====
-- Lists measured and cut by native numbers, under the library's names, and Boolean searches.
use Prim.Native.Nat.{ℕ, zero, suc, ◌+◌, ◌-◌, ◌≤◌}
use mathlib.Core.Path.{◌≡◌, refl, sym}
use mathlib.Core.Bool.{true, Bool-set, Bool, false, ◌||◌}
use mathlib.Core.Logic.Or
use mathlib.Core.Logic.{◌↔◌, inl, inr}
use mathlib.Core.List.{Mem, mem-cons, not-mem-nil, List, [], ◌∷◌, ◌++◌}
use native.Mathlib.Omega.{arith}
use dingtalk_channel_sdk_go.Prelude.Tests.{Bool-cases}

module _ {ℓ} {A : Type ℓ} where
  abbrev pub length : List A → ℕ
  length [] = 0
  length (x ∷ xs) = suc (length xs)

  abbrev pub take : ℕ → List A → List A
  take zero xs = []
  take (suc n) [] = []
  take (suc n) (x ∷ xs) = x ∷ take n xs

  abbrev pub drop : ℕ → List A → List A
  drop zero xs = xs
  drop (suc n) [] = []
  drop (suc n) (x ∷ xs) = drop n xs

  pub take-append-drop : (n : ℕ) (xs : List A) → take n xs ++ drop n xs ≡ xs
  take-append-drop zero xs = refl
  take-append-drop (suc n) [] = refl
  take-append-drop (suc n) (x ∷ xs) = rw (take-append-drop n xs)

  pub length-drop : (n : ℕ) (xs : List A) → length (drop n xs) ≡ length xs - n
  length-drop zero xs = omega arith
  length-drop (suc n) [] = omega arith
  length-drop (suc n) (x ∷ xs) = omega (arith, length-drop n xs)

  -- the last element, of a list given by its head and tail
  abbrev pub last_of : A → List A → A
  last_of x [] = x
  last_of x (y ∷ ys) = last_of y ys

  pub length-append : (xs ys : List A) → length (xs ++ ys) ≡ length xs + length ys
  length-append [] ys = omega arith
  length-append (x ∷ xs) ys = omega (arith, length-append xs ys)

  pub length-take-le : (n : ℕ) (xs : List A) → length (take n xs) ≤ n
  length-take-le zero xs = omega arith
  length-take-le (suc n) [] = omega arith
  length-take-le (suc n) (x ∷ xs) = omega (arith, length-take-le n xs)

  pub length-take : (n : ℕ) (xs : List A) → n ≤ length xs → length (take n xs) ≡ n
  length-take zero xs h = refl
  length-take (suc n) [] h = absurd (omega arith)
  length-take (suc n) (x ∷ xs) h = omega (arith, length-take n xs)

  pub take_of_length-le : (limit : ℕ) (l : List A) → length l ≤ limit → take limit l ≡ l
  take_of_length-le (suc limit) (e ∷ l) fits = rw (take_of_length-le limit l (omega arith)) refl
  take_of_length-le zero (e ∷ l) fits = absurd (omega arith)
  take_of_length-le (suc limit) [] fits = refl
  take_of_length-le zero [] fits = refl

  -- `for _, x := range xs { if test(x) { return true } }`
  unfoldable pub any : (A → Bool) → List A → Bool
  any test [] = false
  any test (x ∷ xs) = test x || any test xs

  -- a predicate on every element
  abbrev pub All {κ} : (A → Type κ) → List A → Type κ
  All P [] = Unit
  All P (x ∷ xs) = P x × All P xs

-- `any` with an equality test is membership
pub any-Mem {ℓ} :
    {A : Type ℓ} (test : A → Bool) (a : A)
    → ((x : A) → (test x ≡ true) ↔ (x ≡ a))
    → (xs : List A) → (any test xs ≡ true) ↔ Mem a xs
unfolding any
any-Mem test a exact [] = (λ e. absurd (cc), λ m. absurd (not-mem-nil m))
any-Mem test a exact (x ∷ xs) =
    let ih = any-Mem test a exact xs in
    (
      λ e. elim (Bool-cases (test x)) [
        | inl hit ↦ mem-cons.1 (Or.inl (sym ((exact x).0 hit)))
        | inr miss ↦ mem-cons.1 (Or.inr (ih.0 (rw miss at e)))
      ],
      λ m.
          Or.elim (Bool-set _ _) (mem-cons.0 m) (λ e. rw ((exact x).1 (sym e)))
            (λ r. elim (Bool-cases (test x)) [ inl hit ↦ rw hit | inr miss ↦ rw miss (ih.1 r) ]),
    )
