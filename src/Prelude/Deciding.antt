-- ===== src/Prelude/Deciding.antt =====
-- A Boolean that decides a statement, and how such Booleans combine.
use mathlib.Core.Path.{◌≡◌, refl}
use mathlib.Core.Logic.{◌↔◌, ◌⊎◌, inl, inr}
use mathlib.Core.Bool.{Bool, true, false, not, ◌&&◌, ◌||◌}
use mathlib.Core.List.{Mem}
use mathlib.Core.List.{List}
use native.Mathlib.Omega.{arith}
use dingtalk_channel_sdk_go.Prelude.Tests.{Bool-cases}
use dingtalk_channel_sdk_go.Prelude.Strings.{Text, listed, listed_iff, ◌==◌, ==_iff}

abbrev pub Decides {ℓ} : Bool → Type ℓ → Type ℓ
Decides b P = (b ≡ true → P) × (b ≡ false → ¬ P)

module _ {ℓ κ} {P : Type ℓ} {Q : Type κ} {a b : Bool} where
  pub Decides-and : Decides a P → Decides b Q → Decides (a && b) (P × Q)
  Decides-and p q = elim (Bool-cases a) [
    | inl e ↦ rw e (λ f. (p.0 e, q.0 f), λ f r. q.1 f r.1)
    | inr e ↦ rw e (λ f. absurd (cc), λ f r. p.1 e r.0)
  ]

  pub Decides-or : Decides a P → Decides b Q → Decides (a || b) (P ⊎ Q)
  Decides-or p q = elim (Bool-cases a) [
    | inl e ↦ rw e (λ f. inl (p.0 e), λ f. absurd (cc))
    | inr e ↦ rw e (λ f. inr (q.0 f), λ f. elim [ inl x ↦ p.1 e x | inr y ↦ q.1 f y ])
  ]

  pub Decides-implies : Decides a P → Decides b Q → Decides (not a || b) (P → Q)
  Decides-implies p q = elim (Bool-cases a) [
    | inl e ↦ rw e (λ f _. q.0 f, λ f g. q.1 f (g (p.0 e)))
    | inr e ↦ rw e (λ f x. absurd (p.1 e x), λ f. absurd (cc))
  ]

module _ {ℓ} {P : Type ℓ} {b : Bool} where
  pub Decides-not : Decides b P → Decides (not b) (¬ P)
  Decides-not p = elim (Bool-cases b) [
    | inl e ↦ rw e (λ f. absurd (cc), λ f n. n (p.0 e))
    | inr e ↦ rw e (λ f. p.1 e, λ f. absurd (cc))
  ]

  pub Decides-iff : Decides b P → (b ≡ true) ↔ P
  Decides-iff p = (p.0, λ x. elim (Bool-cases b) [ inl e ↦ e | inr e ↦ absurd (p.1 e x) ])

pub Decides-true : (b : Bool) → Decides b (b ≡ true)
Decides-true b = (λ e. e, λ e f. cc)

pub Decides-false : (b : Bool) → Decides (not b) (b ≡ false)
Decides-false true = (λ e. cc, λ e f. cc)
Decides-false false = (λ e. refl, λ e f. cc)

pub Decides-listed : (id : Text) (ids : List Text) → Decides (listed id ids) (Mem id ids)
Decides-listed id ids = ((listed_iff id ids).0, λ e m. ground (arith, (listed_iff id ids).1 m))

pub Decides-== : (s t : Text) → Decides (s == t) (s ≡ t)
Decides-== s t = ((==_iff s t).0, λ e m. ground (arith, (==_iff s t).1 m))
