-- ===== src/Stream/Backoff.antt =====
-- The wait before a reconnection.
use dingtalk_channel_sdk_go.Prelude.{
  ltb, if◌then◌else◌, lt→ltb, Bool-cases, pos, ℕ, zero, suc, ◌+◌, ◌-◌, ◌*◌, ◌%◌, ◌^◌, ◌≤◌, ◌<◌, ◌≡◌,
  refl, ap, ◌⊎◌, inl, inr, arith,
}
use native.Mathlib.Nat.{pow-le-pow_right, two-pow-succ}
use dingtalk_channel_sdk_go.Types.{second}
use dingtalk_channel_sdk_go.Stream.{reconnect_base, reconnect_max, shifted, backoff_delay}

shifted_small :
    (attempt : ℕ) → attempt ≤ 33 → (second ≤ shifted attempt) × (shifted attempt < 2 ^ 63)
unfolding shifted
shifted_small attempt h =
    let low : 2 ^ 0 ≤ 2 ^ attempt = pow-le-pow_right (omega arith) {i = 0} (omega arith) in
    let high : 2 ^ attempt ≤ 2 ^ 33 = pow-le-pow_right (omega arith) h in omega (arith, low, high)

shifted_zero : (n : ℕ) → reconnect_base * 2 ^ (n + 55) % 2 ^ 64 ≡ 0
shifted_zero zero = omega arith
shifted_zero (suc n) =
    let e : suc n + 55 ≡ suc (n + 55) = omega arith in
    rw e (omega (arith, shifted_zero n, two-pow-succ (n + 55)))

short_wait :
    (attempt jitter : ℕ)
    → jitter < second
    → attempt ≤ 33
    → (d : ℕ) × (backoff_delay attempt jitter ≡ pos d) × (second ≤ d) × (d < reconnect_max + second)
short_wait attempt jitter small h =
    let (low, high) = shifted_small attempt h in
    let d = shifted attempt in
    let e : backoff_delay attempt jitter
        ≡ pos ((if ltb reconnect_max d then reconnect_max else d) + jitter) =
      unfold backoff_delay in rw (lt→ltb d (2 ^ 63) high) refl in
    (_, e, ground arith, ground arith)

no_wait : (attempt jitter : ℕ) → 55 ≤ attempt → backoff_delay attempt jitter ≡ pos jitter
no_wait attempt jitter h =
    let e : attempt ≡ attempt - 55 + 55 = omega arith in
    let none_left : shifted attempt ≡ 0 = unfold shifted in rw e (shifted_zero (attempt - 55)) in
    (unfold backoff_delay in rw none_left (ap pos (omega arith)))

-- A wait, with a jitter below a second: in the first 34 attempts in a row it lasts at least a second
-- and less than 31 seconds; from the 56th on the shift has pushed out every bit and only the jitter is
-- left; nothing is said of the attempts between.
pub backoff_delay_bounds :
    (attempt jitter : ℕ)
    → jitter < second
    → ((attempt ≤ 33)
        × ((d : ℕ) × (backoff_delay attempt jitter ≡ pos d)
            × (second ≤ d)
            × (d < reconnect_max + second)))
      ⊎ (((33 < attempt) × (attempt < 55))
          ⊎ ((55 ≤ attempt) × (backoff_delay attempt jitter ≡ pos jitter)))
backoff_delay_bounds attempt jitter small = elim (Bool-cases (ltb 33 attempt)) [
  | inr early ↦ let h : attempt ≤ 33 = ground arith in inl (h, short_wait attempt jitter small h)
  | inl later ↦ elim (Bool-cases (ltb attempt 55)) [
    | inl between ↦ inr (inl (ground arith, ground arith))
    | inr late ↦ let h : 55 ≤ attempt = ground arith in inr (inr (h, no_wait attempt jitter h))
  ]
]
