-- ===== src/Outbound/Retry/Attempts.antt =====
-- How often an operation is tried, and how the retry ends.
use dingtalk_channel_sdk_go.Prelude.{
  eqb, if◌then◌else◌, eqb→eq, Bool-cases, Option-cases, ℕ, zero, suc, ◌+◌, ◌-◌, ◌≤◌, ◌<◌, ◌≡◌, refl,
  sym, subst, ◌⊎◌, inl, inr, Bool, true, false, not, Option, none, some, arith,
}
use dingtalk_channel_sdk_go.Types.Errors.{GoError, classify_error, is_retryable}
use dingtalk_channel_sdk_go.Outbound.Retry.{
  Outcome, RetryOptions, default_retry_options, max_of, base_of, delay_after, after, succeed,
  give_up, cancel, attempts, retry,
}

module _ (op : ℕ → Option GoError) (cancelled : ℕ → Bool) (ctx_err : GoError) where
  -- An attempt after which another comes.
  abbrev pub IsPassed : ℕ → Type 0
  IsPassed i =
      (e : GoError) × (op i ≡ some e)
      × (is_retryable (classify_error e) ≡ true)
      × (cancelled i ≡ false)

  -- The last call and the result: it succeeded; or its error is returned, as it is final or no
  -- attempts are left; or the context ended during the wait after it.
  pub data Ends (last : ℕ) (o : Outcome) : Type 0 where
    succeeded : op o.calls ≡ none → o.result ≡ none → Ends last o
    gave_up :
        (e : GoError)
        → op o.calls ≡ some e
        → o.result ≡ some (classify_error e)
        → (is_retryable (classify_error e) ≡ false) ⊎ (o.calls ≡ last)
        → Ends last o
    was_cancelled :
        (e : GoError)
        → op o.calls ≡ some e
        → o.result ≡ some ctx_err
        → cancelled o.calls ≡ true
        → Ends last o

  abbrev pub IsRun : ℕ → ℕ → Outcome → Type 0
  IsRun first last o =
      (first ≤ o.calls)
      × (o.calls ≤ last)
      × ((i : ℕ) → first ≤ i → i < o.calls → IsPassed i)
      × Ends last o

  IsRun-here :
      (first last : ℕ) (o : Outcome)
      → o.calls ≡ first
      → first ≤ last
      → Ends last o
      → IsRun first last o
  IsRun-here first last o e h ends = (
    omega (arith, e),
    omega (arith, e),
    λ i from till. absurd (omega (arith, e, from, till)),
    ends,
  )

  Ends-later : (last d : ℕ) (o : Outcome) → Ends last o → Ends last (after d o)
  Ends-later last d o (succeeded e r) = succeeded e r
  Ends-later last d o (gave_up e f r why) = gave_up e f r why
  Ends-later last d o (was_cancelled e f r c) = was_cancelled e f r c

  IsRun-later :
      (first last d : ℕ) (o : Outcome)
      → IsPassed first
      → IsRun (suc first) last o
      → IsRun first last (after d o)
  IsRun-later first last d o here (from, till, between, ends) = (
    omega (arith, from),
    till,
    λ i h k. elim (Bool-cases (eqb i first)) [
      | inl same ↦ subst IsPassed (sym (eqb→eq i first same)) here
      | inr other ↦ between i (ground arith) k
    ],
    Ends-later last d o ends,
  )

  -- the first step of the loop
  attempt_ok :
      (base left first : ℕ)
      → op first ≡ none
      → attempts op cancelled ctx_err base first left ≡ succeed op cancelled ctx_err first
  unfolding attempts
  attempt_ok base zero first ok = rw (ok, attempts) refl
  attempt_ok base (suc left) first ok = rw (ok, attempts) refl

  attempt_last :
      (base first : ℕ) (e : GoError)
      → op first ≡ some e
      → attempts op cancelled ctx_err base first 0 ≡ give_up op cancelled ctx_err first e
  unfolding attempts
  attempt_last base first e failed = rw (failed, attempts) refl

  attempt_failed :
      (base left first : ℕ) (e : GoError)
      → op first ≡ some e
      → attempts op cancelled ctx_err base first (suc left) ≡ (
          if not (is_retryable (classify_error e))
          then give_up op cancelled ctx_err first e
          else (if cancelled first
              then cancel op cancelled ctx_err base first
              else after
                  (delay_after base first)
                  (attempts op cancelled ctx_err base (suc first) left)))
  unfolding attempts
  attempt_failed base left first e failed = rw (failed, attempts) refl

  ended_ok :
      (first left : ℕ)
      → op first ≡ none
      → IsRun first (first + left) (succeed op cancelled ctx_err first)
  unfolding succeed
  ended_ok first left ok = IsRun-here first (first + left) _ refl (omega arith) (succeeded ok refl)

  ended_failed :
      (first left : ℕ) (e : GoError)
      → op first ≡ some e
      → (is_retryable (classify_error e) ≡ false) ⊎ (first ≡ first + left)
      → IsRun first (first + left) (give_up op cancelled ctx_err first e)
  unfolding give_up
  ended_failed first left e failed why =
      IsRun-here first (first + left) _ refl (omega arith) (gave_up e failed refl why)

  ended_cancelled :
      (base first left : ℕ) (e : GoError)
      → op first ≡ some e
      → cancelled first ≡ true
      → IsRun first (first + left) (cancel op cancelled ctx_err base first)
  unfolding cancel
  ended_cancelled base first left e failed c =
      IsRun-here first (first + left) _ refl (omega arith) (was_cancelled e failed refl c)

  attempts-IsRun :
      (base left first : ℕ)
      → IsRun first (first + left) (attempts op cancelled ctx_err base first left)
  attempts-IsRun base zero first = elim (Option-cases (op first)) [
    | inl ok ↦
        subst (IsRun first (first + 0)) (sym (attempt_ok base 0 first ok)) (ended_ok first 0 ok)
    | inr (e, failed) ↦
        subst (IsRun first (first + 0)) (sym (attempt_last base first e failed))
          (ended_failed first 0 e failed (inr (omega arith)))
  ]
  attempts-IsRun base (suc left) first =
      let last = first + suc left in
      let rest = attempts-IsRun base left (suc first) in
      elim (Option-cases (op first)) [
        | inl ok ↦
            subst (IsRun first last) (sym (attempt_ok base (suc left) first ok))
              (ended_ok first (suc left) ok)
        | inr (e, failed) ↦
            subst (IsRun first last) (sym (attempt_failed base left first e failed))
              (elim (Bool-cases (is_retryable (classify_error e))) [
                | inr final ↦ rw final (ended_failed first (suc left) e failed (inl final))
                | inl again ↦ elim (Bool-cases (cancelled first)) [
                  | inl c ↦ rw (again, c) (ended_cancelled base first (suc left) e failed c)
                  | inr on ↦
                      rw (again, on)
                        (IsRun-later first last (delay_after base first) _ (e, failed, again, on)
                          (subst
                            (λ n.
                              IsRun (suc first) n
                                (attempts op cancelled ctx_err base (suc first) left))
                            (omega arith) rest))
                ]
              ])
      ]

  max_of-pos : (opts : RetryOptions) → 1 + (max_of opts - 1) ≡ max_of opts
  unfolding max_of
  max_of-pos opts = ground arith

  -- A retry ends. It makes at least one attempt and at most as many as are allowed, which are 3
  -- without options or with a number that is not positive. After every attempt but the last there was
  -- a retryable error and the context was not done; the last succeeded, or its error, classified, is
  -- returned since it is final or no attempts are left, or the context ended in the wait after it.
  pub retry-IsRun :
      (opts : Option RetryOptions)
      → IsRun 1 (elim opts [ none ↦ 3 | some o ↦ max_of o ]) (retry op cancelled ctx_err opts)
  unfolding retry max_of default_retry_options
  retry-IsRun none = attempts-IsRun (base_of default_retry_options) 2 1
  retry-IsRun (some opts) =
      subst (λ n. IsRun 1 n (attempts op cancelled ctx_err (base_of opts) 1 (max_of opts - 1)))
        (max_of-pos opts) (attempts-IsRun (base_of opts) (max_of opts - 1) 1)
