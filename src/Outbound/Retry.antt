-- ===== src/Outbound/Retry.antt =====
-- internal/outbound/retry.go. The operation is what it returns at each attempt, `none` for no error.
-- `cancelled` says whether the context is done during the wait after an attempt, and `ctx_err` is
-- its error. The delays are those of the source, computed exactly.
pub mod Attempts
use dingtalk_channel_sdk_go.Prelude.{
  leb, if◌then◌else◌, ℕ, zero, suc, ◌-◌, ◌*◌, ◌^◌, Bool, not, Option, none, some, List, [], ◌∷◌,
  arith,
}
use dingtalk_channel_sdk_go.Types.{millisecond}
use dingtalk_channel_sdk_go.Types.Errors.{GoError, classify_error, is_retryable}

pub record RetryOptions : Type 0 where
  pub max_attempts : ℕ
  pub base_delay : ℕ

unfoldable pub default_retry_options : RetryOptions
default_retry_options = record { max_attempts = 3; base_delay = 500 * millisecond }

-- How a retry ends, with the delays waited for.
pub record Outcome : Type 0 where
  pub result : Option GoError
  pub calls : ℕ
  pub delays : List ℕ

unfoldable pub max_of : RetryOptions → ℕ
max_of opts = if leb opts.max_attempts 0 then 3 else opts.max_attempts

unfoldable pub base_of : RetryOptions → ℕ
base_of opts = if leb opts.base_delay 0 then 500 * millisecond else opts.base_delay

unfoldable pub delay_after : ℕ → ℕ → ℕ
delay_after base attempt = base * 3 ^ (attempt - 1)

abbrev pub after : ℕ → Outcome → Outcome
after delay o = record o { delays = delay ∷ o.delays }

module _ (op : ℕ → Option GoError) (cancelled : ℕ → Bool) (ctx_err : GoError) where
  -- the end at an attempt: without an error, with that of the attempt, or with that of the context
  unfoldable pub succeed : ℕ → Outcome
  succeed attempt = record { result = none; calls = attempt; delays = [] }

  unfoldable pub give_up : ℕ → GoError → Outcome
  give_up attempt err = record { result = some (classify_error err); calls = attempt; delays = [] }

  unfoldable pub cancel : ℕ → ℕ → Outcome
  cancel base attempt = record {
    result = some ctx_err;
    calls = attempt;
    delays = delay_after base attempt ∷ [];
  }

  -- the loop from `attempt` on, with `left` attempts after it
  unfoldable pub attempts : ℕ → ℕ → ℕ → Outcome
  attempts base attempt zero = elim (op attempt) [
    | none ↦ succeed attempt
    | some err ↦ give_up attempt err
  ]
  attempts base attempt (suc left) = elim (op attempt) [
    | none ↦ succeed attempt
    | some err ↦
        let next = after (delay_after base attempt) (attempts base (suc attempt) left) in
        if not (is_retryable (classify_error err))
        then give_up attempt err
        else (if cancelled attempt then cancel base attempt else next)
  ]

  unfoldable pub retry : Option RetryOptions → Outcome
  retry none = attempts (base_of default_retry_options) 1 (max_of default_retry_options - 1)
  retry (some opts) = attempts (base_of opts) 1 (max_of opts - 1)
