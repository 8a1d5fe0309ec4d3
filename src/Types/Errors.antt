-- ===== src/Types/Errors.antt =====
-- types/errors.go: errors as values, their classification, and which of them are retried.
use dingtalk_channel_sdk_go.Prelude.{
  ℕ, Bool, true, false, ◌||◌, Option, none, some, List, [], ◌∷◌, eqb, if◌then◌else◌, Text, bytes,
  contains, to_lower,
}

pub data ErrorCode : Type 0 where
  target_revoked permission_denied format_error rate_limited : ErrorCode
  send_timeout qps_limited ssrf_blocked unknown : ErrorCode

-- What `errors.As` can find in a chain of wrapped errors: a `ChannelError`, an error with an HTTP
-- status and a QPS mark, a `url.Error` and another `net.Error` with their `Timeout()`.
pub data Layer : Type 0 where
  channel_error : ErrorCode → Layer
  api_error : ℕ → Bool → Layer
  url_error : Bool → Layer
  net_error : Bool → Layer

-- A non-nil error: its chain, outermost first, and the text of `Error()`.
pub record GoError : Type 0 where
  pub chain : List Layer
  pub message : Text

-- the first `ChannelError`, `apiStatusError`, `url.Error` and `net.Error` of a chain
unfoldable pub as_channel : List Layer → Option ErrorCode
as_channel [] = none
as_channel (channel_error c ∷ rest) = some c
as_channel (api_error s q ∷ rest) = as_channel rest
as_channel (url_error t ∷ rest) = as_channel rest
as_channel (net_error t ∷ rest) = as_channel rest

-- the chain from its first `ChannelError` on
unfoldable pub from_channel : List Layer → List Layer
from_channel [] = []
from_channel (channel_error c ∷ rest) = channel_error c ∷ rest
from_channel (api_error s q ∷ rest) = from_channel rest
from_channel (url_error t ∷ rest) = from_channel rest
from_channel (net_error t ∷ rest) = from_channel rest

unfoldable pub as_api : List Layer → Option (ℕ × Bool)
as_api [] = none
as_api (channel_error c ∷ rest) = as_api rest
as_api (api_error s q ∷ rest) = some (s, q)
as_api (url_error t ∷ rest) = as_api rest
as_api (net_error t ∷ rest) = as_api rest

unfoldable pub as_url : List Layer → Option Bool
as_url [] = none
as_url (channel_error c ∷ rest) = as_url rest
as_url (api_error s q ∷ rest) = as_url rest
as_url (url_error t ∷ rest) = some t
as_url (net_error t ∷ rest) = as_url rest

-- a `url.Error` is a `net.Error` too
unfoldable pub as_net : List Layer → Option Bool
as_net [] = none
as_net (channel_error c ∷ rest) = as_net rest
as_net (api_error s q ∷ rest) = as_net rest
as_net (url_error t ∷ rest) = some t
as_net (net_error t ∷ rest) = some t

is_timeout : Option Bool → Bool
is_timeout none = false
is_timeout (some t) = t

-- the status switch at the head of `classifyCode`; `none` falls through to the text tests
unfoldable pub classify_status : ℕ → Option ErrorCode
classify_status s =
    if eqb s 403
    then some permission_denied
    else (if eqb s 400
        then some format_error
        else (if eqb s 404
            then some target_revoked
            else (if eqb s 429 then some rate_limited else none)))

unfoldable pub classify_api : Option (ℕ × Bool) → Option ErrorCode
unfolding classify_status
classify_api none = none
classify_api (some (s, true)) = some qps_limited
classify_api (some (s, false)) = classify_status s

-- the tests on the lower-cased text, then on the timeouts
unfoldable pub classify_text : List Layer → Text → ErrorCode
unfolding is_timeout bytes
classify_text chain msg =
    if contains (bytes "status 429") msg || contains (bytes "too many requests") msg
    then rate_limited
    else (if contains (bytes "status 401") msg || contains (bytes "status 403") msg
        then permission_denied
        else (if contains (bytes "status 400") msg
            then format_error
            else (if contains (bytes "status 404") msg
                then target_revoked
                else (if is_timeout (as_url chain)
                    then send_timeout
                    else (if is_timeout (as_net chain)
                        then send_timeout
                        else (if contains (bytes "timeout") msg
                              || contains (bytes "context deadline exceeded") msg
                            then send_timeout
                            else unknown))))))

unfoldable pub classify_code : GoError → ErrorCode
unfolding classify_api classify_text
classify_code e = elim (classify_api (as_api e.chain)) [
  | some c ↦ c
  | none ↦ classify_text e.chain (to_lower e.message)
]

-- `ClassifyError` of a non-nil error: the `ChannelError` of the chain, or a new one round the error.
-- The text of a `ChannelError` is not read again; it stays that of the error.
unfoldable pub classify_error : GoError → GoError
unfolding classify_code
classify_error e = elim (as_channel e.chain) [
  | some c ↦ record e { chain = from_channel e.chain }
  | none ↦ record e { chain = channel_error (classify_code e) ∷ e.chain }
]

unfoldable pub retryable_code : ErrorCode → Bool
retryable_code rate_limited = true
retryable_code qps_limited = true
retryable_code unknown = true
retryable_code send_timeout = true
retryable_code _ = false

unfoldable pub is_retryable : GoError → Bool
unfolding retryable_code
is_retryable e = elim (as_channel e.chain) [ some c ↦ retryable_code c | none ↦ true ]

unfoldable pub is_reply_target_gone : GoError → Bool
is_reply_target_gone e = elim (as_channel e.chain) [ some target_revoked ↦ true | _ ↦ false ]

unfoldable pub is_format_error : GoError → Bool
is_format_error e = elim (as_channel e.chain) [ some format_error ↦ true | _ ↦ false ]
