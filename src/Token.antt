-- ===== src/Token.antt =====
-- token.go: the access token, kept until a minute before it expires. `Get` holds the mutex, so it is
-- one step; `exchange` is what the HTTP request and the decoding of its answer come to, which are
-- libraries, and `now` and `received` are the readings of the clock, in nanoseconds.
pub mod Cache
use dingtalk_channel_sdk_go.Prelude.{
  ltb, eqb, if◌then◌else◌, Text, is_empty, ℤ, pos, negsuc, ℕ, zero, suc, ◌+◌, ◌-◌, ◌*◌, ◌%◌, ◌^◌,
  Bool, true, false, not, ◌&&◌, [], arith,
}
use dingtalk_channel_sdk_go.Types.{second}

pub record TokenProvider : Type 0 where
  pub token : Text
  pub expires_at : ℕ

unfoldable pub new_token_provider : TokenProvider
new_token_provider = record { token = []; expires_at = 0 }

-- No answer; an answer with another status than 200; one that cannot be decoded; or the fields
-- `accessToken` and `expireIn`, in seconds.
pub data Exchange : Type 0 where
  no_answer : Exchange
  bad_status : ℕ → Exchange
  bad_body : Exchange
  answers : Text → ℤ → Exchange

pub data TokenError : Type 0 where
  request_failed malformed empty_token : TokenError
  http_status : ℕ → TokenError

pub data TokenResult : Type 0 where
  got : Text → TokenResult
  failed : TokenError → TokenResult

-- `time.Now().Before(t.expiresAt.Add(-60*time.Second))`, for a token that is there
unfoldable pub is_fresh : TokenProvider → ℕ → Bool
is_fresh t now = not (is_empty t.token) && ltb (now + 60 * second) t.expires_at

-- the term of a token in seconds, two hours if it is not positive
unfoldable pub term_of : ℤ → ℕ
term_of (negsuc _) = 7200
term_of (pos n) = if eqb n 0 then 7200 else n

-- `time.Duration(out.ExpireIn) * time.Second`, an int64 product that wraps around, added to an
-- instant. One before 1970 is 0, which is as much in the past for every test of the clock.
unfoldable pub expiry_after : ℕ → ℕ → ℕ
expiry_after received seconds =
    let product = seconds * second % 2 ^ 64 in
    if ltb product (2 ^ 63) then received + product else received - (2 ^ 64 - product)

unfoldable pub store : TokenProvider → ℕ → Exchange → TokenProvider × TokenResult
unfolding term_of expiry_after
store t received no_answer = (t, failed request_failed)
store t received (bad_status code) = (t, failed (http_status code))
store t received bad_body = (t, failed malformed)
store t received (answers token expire_in) = if is_empty token then (t, failed empty_token) else (
  record { token = token; expires_at = expiry_after received (term_of expire_in) },
  got token,
)

-- `Get`, with the answer and whether a request was made
unfoldable pub get : TokenProvider → ℕ → ℕ → Exchange → TokenProvider × TokenResult × Bool
get t now received exchange =
    let (t', result) = store t received exchange in
    if is_fresh t now then (t, got t.token, false) else (t', result, true)
