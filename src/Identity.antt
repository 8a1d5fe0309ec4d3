-- ===== src/Identity.antt =====
-- bot_identity.go: the identity of the robot, kept for half an hour. `Get` holds the mutex from its
-- second test on, so it is one step; what the request comes to is an argument. Times are in nanoseconds.
pub mod Serves
use dingtalk_channel_sdk_go.Prelude.{
  ltb, leb, if◌then◌else◌, is_some, Text, bytes, is_empty, ℕ, ◌-◌, ◌*◌, Bool, true, false, not,
  ◌&&◌, ◌||◌, Option, none, some,
}
use dingtalk_channel_sdk_go.Types.{BotIdentity, second}

-- `BotIdentityCacheConfig`; a term that is not positive is 0
pub record BotIdentityCacheConfig : Type 0 where
  pub ttl : ℕ
  pub min_refresh_interval : ℕ

pub record BotIdentityProvider : Type 0 where
  pub cache_cfg : BotIdentityCacheConfig
  pub identity : Option BotIdentity
  pub fetched_at : ℕ
  pub last_failure_at : Option ℕ

unfoldable pub new_bot_identity_provider : BotIdentityProvider
new_bot_identity_provider = record {
  cache_cfg = record { ttl = 1800 * second; min_refresh_interval = 60 * second };
  identity = none;
  fetched_at = 0;
  last_failure_at = none;
}

-- `isCacheFreshLocked`
unfoldable pub is_cache_fresh : BotIdentityProvider → ℕ → Bool
is_cache_fresh p now =
    is_some p.identity && (leb p.cache_cfg.ttl 0 || ltb (now - p.fetched_at) p.cache_cfg.ttl)

-- `shouldThrottleRefreshLocked`
unfoldable pub should_throttle_refresh : BotIdentityProvider → ℕ → Bool
should_throttle_refresh p now = elim p.last_failure_at [
  | none ↦ false
  | some t ↦
      not (leb p.cache_cfg.min_refresh_interval 0) && ltb (now - t) p.cache_cfg.min_refresh_interval
]

-- the identity that an answer stands for, with the values for what is empty
unfoldable pub identity_of : Text → Text → Text → Text → BotIdentity
identity_of client_id robot_code robot_name avatar = record {
  robot_code = if is_empty robot_code then client_id else robot_code;
  robot_name = if is_empty robot_name then bytes "Bot" else robot_name;
  avatar = avatar;
}

-- what a request that is made leaves behind, with the identity that is given out
unfoldable pub refresh :
    BotIdentityProvider → ℕ → ℕ → Option BotIdentity → BotIdentityProvider × Option BotIdentity
refresh p now later none = (record p { last_failure_at = some now }, p.identity)
refresh p now later (some identity) = (
  record p { identity = some identity; fetched_at = later; last_failure_at = none },
  some identity,
)

-- `Get`, with whether a request was made
unfoldable pub get :
    BotIdentityProvider
    → ℕ
    → ℕ
    → Option BotIdentity
    → BotIdentityProvider × Option BotIdentity × Bool
unfolding refresh is_cache_fresh should_throttle_refresh
get p now later fetched =
    let (p', given) = refresh p now later fetched in
    if is_cache_fresh p now || should_throttle_refresh p now
    then (p, p.identity, false)
    else (p', given, true)
