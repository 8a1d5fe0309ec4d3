-- ===== src/Witnesses/Identity.antt =====
-- The identity of the robot.
use dingtalk_channel_sdk_go.Prelude.{◌≡◌, refl, true, false, none, arith}
use dingtalk_channel_sdk_go.Identity.{
  new_bot_identity_provider, get, is_cache_fresh, should_throttle_refresh,
}
use dingtalk_channel_sdk_go.Identity.Serves.{get_serves}

-- the first call asks
first_asks : (get new_bot_identity_provider 10 20 none).2 ≡ true
unfolding get new_bot_identity_provider is_cache_fresh should_throttle_refresh
first_asks = refl

get_serves_example :
    get (get new_bot_identity_provider 10 20 none).0 500 600 none
    ≡ ((get new_bot_identity_provider 10 20 none).0, none, false)
unfolding new_bot_identity_provider
get_serves_example =
    get_serves new_bot_identity_provider 10 20 500 600 none first_asks (omega arith) (omega arith)
