-- ===== src/Identity/Serves.antt =====
-- How often the identity is asked for, and what is given out meanwhile.
use dingtalk_channel_sdk_go.Prelude.{
  Bool-cases, ℕ, ◌+◌, ◌≤◌, ◌<◌, ◌≡◌, refl, inl, inr, true, false, ◌||◌, Option, none, some, arith,
}
use dingtalk_channel_sdk_go.Types.{BotIdentity}
use dingtalk_channel_sdk_go.Identity.{
  BotIdentityProvider, is_cache_fresh, should_throttle_refresh, refresh, get,
}

-- a failure is not repeated at once
throttled :
    (p : BotIdentityProvider) (failed_at now : ℕ)
    → p.last_failure_at ≡ some failed_at
    → failed_at ≤ now
    → now < failed_at + p.cache_cfg.min_refresh_interval
    → should_throttle_refresh p now ≡ true
unfolding should_throttle_refresh
throttled p failed_at now e after soon = rw (e, should_throttle_refresh) (ground arith)

get_quiet :
    (p : BotIdentityProvider) (now later : ℕ) (fetched : Option BotIdentity)
    → (is_cache_fresh p now || should_throttle_refresh p now) ≡ true
    → get p now later fetched ≡ (p, p.identity, false)
unfolding get
get_quiet p now later fetched e = rw e refl

get_asks :
    (p : BotIdentityProvider) (now later : ℕ) (fetched : Option BotIdentity)
    → (is_cache_fresh p now || should_throttle_refresh p now) ≡ false
    → get p now later fetched
      ≡ ((refresh p now later fetched).0, (refresh p now later fetched).1, true)
unfolding get
get_asks p now later fetched e = rw e refl

-- the provider after a request that failed
get_failed :
    (p : BotIdentityProvider) (now later : ℕ)
    → (get p now later none).2 ≡ true
    → (get p now later none).0 ≡ record p { last_failure_at = some now }
get_failed p now later asked =
    elim (Bool-cases (is_cache_fresh p now || should_throttle_refresh p now)) [
      | inl quiet ↦
          let wrong : false ≡ true = (rw (get_quiet p now later none quiet) at asked) in absurd (cc)
      | inr asks ↦ rw (get_asks p now later none asks) (unfold refresh in refl)
    ]

-- After a request that failed no other one is made before the refresh interval is over, and the
-- identity that was known before, if there was one, is given out again.
pub get_serves :
    (p : BotIdentityProvider) (now later now' later' : ℕ) (fetched : Option BotIdentity)
    → (get p now later none).2 ≡ true
    → now ≤ now'
    → now' < now + p.cache_cfg.min_refresh_interval
    → get (get p now later none).0 now' later' fetched
      ≡ ((get p now later none).0, p.identity, false)
get_serves p now later now' later' fetched asked after soon =
    let p' = record p { last_failure_at = some now } in
    let busy = throttled p' now now' refl after soon in
    rw (get_failed p now later asked) (get_quiet p' now' later' fetched (ground arith))
