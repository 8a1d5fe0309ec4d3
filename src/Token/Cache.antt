-- ===== src/Token/Cache.antt =====
-- When a token is asked for, and for how long it is used.
use dingtalk_channel_sdk_go.Prelude.{
  lt→ltb, Bool-cases, Text, is_empty, ℤ, ℕ, ◌+◌, ◌*◌, ◌%◌, ◌^◌, ◌<◌, ◌≡◌, refl, sym, ap, subst, ◌∙◌,
  inl, inr, Bool, true, false, arith,
}
use dingtalk_channel_sdk_go.Types.{second}
use dingtalk_channel_sdk_go.Token.{
  TokenProvider, Exchange, no_answer, bad_status, bad_body, answers, TokenResult, got, TokenError,
  failed, is_fresh, term_of, expiry_after, store, get,
}

get_fresh :
    (t : TokenProvider) (now received : ℕ) (exchange : Exchange)
    → is_fresh t now ≡ true
    → get t now received exchange ≡ (t, got t.token, false)
unfolding get
get_fresh t now received exchange h = rw h refl

get_stale :
    (t : TokenProvider) (now received : ℕ) (exchange : Exchange)
    → is_fresh t now ≡ false
    → get t now received exchange
      ≡ ((store t received exchange).0, (store t received exchange).1, true)
unfolding get
get_stale t now received exchange h = rw h refl

abbrev received_token : ℕ → Text → ℤ → TokenProvider
received_token received token expire_in = record {
  token = token;
  expires_at = expiry_after received (term_of expire_in);
}

store_got :
    (t : TokenProvider) (received : ℕ) (token : Text) (expire_in : ℤ)
    → is_empty token ≡ false
    → store t received (answers token expire_in)
      ≡ (received_token received token expire_in, got token)
unfolding store
store_got t received token expire_in there = rw there refl

store_fails :
    (t : TokenProvider) (received : ℕ) (exchange : Exchange) (e : TokenError)
    → (store t received exchange).1 ≡ failed e
    → (store t received exchange).0 ≡ t
unfolding store
store_fails t received no_answer e h = refl
store_fails t received (bad_status code) e h = refl
store_fails t received bad_body e h = refl
store_fails t received (answers token expire_in) e h = elim (Bool-cases (is_empty token)) [
  | inl empty ↦ rw empty refl
  | inr there ↦ let no_way : got token ≡ failed e = rw there at h in absurd (cc)
]

-- a term that fits into an int64 is what is added
expiry_after-fits :
    (received seconds : ℕ)
    → seconds * second < 2 ^ 63
    → expiry_after received seconds ≡ received + seconds * second
unfolding expiry_after
expiry_after-fits received seconds h =
    let e : seconds * second % 2 ^ 64 ≡ seconds * second = omega arith in
    rw (e, lt→ltb (seconds * second) (2 ^ 63) h) refl

received_token-is_fresh :
    (received later : ℕ) (token : Text) (expire_in : ℤ)
    → is_empty token ≡ false
    → term_of expire_in * second < 2 ^ 63
    → later + 60 * second < received + term_of expire_in * second
    → is_fresh (received_token received token expire_in) later ≡ true
unfolding is_fresh
received_token-is_fresh received later token expire_in there fits soon =
    rw (there, expiry_after-fits received (term_of expire_in) fits) (lt→ltb _ _ soon)

-- A token that was received, and whose term in nanoseconds fits into an int64, is given out again,
-- without a request, by a call up to a minute before its term ends, whatever a request would bring.
pub get_keeps :
    (t : TokenProvider) (now received later received' : ℕ) (token : Text) (expire_in : ℤ)
    (exchange : Exchange)
    → is_fresh t now ≡ false
    → is_empty token ≡ false
    → term_of expire_in * second < 2 ^ 63
    → later + 60 * second < received + term_of expire_in * second
    → let t' = (get t now received (answers token expire_in)).0 in
      ((get t now received (answers token expire_in)).1 ≡ got token)
      × (get t' later received' exchange ≡ (t', got token, false))
get_keeps t now received later received' token expire_in exchange stale there fits soon =
    let new = received_token received token expire_in in
    let e =
      get_stale t now received (answers token expire_in) stale
      ∙ ap (λ x. (x.0, x.1, true)) (store_got t received token expire_in there) in
    (
      ap (λ x. x.1) e,
      subst {A = TokenProvider × TokenResult × Bool}
          (λ x. get x.0 later received' exchange ≡ (x.0, got token, false)) (sym e)
          (get_fresh new later received' exchange
            (received_token-is_fresh received later token expire_in there fits soon)),
    )

-- A call that fails leaves the token as it was, and it made a request: while the token is fresh no
-- call fails.
pub get_fails :
    (t : TokenProvider) (now received : ℕ) (exchange : Exchange) (e : TokenError)
    → (get t now received exchange).1 ≡ failed e
    → ((get t now received exchange).0 ≡ t) × (is_fresh t now ≡ false)
get_fails t now received exchange e h = elim (Bool-cases (is_fresh t now)) [
  | inl fresh ↦
      let no_way : got t.token ≡ failed e =
        sym (ap (λ x. x.1) (get_fresh t now received exchange fresh)) ∙ h in
      absurd (cc)
  | inr stale ↦
      let same = get_stale t now received exchange stale in
      (ap (λ x. x.0) same ∙ store_fails t received exchange e (sym (ap (λ x. x.1) same) ∙ h), stale)
]
