-- ===== src/Http/Signed.antt =====
-- What reaches the pipeline over HTTP is signed and fresh.
use dingtalk_channel_sdk_go.Prelude.{
  if◌then◌else◌, Bool-cases, ltb, ltb→lt, Text, ◌==◌, eq_of_==, is_empty, ℕ, ◌+◌, ◌-◌, ◌%◌, ◌^◌,
  ◌≤◌, ◌<◌, ◌≡◌, refl, ◌≢◌, ◌⊎◌, inl, inr, Bool, true, false, not, ◌||◌, Option, none, some, ◌∷◌,
  ◌++◌, arith,
}
use dingtalk_channel_sdk_go.Types.{IncomingMessage}
use dingtalk_channel_sdk_go.Normalize.Incoming.{CallbackData, normalize_incoming}
use dingtalk_channel_sdk_go.Http.{
  parse_int, to_milli, age_of, is_outside, HttpError, missing_headers, outside_window, check_sign,
  check_time, verify_http_sign, HttpConfig, Callback, refuse, Request, accept, after_verify,
  handle_http_callback, Answer, answer_of, answer_body, http_callback_handler, no_handler,
}

-- a guard that was passed
passes_guard :
    (b : Bool) (e : HttpError) (rest : Option HttpError)
    → (if b then some e else rest) ≡ none
    → (b ≡ false) × (rest ≡ none)
passes_guard true e rest h = absurd (cc)
passes_guard false e rest h = (refl, h)

-- The times lie no further apart than the tolerance; or none is set, or the time stamp is before 1970.
abbrev pub IsFresh : ℕ → ℕ → ℕ → Type 0
IsFresh tolerance now ts =
    (tolerance ≡ 0) ⊎ ((2 ^ 63 ≤ ts) ⊎ ((now ≤ ts + tolerance) × (ts ≤ now + tolerance)))

-- times after 1970 have their distance
age_of_lem :
    (now ts : ℕ)
    → now < 2 ^ 63
    → ts < 2 ^ 63
    → ((ts ≤ now → age_of now ts ≡ now - ts) × (now < ts → age_of now ts ≡ ts - now))
unfolding age_of
age_of_lem now ts now_small ts_small = (
  λ after.
      let e : (now + 2 ^ 64 - ts) % 2 ^ 64 ≡ now - ts = omega (arith, after, now_small) in
      rw e (ground arith),
  λ before.
      let e : (now + 2 ^ 64 - ts) % 2 ^ 64 ≡ 2 ^ 64 - (ts - now) =
        omega (arith, before, ts_small) in
      rw e (ground arith),
)

is_outside_bounds :
    (tolerance now ts : ℕ)
    → is_outside tolerance now ts ≡ false
    → 0 < tolerance
    → now < 2 ^ 63
    → ts < 2 ^ 63
    → (now ≤ ts + tolerance) × (ts ≤ now + tolerance)
unfolding is_outside
is_outside_bounds tolerance now ts e some_tolerance now_small ts_small =
    let (later, earlier) = age_of_lem now ts now_small ts_small in ground arith

is_outside-IsFresh :
    (tolerance now ts : ℕ)
    → now < 2 ^ 63
    → is_outside tolerance now ts ≡ false
    → IsFresh tolerance now ts
is_outside-IsFresh tolerance now ts now_small e = elim (Bool-cases (ltb 0 tolerance)) [
  | inr unset ↦ inl (ground arith)
  | inl set ↦ elim (Bool-cases (ltb ts (2 ^ 63))) [
    | inr before ↦ inr (inl (ground arith))
    | inl after ↦ inr (
        inr (
          is_outside_bounds tolerance now ts e (ltb→lt 0 tolerance set) now_small
            (ltb→lt ts (2 ^ 63) after)))
  ]
]

-- A time stamp with its sign: the text is a number whose time is fresh, and the HMAC of the text and
-- the secret under the secret is the sign.
abbrev pub IsSigned : (Text → Text → Text) → HttpConfig → ℕ → Request → Type 0
IsSigned mac cfg now r =
    (mac cfg.client_secret (r.timestamp ++ (10 ∷ cfg.client_secret)) ≡ r.sign)
    × (ts : ℕ) × (parse_int r.timestamp ≡ some ts)
    × IsFresh cfg.tolerance now (to_milli ts)

check_sign-none :
    (mac : Text → Text → Text) (secret timestamp sign : Text)
    → check_sign mac secret timestamp sign ≡ none
    → mac secret (timestamp ++ (10 ∷ secret)) ≡ sign
unfolding check_sign
check_sign-none mac secret timestamp sign e =
    elim (Bool-cases (mac secret (timestamp ++ (10 ∷ secret)) == sign)) [
      | inl same ↦ eq_of_== (mac secret (timestamp ++ (10 ∷ secret))) sign same
      | inr other ↦ let wrong = (rw other at e) in absurd (cc)
    ]

check_time-none :
    (mac : Text → Text → Text) (cfg : HttpConfig) (now : ℕ) (timestamp sign : Text) (o : Option ℕ)
    → now < 2 ^ 63
    → check_time mac cfg.client_secret timestamp sign cfg.tolerance now o ≡ none
    → (mac cfg.client_secret (timestamp ++ (10 ∷ cfg.client_secret)) ≡ sign)
      × (ts : ℕ) × (o ≡ some ts)
      × IsFresh cfg.tolerance now (to_milli ts)
unfolding check_time
check_time-none mac cfg now timestamp sign none small e = absurd (cc)
check_time-none mac cfg now timestamp sign (some ts) small e =
    let (inside, signed) =
      passes_guard (is_outside cfg.tolerance now (to_milli ts)) outside_window _ e in
    (
      check_sign-none mac cfg.client_secret timestamp sign signed,
      ts,
      refl,
      is_outside-IsFresh cfg.tolerance now (to_milli ts) small inside,
    )

verify_http_sign-IsSigned :
    (mac : Text → Text → Text) (cfg : HttpConfig) (now : ℕ) (r : Request)
    → now < 2 ^ 63
    → verify_http_sign mac cfg.client_secret r.timestamp r.sign cfg.tolerance now ≡ none
    → IsSigned mac cfg now r
unfolding verify_http_sign
verify_http_sign-IsSigned mac cfg now r small e =
    let (_, timed) = passes_guard (is_empty r.sign || is_empty r.timestamp) missing_headers _ e in
    check_time-none mac cfg now r.timestamp r.sign (parse_int r.timestamp) small timed

-- A request whose message reaches the pipeline: a signed POST with a body that can be decoded, to a
-- channel with a handler. What is pushed is the message of that body, under its own id.
abbrev pub IsAuthentic :
    (Text → Text → Text) → HttpConfig → ℕ → Request → Text × IncomingMessage → Type 0
IsAuthentic mac cfg now r x =
    (r.is_post ≡ true)
    × (cfg.has_handler ≡ true)
    × IsSigned mac cfg now r
    × (raw : Text) × (d : CallbackData) × (r.body ≡ some raw)
    × (r.decoded ≡ some d)
    × (x ≡ (d.msg_id, normalize_incoming r.decode raw d))

-- An answer says 200 exactly if a message has been pushed, and that message is authentic.
abbrev pub IsHonest : (Text → Text → Text) → HttpConfig → ℕ → Request → Answer → Type 0
IsHonest mac cfg now r a =
    ((a.status ≡ 200)
      × (x : Text × IncomingMessage) × (a.pushed ≡ some x)
      × IsAuthentic mac cfg now r x)
    ⊎ ((a.status ≢ 200) × (a.pushed ≡ none))

module _ (mac : Text → Text → Text) (cfg : HttpConfig) (now : ℕ) (r : Request)
    (small : now < 2 ^ 63) where
  accept-IsHonest :
      (raw : Text) (o : Option CallbackData)
      → r.is_post ≡ true
      → cfg.has_handler ≡ true
      → IsSigned mac cfg now r
      → r.body ≡ some raw
      → r.decoded ≡ o
      → IsHonest mac cfg now r (answer_of (accept raw r o))
  unfolding answer_of accept normalize_incoming
  accept-IsHonest raw none post handler signed body decoded =
      inr (λ e. absurd (omega (arith, e)), refl)
  accept-IsHonest raw (some d) post handler signed body decoded =
      inl (refl, _, refl, (post, handler, signed, raw, d, body, decoded, refl))

  after_verify-IsHonest :
      (raw : Text) (v : Option HttpError)
      → r.is_post ≡ true
      → cfg.has_handler ≡ true
      → r.body ≡ some raw
      → (v ≡ none → IsSigned mac cfg now r)
      → IsHonest mac cfg now r (answer_of (after_verify raw r v))
  unfolding after_verify answer_of
  after_verify-IsHonest raw (some e) post handler body signed =
      inr (λ h. absurd (omega (arith, h)), refl)
  after_verify-IsHonest raw none post handler body signed =
      accept-IsHonest raw r.decoded post handler (signed refl) body refl

  guarded-IsHonest :
      (b : Bool) (c : Callback) (e : HttpError)
      → (b ≡ true → IsHonest mac cfg now r (answer_of c))
      → IsHonest mac cfg now r (answer_of (if not b then refuse e else c))
  unfolding answer_of
  guarded-IsHonest true c e h = h refl
  guarded-IsHonest false c e h = inr (λ h'. absurd (omega (arith, h')), refl)

  handle_http_callback-IsHonest :
      (raw : Text)
      → r.is_post ≡ true
      → r.body ≡ some raw
      → IsHonest mac cfg now r (answer_of (handle_http_callback mac cfg now raw r))
  unfolding handle_http_callback
  handle_http_callback-IsHonest raw post body =
      let v = verify_http_sign mac cfg.client_secret r.timestamp r.sign cfg.tolerance now in
      guarded-IsHonest cfg.has_handler (after_verify raw r v) no_handler (λ handler.
        after_verify-IsHonest raw v post handler body
          (verify_http_sign-IsSigned mac cfg now r small))

  answer_body-IsHonest :
      (o : Option Text)
      → r.is_post ≡ true
      → r.body ≡ o
      → IsHonest mac cfg now r (answer_body mac cfg now r o)
  unfolding answer_body
  answer_body-IsHonest none post body = inr (λ h. absurd (omega (arith, h)), refl)
  answer_body-IsHonest (some raw) post body = handle_http_callback-IsHonest raw post body

  posted-IsHonest :
      (b : Bool) (a : Answer)
      → (b ≡ true → IsHonest mac cfg now r a)
      → IsHonest mac cfg now r (if not b then record { status = 405; pushed = none } else a)
  posted-IsHonest true a h = h refl
  posted-IsHonest false a h = inr (λ h'. absurd (omega (arith, h')), refl)

-- What the HTTP handler does with any request, by a clock that counts below 2 ^ 63 milliseconds: it
-- answers 200 exactly if it pushes a message. Then the request is a POST to a channel with a handler,
-- its sign is the HMAC of its time stamp, and the message is that of the body, under its own id. That
-- time stamp is within the tolerance, if one is set and the stamp is not before 1970.
pub http_callback_handler-IsHonest :
    (mac : Text → Text → Text) (cfg : HttpConfig) (now : ℕ) (r : Request)
    → now < 2 ^ 63
    → IsHonest mac cfg now r (http_callback_handler mac cfg now r)
unfolding http_callback_handler
http_callback_handler-IsHonest mac cfg now r small =
    posted-IsHonest mac cfg now r small r.is_post (answer_body mac cfg now r r.body)
      (λ post. answer_body-IsHonest mac cfg now r small r.body post refl)
