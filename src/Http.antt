-- ===== src/Http.antt =====
-- http_mode.go: callbacks over HTTP. The HMAC with its Base64 text, and the decoding of the body are
-- libraries. An int64 is kept as its 64 bits, and the times are in milliseconds.
pub mod Signed
use dingtalk_channel_sdk_go.Prelude.{
  ltb, leb, eqb, if◌then◌else◌, tests, Text, ◌==◌, is_empty, ℕ, zero, suc, ◌+◌, ◌-◌, ◌*◌, ◌%◌, ◌^◌,
  Bool, true, false, not, ◌&&◌, ◌||◌, Option, none, some, [], ◌∷◌, ◌++◌, arith,
}
use dingtalk_channel_sdk_go.Types.{IncomingMessage}
use dingtalk_channel_sdk_go.Normalize.Json.{Fields}
use dingtalk_channel_sdk_go.Normalize.Incoming.{CallbackData, normalize_incoming}

-- the number of a text of decimal digits, after those that have been read
unfoldable pub parse_digits : ℕ → Text → Option ℕ
parse_digits n [] = some n
parse_digits n (c ∷ s) = if leb 48 c && leb c 57 then parse_digits (n * 10 + (c - 48)) s else none

unfoldable pub parse_nat : Text → Option ℕ
parse_nat [] = none
parse_nat (c ∷ s) = parse_digits 0 (c ∷ s)

-- the bits of a magnitude with its sign, if it is in range
unfoldable pub in_range : Bool → Option ℕ → Option ℕ
in_range negative none = none
in_range true (some n) = if leb n (2 ^ 63) then some ((2 ^ 64 - n) % 2 ^ 64) else none
in_range false (some n) = if ltb n (2 ^ 63) then some n else none

-- `strconv.ParseInt(s, 10, 64)`
unfoldable pub parse_int : Text → Option ℕ
unfolding in_range parse_nat parse_digits
parse_int [] = none
parse_int (c ∷ s) =
    if eqb c 45
    then in_range true (parse_nat s)
    else (if eqb c 43 then in_range false (parse_nat s) else in_range false (parse_nat (c ∷ s)))

abbrev pub is_negative : ℕ → Bool
is_negative bits = leb (2 ^ 63) bits

-- a time in seconds becomes one in milliseconds
unfoldable pub to_milli : ℕ → ℕ
to_milli ts = if is_negative ts || ltb ts (10 ^ 11) then ts * 1000 % 2 ^ 64 else ts

-- the distance of two times, which is negative only for the least int64
unfoldable pub age_of : ℕ → ℕ → ℕ
age_of now ts =
    let age = (now + 2 ^ 64 - ts) % 2 ^ 64 in
    if is_negative age then (2 ^ 64 - age) % 2 ^ 64 else age

-- `age > tolerance`, for a tolerance above 0
unfoldable pub is_outside : ℕ → ℕ → ℕ → Bool
unfolding age_of
is_outside tolerance now ts =
    ltb 0 tolerance && (not (is_negative (age_of now ts)) && ltb tolerance (age_of now ts))

pub data HttpError : Type 0 where
  no_handler missing_headers invalid_timestamp outside_window signature_mismatch bad_payload :
      HttpError

-- What the code relies on: `mac` is the Base64 text of the HMAC of a message under a key.
module _ (mac : Text → Text → Text) where
  unfoldable pub check_sign : Text → Text → Text → Option HttpError
  check_sign secret timestamp sign =
      if mac secret (timestamp ++ (10 ∷ secret)) == sign then none else some signature_mismatch

  -- the tests after the parsing of the time stamp
  unfoldable pub check_time : Text → Text → Text → ℕ → ℕ → Option ℕ → Option HttpError
  unfolding check_sign is_outside
  check_time secret timestamp sign tolerance now none = some invalid_timestamp
  check_time secret timestamp sign tolerance now (some ts) =
      if is_outside tolerance now (to_milli ts)
      then some outside_window
      else check_sign secret timestamp sign

  unfoldable pub verify_http_sign : Text → Text → Text → ℕ → ℕ → Option HttpError
  unfolding check_time
  verify_http_sign secret timestamp sign tolerance now =
      if is_empty sign || is_empty timestamp
      then some missing_headers
      else check_time secret timestamp sign tolerance now (parse_int timestamp)

-- The settings of a channel that the callback reads. A tolerance is a whole number of milliseconds; one
-- that is not positive is 0.
pub record HttpConfig : Type 0 where
  pub has_handler : Bool
  pub client_secret : Text
  pub tolerance : ℕ

-- the end of a callback: its error, and the push into the pipeline with its id, if there is one
pub record Callback : Type 0 where
  pub err : Option HttpError
  pub pushed : Option (Text × IncomingMessage)

abbrev pub refuse : HttpError → Callback
refuse e = record { err = some e; pushed = none }

-- a request: its body decoded, if it can be, with the function that decodes strings in it
pub record Request : Type 0 where
  pub is_post : Bool
  pub body : Option Text
  pub decoded : Option CallbackData
  pub decode : Text → Option Fields
  pub timestamp : Text
  pub sign : Text

-- what is done with a body that is signed
unfoldable pub accept : Text → Request → Option CallbackData → Callback
accept raw r none = refuse bad_payload
accept raw r (some d) =
    let msg = normalize_incoming r.decode raw d in
    record { err = none; pushed = some (msg.msg_id, msg) }

unfoldable pub after_verify : Text → Request → Option HttpError → Callback
unfolding accept
after_verify raw r (some e) = refuse e
after_verify raw r none = accept raw r r.decoded

unfoldable pub handle_http_callback :
    (Text → Text → Text) → HttpConfig → ℕ → Text → Request → Callback
unfolding after_verify
handle_http_callback mac cfg now raw r =
    if not cfg.has_handler
    then refuse no_handler
    else after_verify raw r
        (verify_http_sign mac cfg.client_secret r.timestamp r.sign cfg.tolerance now)

-- the status of an answer, with what has been pushed
pub record Answer : Type 0 where
  pub status : ℕ
  pub pushed : Option (Text × IncomingMessage)

unfoldable pub answer_of : Callback → Answer
answer_of c = record { status = elim c.err [ none ↦ 200 | some _ ↦ 401 ]; pushed = c.pushed }

-- the body, if it can be read
unfoldable pub answer_body : (Text → Text → Text) → HttpConfig → ℕ → Request → Option Text → Answer
unfolding answer_of
answer_body mac cfg now r none = record { status = 400; pushed = none }
answer_body mac cfg now r (some raw) = answer_of (handle_http_callback mac cfg now raw r)

-- `HTTPCallbackHandler`
unfoldable pub http_callback_handler : (Text → Text → Text) → HttpConfig → ℕ → Request → Answer
unfolding answer_body
http_callback_handler mac cfg now r =
    if not r.is_post
    then record { status = 405; pushed = none }
    else answer_body mac cfg now r r.body
