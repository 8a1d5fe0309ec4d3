-- ===== src/Card/Requests/Within.antt =====
-- How many final frames and ending statuses the requests of a task hold.
use dingtalk_channel_sdk_go.Prelude.{
  if◌then◌else◌, Bool-cases, is_some, Text, is_empty, ℕ, ◌+◌, ◌≤◌, ◌≡◌, refl, ◌∙◌, inl, inr, Bool,
  true, false, not, ◌||◌, Option, none, some, List, [], ◌∷◌, ◌++◌, arith,
}
use dingtalk_channel_sdk_go.Card.Streamer.{
  CardInstance, inputing, finished, failed, Action, puts, streams, falls_back, delivers_rest, Task,
  updating, finishing, watching, aborting, failing, CardStreamer, CardConfig, Fault, reset_watchdog,
}
use dingtalk_channel_sdk_go.Card.Requests.{
  Answers, Done, done, try_fallback, gap_fails, send_frame, start_inputing, truncate, update_on,
  update, close_card, after_frame, finish_requests, watch_requests, abort_requests, fail_on,
  fail_requests, perform, overflow_remainder, is_blank,
}

unfoldable pub count : (Action → Bool) → List Action → ℕ
count test [] = 0
count test (x ∷ xs) = (if test x then 1 else 0) + count test xs

-- a final frame, and a status that ends the card
abbrev pub is_final : Action → Bool
is_final (streams _ finalize _) = finalize
is_final (puts _ _ _) = false
is_final (falls_back _ _) = false
is_final (delivers_rest _ _) = false

abbrev pub is_ending : Action → Bool
is_ending (puts inputing _ _) = false
is_ending (puts finished _ _) = true
is_ending (puts failed _ _) = true
is_ending (streams _ _ _) = false
is_ending (falls_back _ _) = false
is_ending (delivers_rest _ _) = false

-- a task that closes the card
abbrev pub ends : Task → ℕ
ends (updating _) = 0
ends (finishing _) = 1
ends (watching _) = 1
ends (aborting _) = 1
ends (failing _) = 1

pub count-append :
    (test : Action → Bool) (xs ys : List Action)
    → count test (xs ++ ys) ≡ count test xs + count test ys
unfolding count
count-append test [] ys = omega arith
count-append test (x ∷ xs) ys = omega (arith, count-append test xs ys)

-- What a task does to the streamer: it sends no more final frames and no more ending statuses than
-- it may, and it does not open the streamer.
abbrev pub IsWithin : ℕ → ℕ → CardStreamer → Done → Type 0
IsWithin n m s d =
    (count is_final d.sent ≤ n) × (count is_ending d.sent ≤ m) × (d.streamer.closed ≡ s.closed)

-- neither final frames nor ending statuses
abbrev IsQuiet : List Action → Type 0
IsQuiet xs = (count is_final xs ≡ 0) × (count is_ending xs ≡ 0)

if-IsQuiet :
    (b : Bool) (xs ys : List Action) → IsQuiet xs → IsQuiet ys → IsQuiet (if b then xs else ys)
if-IsQuiet true xs ys hx hy = hx
if-IsQuiet false xs ys hx hy = hy

append-IsQuiet : (xs ys : List Action) → IsQuiet xs → IsQuiet ys → IsQuiet (xs ++ ys)
append-IsQuiet xs ys hx hy = (
  omega (arith, count-append is_final xs ys, hx.0, hy.0),
  omega (arith, count-append is_ending xs ys, hx.1, hy.1),
)

try_fallback-IsQuiet :
    (cfg : CardConfig) (text : Text) (ok : Bool) → IsQuiet (try_fallback cfg text ok).1
unfolding try_fallback count
try_fallback-IsQuiet cfg text ok = elim (Bool-cases (not cfg.has_fallback || is_blank text)) [
  | inl none_sent ↦ rw none_sent (refl, refl)
  | inr one_sent ↦ rw one_sent (refl, refl)
]

-- the final frames and the ending statuses that an update may send
abbrev finals_of : Bool → ℕ
finals_of finalize = if finalize then 1 else 0

send_frame-IsWithin :
    (cfg : CardConfig) (content : Text) (finalize : Bool) (a : Answers) (s : CardStreamer)
    → IsWithin (finals_of finalize) 0 s (send_frame cfg content finalize a s)
unfolding send_frame done reset_watchdog count
send_frame-IsWithin cfg content finalize a s = (omega arith, omega arith, refl)

if-IsWithin :
    (n m : ℕ) (s : CardStreamer) (b : Bool) (x y : Done)
    → IsWithin n m s x
    → IsWithin n m s y
    → IsWithin n m s (if b then x else y)
if-IsWithin n m s true x y hx hy = hx
if-IsWithin n m s false x y hx hy = hy

start_inputing-IsWithin :
    (cfg : CardConfig) (content : Text) (finalize : Bool) (a : Answers) (s : CardStreamer)
    → IsWithin (finals_of finalize) 0 s (start_inputing cfg content finalize a s)
unfolding start_inputing done count
start_inputing-IsWithin cfg content finalize a s =
    let started = record s { card = some (record { inputing_started = true }) } in
    let h = send_frame-IsWithin cfg content finalize a started in
    if-IsWithin (finals_of finalize) 0 s a.inputing_ok _ _
      (omega (arith, h.0), omega (arith, h.1), h.2) (omega arith, omega arith, refl)

update_on-IsWithin :
    (cfg : CardConfig) (content : Text) (finalize : Bool) (a : Answers) (s : CardStreamer)
    (card : Option CardInstance)
    → IsWithin (finals_of finalize) 0 s (update_on cfg content finalize a s card)
unfolding update_on done count
update_on-IsWithin cfg content finalize a s none = (omega arith, omega arith, refl)
update_on-IsWithin cfg content finalize a s (some card) =
    let n = finals_of finalize in
    if-IsWithin n 0 s (gap_fails s finalize a) _ _ (omega arith, omega arith, refl)
      (if-IsWithin n 0 s card.inputing_started _ _
        (send_frame-IsWithin cfg (truncate content) finalize a s)
        (start_inputing-IsWithin cfg (truncate content) finalize a s))

-- the answers of the requests that follow a final frame or that stand in its place
rest-IsQuiet :
    (cfg : CardConfig) (content : Text) (a : Answers)
    → IsQuiet (
        (if a.status_ok then [] else (try_fallback cfg content a.fallback_ok).1)
        ++ (if is_empty (overflow_remainder content) || not cfg.has_rest
            then []
            else delivers_rest (overflow_remainder content) a.rest_ok ∷ []))
unfolding count
rest-IsQuiet cfg content a =
    append-IsQuiet (if a.status_ok then [] else (try_fallback cfg content a.fallback_ok).1) _
      (if-IsQuiet a.status_ok [] _ (refl, refl) (try_fallback-IsQuiet cfg content a.fallback_ok))
      (if-IsQuiet (is_empty (overflow_remainder content) || not cfg.has_rest) [] _ (refl, refl)
        (refl, refl))

close_card-IsWithin :
    (cfg : CardConfig) (content : Text) (a : Answers) (s : CardStreamer)
    → IsWithin 0 1 s (close_card cfg content a s)
unfolding close_card done count
close_card-IsWithin cfg content a s =
    let quiet = rest-IsQuiet cfg content a in (omega (arith, quiet.0), omega (arith, quiet.1), refl)

after_frame-IsWithin :
    (cfg : CardConfig) (content : Text) (a : Answers) (s : CardStreamer) (d : Done)
    (fault : Option Fault)
    → IsWithin 1 0 s d
    → IsWithin 1 1 s (after_frame cfg content a d.sent d.streamer fault)
unfolding after_frame done
after_frame-IsWithin cfg content a s d (some e) h =
    let quiet = try_fallback-IsQuiet cfg content a.fallback_ok in
    let extra = (try_fallback cfg content a.fallback_ok).1 in
    (
      omega (arith, count-append is_final d.sent extra, quiet.0, h.0),
      omega (arith, count-append is_ending d.sent extra, quiet.1, h.1),
      h.2,
    )
after_frame-IsWithin cfg content a s d none h =
    let closing = close_card-IsWithin cfg content a d.streamer in
    let extra = (close_card cfg content a d.streamer).sent in
    (
      omega (arith, count-append is_final d.sent extra, closing.0, h.0),
      omega (arith, count-append is_ending d.sent extra, closing.1, h.1),
      closing.2 ∙ h.2,
    )

finish_requests-IsWithin :
    (cfg : CardConfig) (content : Text) (a : Answers) (s : CardStreamer)
    → IsWithin 1 1 s (finish_requests cfg content a s)
unfolding finish_requests done update
finish_requests-IsWithin cfg content a s =
    let quiet = try_fallback-IsQuiet cfg content a.fallback_ok in
    let d = update cfg content true a s in
    if-IsWithin 1 1 s (is_some s.card) _ _
      (after_frame-IsWithin cfg content a s d d.fault
        (update_on-IsWithin cfg content true a s s.card))
      (omega (arith, quiet.0), omega (arith, quiet.1), refl)

watch_requests-IsWithin :
    (cfg : CardConfig) (content : Text) (a : Answers) (s : CardStreamer)
    → IsWithin 1 1 s (watch_requests cfg content a s)
unfolding watch_requests done count
watch_requests-IsWithin cfg content a s =
    if-IsWithin 1 1 s a.frame_ok _ _ (omega arith, omega arith, refl)
      (omega arith, omega arith, refl)

abort_requests-IsWithin :
    (cfg : CardConfig) (content : Text) (a : Answers) (s : CardStreamer)
    → IsWithin 1 1 s (abort_requests cfg content a s)
unfolding abort_requests done count
abort_requests-IsWithin cfg content a s =
    if-IsWithin 1 1 s (is_some s.card) _ _ (omega arith, omega arith, refl)
      (omega arith, omega arith, refl)

fail_on-IsWithin :
    (cfg : CardConfig) (text : Text) (a : Answers) (card : Option CardInstance)
    → (count is_final (fail_on cfg text a card) ≤ 1)
      × (count is_ending (fail_on cfg text a card) ≤ 1)
unfolding fail_on count
fail_on-IsWithin cfg text a none = (omega arith, omega arith)
fail_on-IsWithin cfg text a (some card) = elim (Bool-cases card.inputing_started) [
  | inl started ↦ rw started (omega arith, omega arith)
  | inr fresh ↦ rw fresh (omega arith, omega arith)
]

fail_requests-IsWithin :
    (cfg : CardConfig) (text : Text) (a : Answers) (s : CardStreamer)
    → IsWithin 1 1 s (fail_requests cfg text a s)
unfolding fail_requests done
fail_requests-IsWithin cfg text a s =
    let quiet = try_fallback-IsQuiet cfg text a.fallback_ok in
    let extra = (try_fallback cfg text a.fallback_ok).1 in
    let (few, fewer) = fail_on-IsWithin cfg text a s.card in
    (
      omega (arith, count-append is_final (fail_on cfg text a s.card) extra, quiet.0, few),
      omega (arith, count-append is_ending (fail_on cfg text a s.card) extra, quiet.1, fewer),
      refl,
    )

pub perform-IsWithin :
    (cfg : CardConfig) (t : Task) (a : Answers) (s : CardStreamer)
    → IsWithin (ends t) (ends t) s (perform cfg t a s)
unfolding perform update
perform-IsWithin cfg (updating content) a s = update_on-IsWithin cfg content false a s s.card
perform-IsWithin cfg (finishing content) a s = finish_requests-IsWithin cfg content a s
perform-IsWithin cfg (watching content) a s = watch_requests-IsWithin cfg content a s
perform-IsWithin cfg (aborting content) a s = abort_requests-IsWithin cfg content a s
perform-IsWithin cfg (failing text) a s = fail_requests-IsWithin cfg text a s
