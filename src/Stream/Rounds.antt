-- ===== src/Stream/Rounds.antt =====
-- How a run ends, and which hooks it fires.
use dingtalk_channel_sdk_go.Prelude.{
  if◌then◌else◌, Bool-cases, ℤ, ℕ, suc, ◌+◌, ◌≤◌, ◌≡◌, refl, ◌∙◌, ◌≢◌, inl, inr, Bool, true, false,
  Option, none, some, List, [], ◌∷◌, ◌++◌, arith,
}
use dingtalk_channel_sdk_go.Frame.{Frame}
use dingtalk_channel_sdk_go.Stream.{
  Action, fires_ready, fires_reconnected, fires_error, fires_disconnected, fires_reconnecting,
  writes, hands, pings, closes, handle_frame, ReadEvent, text_frame, read_error, ping_failed, pong,
  pong_timeout, pong_error, read_stopped, read_cancelled, End, ends_nil, ends_error, ends_ctx,
  read_loop, Attempt, open_fails, dial_fails, closed_first, session, run_once, Wait, elapses,
  stop_comes, context_ends, Round, Settings, Run, reconnection, ended, after_wait, conclude, run,
  backoff_delay,
}

-- how often a log fires the ready hook
unfoldable pub readies : List Action → ℕ
readies [] = 0
readies (fires_ready ∷ log) = suc (readies log)
readies (fires_reconnected ∷ log) = readies log
readies (fires_disconnected ∷ log) = readies log
readies (fires_reconnecting ∷ log) = readies log
readies (fires_error ∷ log) = readies log
readies (writes _ ∷ log) = readies log
readies (hands _ ∷ log) = readies log
readies (pings ∷ log) = readies log
readies (closes ∷ log) = readies log

readies-append : (xs ys : List Action) → readies (xs ++ ys) ≡ readies xs + readies ys
unfolding readies
readies-append [] ys = omega arith
readies-append (fires_ready ∷ xs) ys = omega (arith, readies-append xs ys)
readies-append (fires_reconnected ∷ xs) ys = readies-append xs ys
readies-append (fires_disconnected ∷ xs) ys = readies-append xs ys
readies-append (fires_reconnecting ∷ xs) ys = readies-append xs ys
readies-append (fires_error ∷ xs) ys = readies-append xs ys
readies-append (writes _ ∷ xs) ys = readies-append xs ys
readies-append (hands _ ∷ xs) ys = readies-append xs ys
readies-append (pings ∷ xs) ys = readies-append xs ys
readies-append (closes ∷ xs) ys = readies-append xs ys

readies-handle_frame :
    (has_handler : Bool) (f : Option Frame) → readies (handle_frame has_handler f) ≡ 0
unfolding handle_frame readies
readies-handle_frame has_handler none = refl
readies-handle_frame has_handler (some f) = ground arith

readies-read_loop :
    (has_hooks has_handler : Bool) (es : List ReadEvent)
    → readies (read_loop has_hooks has_handler es).1 ≡ 0
unfolding read_loop readies
readies-read_loop has_hooks has_handler [] = refl
readies-read_loop has_hooks has_handler (text_frame f ∷ es) =
    readies-append (handle_frame has_handler f) (read_loop has_hooks has_handler es).1
    ∙ omega (arith, readies-handle_frame has_handler f, readies-read_loop has_hooks has_handler es)
readies-read_loop has_hooks has_handler (read_error ∷ es) = ground arith
readies-read_loop has_hooks has_handler (pong ∷ es) = readies-read_loop has_hooks has_handler es
readies-read_loop has_hooks has_handler (ping_failed ∷ es) = refl
readies-read_loop has_hooks has_handler (pong_timeout ∷ es) = refl
readies-read_loop has_hooks has_handler (pong_error ∷ es) = refl
readies-read_loop has_hooks has_handler (read_stopped ∷ es) = refl
readies-read_loop has_hooks has_handler (read_cancelled ∷ es) = refl

-- the most that an attempt may add
abbrev pub allowed : Bool → ℕ
allowed first = if first then 1 else 0

readies-run_once :
    (s : Settings) (first : Bool) (a : Attempt)
    → readies (run_once s.has_hooks s.has_handler first a).1 ≤ allowed first
unfolding run_once readies
readies-run_once s first open_fails = ground arith
readies-run_once s first dial_fails = ground arith
readies-run_once s first closed_first = ground arith
readies-run_once s first (session es) =
    ground (arith, readies-read_loop s.has_hooks s.has_handler es)

readies-reconnection : (s : Settings) → readies (reconnection s) ≡ 0
unfolding reconnection readies
readies-reconnection s = ground arith

-- What a run promises: with reconnection on it does not end with an error, and the ready hook is
-- fired no more often than is allowed.
abbrev IsOrderly : Settings → ℕ → Run → Type 0
IsOrderly s n r = (s.reconnects ≡ true → r.result ≢ some ends_error) × (readies r.log ≤ n)

ended-IsOrderly :
    (s : Settings) (n : ℕ) (e : Option End) (log : List Action) (delays : List ℤ)
    → (s.reconnects ≡ true → e ≢ some ends_error)
    → readies log ≤ n
    → IsOrderly s n (ended e log delays)
unfolding ended
ended-IsOrderly s n e log delays safe few = (safe, few)

after_wait-IsOrderly :
    (s : Settings) (log : List Action) (delay : ℤ) (rest : Run) (n : ℕ) (w : Wait)
    → s.reconnects ≡ true
    → readies log ≤ n
    → IsOrderly s 0 rest
    → IsOrderly s n (after_wait log delay rest w)
unfolding after_wait ended
after_wait-IsOrderly s log delay rest n elapses again few h =
    (λ _. h.0 again, omega (arith, readies-append log rest.log, few, h.1))
after_wait-IsOrderly s log delay rest n stop_comes again few h = (λ _ e. absurd (cc), few)
after_wait-IsOrderly s log delay rest n context_ends again few h = (λ _ e. absurd (cc), few)

conclude-IsOrderly :
    (s : Settings) (r : Round) (log : List Action) (delay : ℤ) (rest : Run) (n : ℕ) (e : Option End)
    → readies log ≤ n
    → IsOrderly s 0 rest
    → IsOrderly s n (conclude s r log delay rest e)
unfolding conclude ended
conclude-IsOrderly s r log delay rest n none few h =
    ended-IsOrderly s n none log [] (λ _ e. absurd (cc)) few
conclude-IsOrderly s r log delay rest n (some e) few h =
    let log' = log ++ reconnection s in
    let few' : readies log' ≤ n =
      omega (arith, readies-append log (reconnection s), readies-reconnection s, few) in
    elim (Bool-cases r.stopped) [
      | inl stop ↦ rw stop (ended-IsOrderly s n (some ends_nil) log [] (λ _ e. absurd (cc)) few)
      | inr on ↦ elim (Bool-cases r.cancelled) [
        | inl over ↦
            rw (on, over) (ended-IsOrderly s n (some ends_ctx) log [] (λ _ e. absurd (cc)) few)
        | inr live ↦ elim (Bool-cases s.reconnects) [
          | inl again ↦
              let waited = after_wait-IsOrderly s log' delay rest n r.wait again few' h in
              rw (on, live, again) (λ _. waited.0 again, waited.1)
          | inr once ↦ rw (on, live, once) (λ again. absurd (cc), few)
        ]
      ]
    ]

run-IsOrderly :
    (s : Settings) (attempt : ℕ) (first : Bool) (rs : List Round)
    → IsOrderly s (allowed first) (run s attempt first rs)
unfolding run ended readies
run-IsOrderly s attempt first [] = (λ _ e. absurd (cc), omega arith)
run-IsOrderly s attempt first (r ∷ rs) =
    let (end, log, connected) = run_once s.has_hooks s.has_handler first r.attempt in
    let count = if connected then 0 else attempt in
    conclude-IsOrderly s r log (backoff_delay count r.jitter) (run s (suc count) false rs)
      (allowed first) end (readies-run_once s first r.attempt)
      (run-IsOrderly s (suc count) false rs)

-- A run of the connection with reconnection on does not end with an error of the connection, whatever
-- the attempts meet. The ready hook is fired at most once, by the first attempt, and never after it.
pub run-reconnects :
    (s : Settings) (attempt : ℕ) (first : Bool) (rs : List Round)
    → s.reconnects ≡ true
    → ((run s attempt first rs).result ≢ some ends_error)
      × (readies (run s attempt first rs).log ≤ allowed first)
run-reconnects s attempt first rs on = let h = run-IsOrderly s attempt first rs in (h.0 on, h.1)
