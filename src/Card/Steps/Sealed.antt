-- ===== src/Card/Steps/Sealed.antt =====
-- A card is closed once.
use dingtalk_channel_sdk_go.Prelude.{
  if◌then◌else◌, Option-cases, is_some, some_inj, Text, ℕ, zero, suc, ◌+◌, ◌≤◌, ◌≡◌, refl, sym, ap,
  ◌∙◌, inl, inr, Bool, true, false, not, ◌||◌, Option, none, some, List, [], ◌∷◌, ◌++◌, arith,
}
use dingtalk_channel_sdk_go.Card.Streamer.{
  Task, updating, finishing, watching, aborting, failing, CardStreamer, CardConfig, Fault, place,
  add_task, append, pending_fires, watchdog_fires, finish, abort, fail, new_streamer,
  reset_watchdog, reached, passed, long_gap_threshold,
}
use dingtalk_channel_sdk_go.Card.Requests.{Answers, Done, perform}
use dingtalk_channel_sdk_go.Card.Requests.Within.{
  count, is_final, is_ending, ends, count-append, IsWithin, perform-IsWithin,
}
use dingtalk_channel_sdk_go.Card.Steps.{
  Event, appends, pending_timer, watchdog_timer, aborts, finishes, fails, performs, pick, settle,
  perform_at, step, run,
}

unfoldable endings : List Task → ℕ
endings [] = 0
endings (t ∷ ts) = ends t + endings ts

endings-append : (xs ys : List Task) → endings (xs ++ ys) ≡ endings xs + endings ys
unfolding endings
endings-append [] ys = omega arith
endings-append (x ∷ xs) ys = omega (arith, endings-append xs ys)

endings-add_task : (ts : List Task) (t : Task) → endings (ts ++ (t ∷ [])) ≡ ends t + endings ts
unfolding endings
endings-add_task ts t = omega (arith, endings-append ts (t ∷ []))

endings-pick :
    (i : ℕ) (ts : List Task) (t : Task) (us : List Task)
    → pick i ts ≡ some (t, us)
    → endings ts ≡ ends t + endings us
unfolding endings pick
endings-pick i [] t us e = absurd (cc)
endings-pick zero (u ∷ ts) t us e =
    let both = some_inj e in rw (ap (λ p. p.0) both, ap (λ p. p.1) both) refl
endings-pick (suc i) (u ∷ ts) t us e = elim (Option-cases (pick i ts)) [
  | inl missing ↦ let wrong = (rw missing at e) in absurd (cc)
  | inr ((v, vs), found) ↦
      let both = some_inj (rw found at e) in
      let ih = endings-pick i ts v vs found in
      let same : v ≡ t = ap (λ p. p.0) both in
      let others : u ∷ vs ≡ us = ap (λ p. p.1) both in rw (sym same, sym others) (omega (arith, ih))
]

-- what may still close the card, and what has: at most one of a streamer that is closed, and none of
-- an open one
abbrev pub limit_of : Bool → ℕ
limit_of closed = if closed then 1 else 0

abbrev IsSealed : CardStreamer → Type 0
IsSealed s =
    (endings s.tasks + count is_final s.log ≤ limit_of s.closed)
    × (endings s.tasks + count is_ending s.log ≤ limit_of s.closed)

if-IsSealed :
    (b : Bool) (x y : CardStreamer) → IsSealed x → IsSealed y → IsSealed (if b then x else y)
if-IsSealed true x y hx hy = hx
if-IsSealed false x y hx hy = hy

pair-IsSealed :
    (b : Bool) (x y : Option Fault × CardStreamer)
    → IsSealed x.1
    → IsSealed y.1
    → IsSealed (if b then x else y).1
pair-IsSealed true x y hx hy = hx
pair-IsSealed false x y hx hy = hy

-- an update is planned
add_task-IsSealed :
    (s : CardStreamer) (content : Text) → IsSealed s → IsSealed (add_task (updating content) s)
add_task-IsSealed s content h =
    let same = endings-add_task s.tasks (updating content) in
    (omega (arith, same, h.0), omega (arith, same, h.1))

-- a task that closes the card is planned, where the streamer is open
close-IsSealed :
    (s : CardStreamer) (t : Task) (d : CardStreamer) (was_closed : Bool)
    → (was_closed ≡ false → s.closed ≡ false)
    → ends t ≡ 1
    → IsSealed s
    → d.tasks ≡ s.tasks ++ (t ∷ [])
    → d.log ≡ s.log
    → d.closed ≡ true
    → IsSealed (if was_closed then s else d)
close-IsSealed s t d true was one h tasks log closed = h
close-IsSealed s t d false was one h tasks log closed =
    let planned : endings d.tasks ≡ ends t + endings s.tasks =
      ap endings tasks ∙ endings-add_task s.tasks t in
    let zero_before : limit_of s.closed ≡ 0 = ap limit_of (was refl) in
    let one_after : limit_of d.closed ≡ 1 = ap limit_of closed in
    (
      omega (arith, planned, one, zero_before, one_after, ap (count is_final) log, h.0),
      omega (arith, planned, one, zero_before, one_after, ap (count is_ending) log, h.1),
    )

settle-IsSealed :
    (s : CardStreamer) (t : Task) (us : List Task) (d : Done)
    → IsSealed s
    → endings s.tasks ≡ ends t + endings us
    → IsWithin (ends t) (ends t) s d
    → IsSealed (settle us s.log d)
unfolding settle
settle-IsSealed s t us d h picked (finals, closings, kept) =
    let same : limit_of d.streamer.closed ≡ limit_of s.closed = ap limit_of kept in
    (
      omega (arith, same, picked, finals, count-append is_final s.log d.sent, h.0),
      omega (arith, same, picked, closings, count-append is_ending s.log d.sent, h.1),
    )

perform_at-IsSealed :
    (cfg : CardConfig) (a : Answers) (s : CardStreamer) (o : Option (Task × List Task))
    → IsSealed s
    → ((t : Task) (us : List Task) → o ≡ some (t, us) → endings s.tasks ≡ ends t + endings us)
    → IsSealed (perform_at cfg a s o)
unfolding perform_at
perform_at-IsSealed cfg a s none h picked = h
perform_at-IsSealed cfg a s (some (t, us)) h picked =
    settle-IsSealed s t us (perform cfg t a s) h (picked t us refl) (perform-IsWithin cfg t a s)

append-IsSealed :
    (cfg : CardConfig) (now : ℕ) (delta : Text) (s : CardStreamer)
    → IsSealed s
    → IsSealed (append cfg now delta s).1
unfolding append place
append-IsSealed cfg now delta s h = pair-IsSealed s.closed _ _ h (
    if-IsSealed (is_some s.card) _ _
      (if-IsSealed (reached now s.last_update cfg.throttle) _ _
        (if-IsSealed (passed now s.last_update long_gap_threshold) _ _ h (
          add_task-IsSealed
            (record s { last_update = some now; accumulated = s.accumulated ++ delta })
            (s.accumulated ++ delta) h))
        h)
      h)

step-IsSealed :
    (cfg : CardConfig) (s : CardStreamer) (e : Event) → IsSealed s → IsSealed (step cfg s e)
unfolding step pending_fires watchdog_fires finish abort fail
step-IsSealed cfg s (appends now delta) h = append-IsSealed cfg now delta s h
step-IsSealed cfg s (pending_timer now) h =
    if-IsSealed s.has_pending _ _
      (if-IsSealed (s.closed || not (is_some s.card)) _ _ h (
        add_task-IsSealed (record s { has_pending = false; last_update = some now }) s.accumulated
          h))
      h
step-IsSealed cfg s watchdog_timer h =
    close-IsSealed s (watching s.accumulated) _ (s.closed || not (is_some s.card))
      (λ e. ground arith) refl h refl refl refl
step-IsSealed cfg s aborts h =
    close-IsSealed s (aborting s.accumulated) _ s.closed (λ e. e) refl h refl refl refl
step-IsSealed cfg s (finishes text) h =
    close-IsSealed s (finishing _) _ s.closed (λ e. e) refl h refl refl refl
step-IsSealed cfg s (fails text) h =
    close-IsSealed s (failing text) _ s.closed (λ e. e) refl h refl refl refl
step-IsSealed cfg s (performs i a) h =
    perform_at-IsSealed cfg a s (pick i s.tasks) h (endings-pick i s.tasks)

run-IsSealed :
    (cfg : CardConfig) (s : CardStreamer) (es : List Event) → IsSealed s → IsSealed (run cfg s es)
unfolding run
run-IsSealed cfg s [] h = h
run-IsSealed cfg s (e ∷ es) h = run-IsSealed cfg (step cfg s e) es (step-IsSealed cfg s e h)

new_streamer-IsSealed : (cfg : CardConfig) (created : Bool) → IsSealed (new_streamer cfg created)
unfolding new_streamer reset_watchdog endings count
new_streamer-IsSealed cfg created = (omega arith, omega arith)

-- Whatever is called on a streamer and in whatever order its timers and requests come, at most one
-- final frame and at most one FINISHED or FAILED status are sent, and none while it is open.
pub run-new_streamer :
    (cfg : CardConfig) (created : Bool) (es : List Event)
    → let s = run cfg (new_streamer cfg created) es in
      (count is_final s.log ≤ limit_of s.closed) × (count is_ending s.log ≤ limit_of s.closed)
run-new_streamer cfg created es =
    let start = new_streamer cfg created in
    let h = run-IsSealed cfg start es (new_streamer-IsSealed cfg created) in
    (omega (arith, h.0), omega (arith, h.1))
