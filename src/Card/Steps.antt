-- ===== src/Card/Steps.antt =====
-- card.go: the runs of a streamer: its operations, its timers and the requests of its tasks, in any
-- order.
pub mod Sealed
use dingtalk_channel_sdk_go.Prelude.{
  if◌then◌else◌, Text, ℕ, zero, suc, Option, none, some, List, [], ◌∷◌, ◌++◌, arith,
}
use dingtalk_channel_sdk_go.Card.Streamer.{
  Action, Task, CardStreamer, CardConfig, append, pending_fires, watchdog_fires, finish, abort,
  fail,
}
use dingtalk_channel_sdk_go.Card.Requests.{Answers, Done, perform}

pub data Event : Type 0 where
  appends : ℕ → Text → Event
  pending_timer : ℕ → Event
  watchdog_timer aborts : Event
  finishes fails : Text → Event
  -- the task with this index makes its requests
  performs : ℕ → Answers → Event

-- a task taken out of a list, with the others
unfoldable pub pick : ℕ → List Task → Option (Task × List Task)
pick i [] = none
pick zero (t ∷ ts) = some (t, ts)
pick (suc i) (t ∷ ts) = elim (pick i ts) [ none ↦ none | some (u, us) ↦ some (u, t ∷ us) ]

-- the streamer after a task: what the task has sent is at the end of the log
unfoldable pub settle : List Task → List Action → Done → CardStreamer
settle others log d = record d.streamer { tasks = others; log = log ++ d.sent }

unfoldable pub perform_at :
    CardConfig → Answers → CardStreamer → Option (Task × List Task) → CardStreamer
unfolding settle
perform_at cfg a s none = s
perform_at cfg a s (some (t, others)) = settle others s.log (perform cfg t a s)

unfoldable pub step : CardConfig → CardStreamer → Event → CardStreamer
unfolding perform_at
step cfg s (appends now delta) = (append cfg now delta s).1
step cfg s (pending_timer now) = if s.has_pending then pending_fires now s else s
step cfg s watchdog_timer = watchdog_fires s
step cfg s aborts = abort s
step cfg s (finishes text) = finish text s
step cfg s (fails text) = fail text s
step cfg s (performs i a) = perform_at cfg a s (pick i s.tasks)

unfoldable pub run : CardConfig → CardStreamer → List Event → CardStreamer
run cfg s [] = s
run cfg s (e ∷ es) = run cfg (step cfg s e) es
