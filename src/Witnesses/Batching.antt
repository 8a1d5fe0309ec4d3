-- ===== src/Witnesses/Batching.antt =====
-- The older batching.
use dingtalk_channel_sdk_go.Prelude.{length, bytes, ◌+◌, ◌≡◌, true, List, [], ◌∷◌}
use dingtalk_channel_sdk_go.Types.{BatchConfig}
use dingtalk_channel_sdk_go.Safety.Queue.{extract_message_ids}
use dingtalk_channel_sdk_go.Safety.Batching.{
  new_chat_pipeline, Event, pushes, timer_fires, flush_starts, flush_finishes, run,
}
use dingtalk_channel_sdk_go.Safety.Batching.Account.{tally, sources_of, pushed}
use dingtalk_channel_sdk_go.Safety.Batching.Drains.{finishes, run_drains}
use dingtalk_channel_sdk_go.Witnesses.Samples.{message}

abbrev config : BatchConfig
config = record {
  delay = 500;
  long_threshold_chars = 200;
  long_delay = 1500;
  max_messages = 2;
  max_chars = 4000;
}

abbrev events : List Event
events =
    pushes (record message { msg_id = bytes "a" })
    ∷ pushes (record message { msg_id = bytes "b" })
    ∷ pushes (record message { msg_id = bytes "c" })
    ∷ flush_starts
    ∷ flush_finishes 0
    ∷ pushes (record message { msg_id = bytes "d" })
    ∷ []

run_drains_example :
    let p = run (new_chat_pipeline config true) events in
    let q = run p (timer_fires ∷ flush_starts ∷ []) in
    let end = run q (finishes (length q.taken)) in
    (tally (bytes "c") (sources_of p.handed)
        + tally (bytes "c") (sources_of p.taken)
        + tally (bytes "c") (extract_message_ids p.buffer)
      ≡ tally (bytes "c") (pushed events))
    × (tally (bytes "c") (sources_of end.handed) ≡ tally (bytes "c") (pushed events))
run_drains_example = run_drains config events (bytes "c") (tt, (tt, (tt, (tt, (tt, (tt, tt))))))
