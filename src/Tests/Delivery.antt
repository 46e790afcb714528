-- ===== src/Tests/Delivery.antt =====
-- The delivery of one event, and a user who sends too much.
use nexus_services.Shared.{
  ℕ, suc, ◌≤◌, ◌<◌, ◌≡◌, refl, false, some, List, [], ◌∷◌, ok, err, arith, length,
}
use nexus_services.Shared.Int.{pos}
use nexus_services.Text.{bytes}
use nexus_services.Domain.Chat.{Chat}
use nexus_services.Ports.{other, MessageCreatedEvent, message_created_event_type_v1}
use nexus_services.Delivery.Dispatch.{DispatchPorts, dispatch}
use nexus_services.Delivery.Notifications.{noted, Notified, dispatch-Notified}
use nexus_services.Delivery.Runner.{Metadata, RunnerPorts, chat_events, message_delivery}
use nexus_services.RateLimiter.{
  reserve_at, minimum, active_timestamps, window_retry_at, burst_window, burst_limit, minute_limit,
  reservation_pipeline,
}
use nexus_services.RateLimiter.Waits.{StoredPrompt, reserve_all-StoredPrompt}
use nexus_services.RateLimiter.Limits.{
  StoredLimited, reserve_all, reserve_all-StoredLimited, Granted, in_window, retry-Granted,
}

abbrev created_event : MessageCreatedEvent
created_event = record {
  event_id = bytes "e1";
  event_type = message_created_event_type_v1;
  aggregate_type = bytes "CHAT";
  aggregate_id = bytes "c1";
  occurred_at = 5;
  payload = record {
    message_id = bytes "m1";
    client_message_id = [];
    chat_id = bytes "c1";
    sequence = pos 1;
    sender_id = bytes "ann";
    content = record {
      content_type = bytes "TEXT";
      value = bytes "hi";
      image_id = [];
      caption = [];
    };
    created_at = 5;
  };
}

abbrev chat_of_two : Chat
chat_of_two = record {
  id = bytes "c1";
  participant_one_id = bytes "ann";
  participant_two_id = bytes "bob";
  created_at = 5;
  updated_at = 5;
  summary_sort_at = 5;
  last_sequence = 1;
}

abbrev online : DispatchPorts ℕ
online = record {
  done = λ n. false;
  find_by_id = λ id n. (ok (some chat_of_two), suc n);
  publish_message_created = λ user event n. (ok tt, suc n);
}

dispatch-Notified_example :
    let (r, (_, notices)) = dispatch (noted online) created_event (0, []) in
    Notified online created_event 0 notices r
dispatch-Notified_example = dispatch-Notified online created_event 0

abbrev broker : RunnerPorts ℕ
broker = record {
  decode = λ payload. some created_event;
  handle = λ event n. (err other, suc n);
  publish_failure = λ failure n. (ok tt, suc n);
  nak_with_delay = λ delay n. (ok tt, suc n);
  double_ack = λ n. (ok tt, suc n);
  term_with_reason = λ reason n. (ok tt, suc n);
}

abbrev third_delivery : Metadata
third_delivery = record {
  stream = chat_events;
  consumer = message_delivery;
  stream_sequence = 9;
  num_delivered = 3;
}

reserve_all-StoredLimited_example : StoredLimited (reserve_all (70 ∷ 60 ∷ 50 ∷ []))
reserve_all-StoredLimited_example = reserve_all-StoredLimited (70 ∷ 60 ∷ 50 ∷ [])

-- Thirty messages at one time: the next one has to wait for ten seconds.
abbrev burst : List ℕ
burst =
    7 ∷ 7 ∷ 7 ∷ 7 ∷ 7 ∷ 7 ∷ 7 ∷ 7 ∷ 7 ∷ 7 ∷ 7 ∷ 7 ∷ 7 ∷ 7 ∷ 7 ∷ 7 ∷ 7 ∷ 7 ∷ 7 ∷ 7 ∷ 7 ∷ 7 ∷ 7 ∷ 7
    ∷ 7 ∷ 7 ∷ 7 ∷ 7 ∷ 7 ∷ 7 ∷ []

burst_waits : (reserve_at 8 burst).retry_at ≡ 10_007
unfolding reserve_at active_timestamps window_retry_at minimum
burst_waits = refl

burst_short : length burst ≤ minute_limit
burst_short = omega arith

burst_full : in_window 8 burst_window burst ≤ burst_limit
unfolding active_timestamps
burst_full = omega arith

burst_held : (8 < (reserve_at 8 burst).retry_at) × ((reserve_at 8 burst).retry_at ≤ 10_007)
burst_held = (rw burst_waits (omega arith), rw burst_waits (omega arith))

retry-Granted_example : Granted (reservation_pipeline 10_007 (some (reserve_at 8 burst)))
retry-Granted_example =
    retry-Granted 8 10_007 burst burst_short burst_full burst_held.0 burst_held.1

reserve_all-StoredPrompt_example : StoredPrompt (reserve_all (50 ∷ 60 ∷ 70 ∷ []))
reserve_all-StoredPrompt_example = reserve_all-StoredPrompt (50 ∷ 60 ∷ 70 ∷ [])
