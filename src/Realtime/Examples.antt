-- ===== src/Realtime/Examples.antt =====
-- Runs of the hub.
use gaggle.Prelude.{◌≡◌, [], ◌∷◌, All₂}
use gaggle.Realtime.{Event, Hub, no_payload, new_hub, subscribe, cancel}
use gaggle.Realtime.Queues.{Served, publish_all, publish_all-Served}
use gaggle.Realtime.Subscribers.{start, next, subscribes, subscribe-cancelled}

abbrev ping : Event
ping = record { event_type = "notification.new"; payload = no_payload }

abbrev waiting : Hub
waiting = record {
  subscribers =
      record { channel_id = 0; user_id = 7; queue = ping ∷ [] }
      ∷ record { channel_id = 1; user_id = 8; queue = [] }
      ∷ [];
  next_channel = 2;
}

publish_all-Served_example :
    All₂
      (Served 7 (ping ∷ ping ∷ []))
      waiting.subscribers
      (publish_all waiting 7 (ping ∷ ping ∷ [])).subscribers
publish_all-Served_example = publish_all-Served waiting 7 (ping ∷ ping ∷ [])

subscribe-cancelled_example :
    (cancel
      (publish_all (subscribe (subscribe new_hub 7).1 7).1 7 (ping ∷ ping ∷ []))
      (subscribe (subscribe new_hub 7).1 7).0).subscribers
    ≡ (publish_all (subscribe new_hub 7).1 7 (ping ∷ ping ∷ [])).subscribers
subscribe-cancelled_example =
    subscribe-cancelled 7 7 (ping ∷ ping ∷ []) (next start (subscribes new_hub 7))
