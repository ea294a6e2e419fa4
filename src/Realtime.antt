-- ===== src/Realtime.antt =====
-- server/internal/realtime/hub.go: per-user event channels with a bounded queue. A channel is its
-- buffered queue, oldest first, under the number that names it; the map of subscribers is a list of
-- channels with their user. Each call is one step. Subscribe and the cancel function hold the hub's
-- write lock; Publish holds its read lock only, so two publications may run at once in Go, which is
-- not modelled: here one ends before the next begins. Go visits the channels of a map in no fixed
-- order, and each channel is served for itself, so any order gives the same.
pub mod Queues
pub mod Subscribers
mod Examples
use gaggle.Prelude.{
  ℕ, suc, Bool, String, List, [], ◌∷◌, ◌++◌, map, ltb, ◌==◌, if◌then◌else◌, length, drop, delete,
}

-- The payloads that the services publish.
pub data Payload : Type 0 where
  no_payload : Payload
  unread_count : ℕ → Payload
  feed_post : ℕ → ℕ → Payload
  direct_message : ℕ → ℕ → String → Payload

pub record Event : Type 0 where
  pub event_type : String
  pub payload : Payload

pub record Channel : Type 0 where
  pub channel_id : ℕ
  pub user_id : ℕ
  pub queue : List Event

pub record Hub : Type 0 where
  pub subscribers : List Channel
  pub next_channel : ℕ

-- `make(chan Event, 16)`
abbrev pub capacity : ℕ
capacity = 16

abbrev pub resync : Event
resync = record { event_type = "stream.resync"; payload = no_payload }

unfoldable pub new_hub : Hub
new_hub = record { subscribers = []; next_channel = 0 }

-- `Subscribe`: the channel's number stands for the channel and for its cancel function.
unfoldable pub subscribe : Hub → ℕ → ℕ × Hub
subscribe h user_id = (
  h.next_channel,
  record {
    subscribers =
        record { channel_id = h.next_channel; user_id = user_id; queue = [] } ∷ h.subscribers;
    next_channel = suc h.next_channel;
  },
)

-- The function that `Subscribe` returns. `once` makes a second call do nothing, as here.
unfoldable pub cancel : Hub → ℕ → Hub
cancel h channel_id = record h {
  subscribers = delete (λ c. c.channel_id == channel_id) h.subscribers;
}

-- `select { case channel <- event: default: }`: a send that does not block.
abbrev pub try_send : List Event → Event → List Event × Bool
try_send q e = if ltb (length q) capacity then (q ++ e ∷ [], Bool.true) else (q, Bool.false)

-- One round of the loop of `Publish`.
unfoldable pub offer : List Event → Event → List Event
offer q e = let (q', sent) = try_send q e in if sent then q' else (try_send (drop 1 q) resync).0

abbrev pub deliver : ℕ → Event → Channel → Channel
deliver user_id e c = if c.user_id == user_id then record c { queue = offer c.queue e } else c

unfoldable pub publish : Hub → ℕ → Event → Hub
publish h user_id e = record h { subscribers = map (deliver user_id e) h.subscribers }
