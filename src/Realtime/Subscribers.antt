-- ===== src/Realtime/Subscribers.antt =====
-- The map of subscribers through the life of the hub: the numbers of the channels, the bound on
-- every queue, and what a cancelled subscription leaves.
use gaggle.Prelude.{
  ℕ, suc, ◌≤◌, ◌<◌, ◌≡◌, refl, ap, ◌∙◌, List, [], ◌∷◌, map, arith, ◌==◌, if◌then◌else◌, length,
  drop, delete, All,
}
use gaggle.Realtime.{Event, Channel, Hub, capacity, new_hub, subscribe, cancel, publish, deliver}
use gaggle.Realtime.Queues.{length-offer, publish_all}

-- A channel's number was drawn, and its queue fits its buffer.
abbrev pub Fits : ℕ → Channel → Type 0
Fits next c = (c.channel_id < next) × (length c.queue ≤ capacity)

abbrev pub IsValid : Hub → Type 0
IsValid h = All (Fits h.next_channel) h.subscribers

All-Fits-suc : (n : ℕ) (cs : List Channel) → All (Fits n) cs → All (Fits (suc n)) cs
All-Fits-suc n [] v = tt
All-Fits-suc n (c ∷ cs) v = ((omega arith, v.0.1), All-Fits-suc n cs v.1)

All-Fits-delete :
    (n channel_id : ℕ) (cs : List Channel)
    → All (Fits n) cs
    → All (Fits n) (delete (λ c. c.channel_id == channel_id) cs)
All-Fits-delete n channel_id [] v = tt
All-Fits-delete n channel_id (c ∷ cs) v = ground (arith, All-Fits-delete n channel_id cs v.1)

deliver-Fits : (n user_id : ℕ) (e : Event) (c : Channel) → Fits n c → Fits n (deliver user_id e c)
deliver-Fits n user_id e c v = ground (arith, length-offer c.queue e v.1)

All-Fits-deliver :
    (n user_id : ℕ) (e : Event) (cs : List Channel)
    → All (Fits n) cs
    → All (Fits n) (map (deliver user_id e) cs)
All-Fits-deliver n user_id e [] v = tt
All-Fits-deliver n user_id e (c ∷ cs) v =
    (deliver-Fits n user_id e c v.0, All-Fits-deliver n user_id e cs v.1)

-- The client's end: `<-channel` takes the oldest event.
abbrev take_event : ℕ → Channel → Channel
take_event channel_id c =
    if c.channel_id == channel_id then record c { queue = drop 1 c.queue } else c

length-drop-one : (q : List Event) → length q ≤ capacity → length (drop 1 q) ≤ capacity
length-drop-one [] h = omega arith
length-drop-one (e ∷ q) h = omega arith

All-Fits-take_event :
    (n channel_id : ℕ) (cs : List Channel)
    → All (Fits n) cs
    → All (Fits n) (map (take_event channel_id) cs)
All-Fits-take_event n channel_id [] v = tt
All-Fits-take_event n channel_id (c ∷ cs) v =
    ground (arith, length-drop-one c.queue v.0.1, All-Fits-take_event n channel_id cs v.1)

-- What may happen to the hub: a handler subscribes or cancels, a service publishes, and a client
-- receives.
pub data Step : Hub → Hub → Type 0 where
  subscribes : (h : Hub) (user_id : ℕ) → Step h (subscribe h user_id).1
  cancels : (h : Hub) (channel_id : ℕ) → Step h (cancel h channel_id)
  publishes : (h : Hub) (user_id : ℕ) (e : Event) → Step h (publish h user_id e)
  receives :
      (h : Hub) (channel_id : ℕ)
      → Step h (record h { subscribers = map (take_event channel_id) h.subscribers })

pub data Reach : Hub → Type 0 where
  start : Reach new_hub
  next : {h k : Hub} → Reach h → Step h k → Reach k

pub Step-IsValid : {h k : Hub} → Step h k → IsValid h → IsValid k
unfolding subscribe cancel publish
Step-IsValid (subscribes h user_id) v =
    ((omega arith, omega arith), All-Fits-suc h.next_channel h.subscribers v)
Step-IsValid (cancels h channel_id) v = All-Fits-delete h.next_channel channel_id h.subscribers v
Step-IsValid (publishes h user_id e) v = All-Fits-deliver h.next_channel user_id e h.subscribers v
Step-IsValid (receives h channel_id) v =
    All-Fits-take_event h.next_channel channel_id h.subscribers v

-- In every hub that subscriptions, cancellations, publications and receipts lead to, no queue is
-- longer than the channel's buffer and every channel has a number that was drawn before.
pub Reach-IsValid : {h : Hub} → Reach h → IsValid h
unfolding new_hub
Reach-IsValid start = tt
Reach-IsValid (next r s) = Step-IsValid s (Reach-IsValid r)

delete_none :
    (n channel_id : ℕ) (cs : List Channel)
    → All (Fits n) cs
    → n ≤ channel_id
    → delete (λ c. c.channel_id == channel_id) cs ≡ cs
delete_none n channel_id [] v h = refl
delete_none n channel_id (c ∷ cs) v h = ground (arith, delete_none n channel_id cs v.1 h)

delete-deliver :
    (n user_id channel_id : ℕ) (e : Event) (cs : List Channel)
    → delete (λ c. c.channel_id == channel_id) (map (deliver user_id e) cs)
      ≡ map (deliver user_id e) (delete (λ c. c.channel_id == channel_id) cs)
delete-deliver n user_id channel_id e [] = refl
delete-deliver n user_id channel_id e (c ∷ cs) =
    ground (arith, delete-deliver n user_id channel_id e cs)

cancel-publish_all :
    (h k : Hub) (u channel_id : ℕ) (es : List Event)
    → delete (λ c. c.channel_id == channel_id) h.subscribers ≡ k.subscribers
    → (cancel (publish_all h u es) channel_id).subscribers ≡ (publish_all k u es).subscribers
unfolding cancel publish publish_all
cancel-publish_all h k u channel_id [] e = e
cancel-publish_all h k u channel_id (event ∷ es) e =
    cancel-publish_all (publish h u event) (publish k u event) u channel_id es
      (delete-deliver channel_id u channel_id event h.subscribers ∙ ap (map (deliver u event)) e)

-- In every hub that subscriptions, cancellations, publications and receipts lead to: a subscription
-- that is cancelled after any events published to a user leaves no trace. The channels, with what
-- is queued in each, are those that there would be had it never been.
pub subscribe-cancelled :
    {h : Hub} (user_id u : ℕ) (es : List Event)
    → Reach h
    → (cancel (publish_all (subscribe h user_id).1 u es) (subscribe h user_id).0).subscribers
      ≡ (publish_all h u es).subscribers
unfolding cancel subscribe
subscribe-cancelled {h = h} user_id u es r =
    cancel-publish_all (subscribe h user_id).1 h u h.next_channel es (
      ground (
        arith,
        delete_none h.next_channel h.next_channel h.subscribers (Reach-IsValid r) (omega arith),
      ))

-- A subscription that is cancelled leaves no trace in any valid hub: the subscribers are those
-- that there would be had it never been, whatever was published to anybody in between.
pub cancel-subscribe :
    (h : Hub) (user_id u : ℕ) (e : Event)
    → IsValid h
    → (cancel (publish (subscribe h user_id).1 u e) (subscribe h user_id).0).subscribers
      ≡ (publish h u e).subscribers
unfolding cancel subscribe publish
cancel-subscribe h user_id u e v = ground (
  arith,
  delete-deliver h.next_channel u h.next_channel e h.subscribers,
  delete_none h.next_channel h.next_channel h.subscribers v (omega arith),
)
