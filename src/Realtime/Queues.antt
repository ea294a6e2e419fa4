-- ===== src/Realtime/Queues.antt =====
-- The queue of one channel under events that nobody receives.
use gaggle.Prelude.{
  ℕ, ◌+◌, ◌≤◌, ◌<◌, ◌≡◌, refl, ◌∙◌, List, [], ◌∷◌, ◌++◌, map, arith, true, false, ◌==◌, Bool-cases,
  inl, inr, if◌then◌else◌, length, drop, length-append, All₂,
}
use mathlib.Core.List.{append_assoc, append-nil}
use native.Mathlib.Decide.{dec_lt}
use gaggle.Realtime.{Event, Channel, Hub, capacity, resync, offer, publish, deliver}

full-drop-one : (q : List Event) → 0 < length q → length q ≡ length (drop 1 q) + 1
full-drop-one [] h = elim h [ ]
full-drop-one (x ∷ q) h = omega arith

offer_room : (q : List Event) (e : Event) → length q < capacity → offer q e ≡ q ++ e ∷ []
unfolding offer
offer_room q e h = ground arith

offer_full :
    (q : List Event) (e : Event) → length q ≡ capacity → offer q e ≡ drop 1 q ++ resync ∷ []
unfolding offer
offer_full q e h = ground (arith, full-drop-one q (omega arith))

pub length-offer :
    (q : List Event) (e : Event) → length q ≤ capacity → length (offer q e) ≤ capacity
unfolding offer
length-offer q e h =
    ground
      (arith, length-append q (e ∷ []), length-append (drop 1 q) (resync ∷ []), full-drop-one q)

-- The queue after events that nobody received.
pub offer_all : List Event → List Event → List Event
offer_all q [] = q
offer_all q (e ∷ es) = offer_all (offer q e) es

offer_all_room : (q es : List Event) → length q + length es ≤ capacity → offer_all q es ≡ q ++ es
unfolding offer_all
offer_all_room q [] h = rw (append-nil q)
offer_all_room q (e ∷ es) h = rw (offer_room q e (omega arith)) (
    offer_all_room (q ++ e ∷ []) es (omega (arith, length-append q (e ∷ [])))
    ∙ append_assoc q (e ∷ []) es)

-- The client that reads this queue is told to fetch everything again.
abbrev pub EndsInResync : List Event → Type 0
EndsInResync q = (front : List Event) × (q ≡ front ++ resync ∷ [])

length-offer_full :
    (q : List Event) (e : Event) → length q ≡ capacity → length (offer q e) ≡ capacity
length-offer_full q e h =
    rw (offer_full q e h)
      (omega (arith, length-append (drop 1 q) (resync ∷ []), full-drop-one q (omega arith)))

offer_all_full :
    (q : List Event) (e : Event) (es : List Event)
    → length q ≡ capacity
    → EndsInResync (offer_all q (e ∷ es))
unfolding offer_all
offer_all_full q e [] h = (drop 1 q, offer_full q e h)
offer_all_full q e (e' ∷ es) h = offer_all_full (offer q e) e' es (length-offer_full q e h)

offer_all_over :
    (q es : List Event)
    → length q ≤ capacity
    → capacity < length q + length es
    → EndsInResync (offer_all q es)
unfolding offer_all
offer_all_over q [] h k = absurd (omega arith)
offer_all_over q (e ∷ es) h k = elim (dec_lt (length q) capacity) [
  | yes room ↦ rw (offer_room q e room) (
      offer_all_over (q ++ e ∷ []) es (omega (arith, length-append q (e ∷ [])))
        (omega (arith, length-append q (e ∷ []))))
  | no full ↦ unfold offer_all in offer_all_full q e es (omega arith)
]

unfoldable pub publish_all : Hub → ℕ → List Event → Hub
publish_all h user_id [] = h
publish_all h user_id (e ∷ es) = publish_all (publish h user_id e) user_id es

-- What became of a channel `c`, now `c'`, under events published to `user_id`.
pub record Served (user_id : ℕ) (es : List Event) (c c' : Channel) : Type 0 where
  pub same_channel : c'.channel_id ≡ c.channel_id
  pub same_user : c'.user_id ≡ c.user_id
  pub others : (c.user_id == user_id) ≡ false → c'.queue ≡ c.queue
  pub in_order :
      (c.user_id == user_id) ≡ true
      → length c.queue + length es ≤ capacity
      → c'.queue ≡ c.queue ++ es
  pub overflow :
      (c.user_id == user_id) ≡ true
      → length c.queue ≤ capacity
      → capacity < length c.queue + length es
      → EndsInResync c'.queue

abbrev deliver_all : ℕ → List Event → Channel → Channel
deliver_all user_id es c =
    if c.user_id == user_id then record c { queue = offer_all c.queue es } else c

deliver_all-Served :
    (user_id : ℕ) (es : List Event) (c : Channel) → Served user_id es c (deliver_all user_id es c)
deliver_all-Served user_id es c = elim (Bool-cases (c.user_id == user_id)) [
  | inl same ↦ rw same (record {
    same_channel = refl;
    same_user = refl;
    others = λ h. absurd (ground arith);
    in_order = λ h. offer_all_room c.queue es;
    overflow = λ h. offer_all_over c.queue es;
  })
  | inr other ↦ rw other (record {
    same_channel = refl;
    same_user = refl;
    others = λ h. refl;
    in_order = λ h. absurd (ground arith);
    overflow = λ h. absurd (ground arith);
  })
]

deliver_all_step :
    (user_id : ℕ) (e : Event) (es : List Event) (c : Channel)
    → deliver_all user_id es (deliver user_id e c) ≡ deliver_all user_id (e ∷ es) c
unfolding offer_all
deliver_all_step user_id e es c = elim (Bool-cases (c.user_id == user_id)) [
  | inl same ↦ rw same (rw same)
  | inr other ↦ rw other (rw other)
]

map-deliver_none : (user_id : ℕ) (cs : List Channel) → cs ≡ map (deliver_all user_id []) cs
unfolding offer_all
map-deliver_none user_id [] = refl
map-deliver_none user_id (c ∷ cs) = ground (arith, map-deliver_none user_id cs)

map-deliver_step :
    (user_id : ℕ) (e : Event) (es : List Event) (cs : List Channel)
    → map (deliver_all user_id es) (map (deliver user_id e) cs)
      ≡ map (deliver_all user_id (e ∷ es)) cs
map-deliver_step user_id e es [] = refl
map-deliver_step user_id e es (c ∷ cs) =
    rw (deliver_all_step user_id e es c, map-deliver_step user_id e es cs)

subscribers-publish_all :
    (h : Hub) (user_id : ℕ) (es : List Event)
    → (publish_all h user_id es).subscribers ≡ map (deliver_all user_id es) h.subscribers
unfolding publish_all publish
subscribers-publish_all h user_id [] = map-deliver_none user_id h.subscribers
subscribers-publish_all h user_id (e ∷ es) =
    subscribers-publish_all (publish h user_id e) user_id es
    ∙ map-deliver_step user_id e es h.subscribers

map-Served :
    (user_id : ℕ) (es : List Event) (cs : List Channel)
    → All₂ (Served user_id es) cs (map (deliver_all user_id es) cs)
map-Served user_id es [] = tt
map-Served user_id es (c ∷ cs) = (deliver_all-Served user_id es c, map-Served user_id es cs)

-- Publish any events to a user while nobody receives. Every channel stays in its place. A channel
-- of another user is as before. A channel of this user with room for all of them has them all, in
-- order, behind what it held; one that has no room for all of them ends in the resync signal.
pub publish_all-Served :
    (h : Hub) (user_id : ℕ) (es : List Event)
    → All₂ (Served user_id es) h.subscribers (publish_all h user_id es).subscribers
publish_all-Served h user_id es =
    rw (subscribers-publish_all h user_id es) (map-Served user_id es h.subscribers)
