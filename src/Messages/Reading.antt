-- ===== src/Messages/Reading.antt =====
-- What marking a conversation read does to every count, and what count a client is shown.
use gaggle.Prelude.{
  ℕ, ◌≡◌, refl, inl, inr, Bool, true, false, not, ◌&&◌, ◌||◌, List, [], ◌∷◌, none, some, arith,
  ◌==◌, Option-cases, find, count, update, All₂,
}
use gaggle.Database.{User, Conversation, Message, Db, World, reach, Ends, Ends-map}
use gaggle.Posts.Audience.{every}
use gaggle.Messages.Store.{
  has_conversation_id, is_unread_from_others, get_conversation_row, attach_participant_summary,
  is_participant, mark_read_rows, unread_count,
}
use gaggle.Messages.Service.{get_conversation, mark_read, publish_unread_count}

abbrev read_at_time : ℕ → Message → Message
read_at_time now m = record m { read_at = some now }

abbrev pub mark : ℕ → ℕ → ℕ → List Message → List Message
mark id viewer now = update (is_unread_from_others id viewer) (read_at_time now)

mark_all :
    (id viewer now : ℕ) (ms : List Message)
    → count (is_unread_from_others id viewer) (mark id viewer now ms) ≡ 0
mark_all id viewer now [] = refl
mark_all id viewer now (m ∷ ms) = ground (arith, mark_all id viewer now ms)

mark_elsewhere :
    (id viewer now c u : ℕ) (ms : List Message)
    → (c == id) ≡ false
    → count (is_unread_from_others c u) (mark id viewer now ms)
      ≡ count (is_unread_from_others c u) ms
mark_elsewhere id viewer now c u [] h = refl
mark_elsewhere id viewer now c u (m ∷ ms) h = ground (arith, mark_elsewhere id viewer now c u ms)

-- An unread message of the conversation that the user sent.
abbrev pub is_unread_of : ℕ → ℕ → Message → Bool
is_unread_of conversation_id user_id m =
    m.conversation_id == conversation_id
    && m.sender_id == user_id
    && elim m.read_at [ none ↦ true | some _ ↦ false ]

mark_own :
    (id viewer now c : ℕ) (ms : List Message)
    → count (is_unread_of c viewer) (mark id viewer now ms) ≡ count (is_unread_of c viewer) ms
mark_own id viewer now c [] = refl
mark_own id viewer now c (m ∷ ms) = ground (arith, mark_own id viewer now c ms)

-- What becomes of a message: one of the conversation that the viewer did not send and that was not
-- read is read now; one of another conversation, one that the viewer sent, and one that was read
-- before are as they were.
pub record Marks (id viewer now : ℕ) (m m' : Message) : Type 0 where
  pub waiting :
      (m.conversation_id == id) ≡ true
      → (m.sender_id == viewer) ≡ false
      → m.read_at ≡ none
      → m' ≡ record m { read_at = some now }
  pub elsewhere : (m.conversation_id == id) ≡ false → m' ≡ m
  pub own : (m.sender_id == viewer) ≡ true → m' ≡ m
  pub read_before : (at : ℕ) → m.read_at ≡ some at → m' ≡ m

mark-Marks :
    (id viewer now : ℕ) (ms : List Message) → All₂ (Marks id viewer now) ms (mark id viewer now ms)
mark-Marks id viewer now [] = tt
mark-Marks id viewer now (m ∷ ms) = (
  record {
    waiting = λ here other unread. ground (arith, here, other, unread);
    elsewhere = λ h. ground (arith, h);
    own = λ h. ground (arith, h);
    read_before = λ at h. ground (arith, h);
  },
  mark-Marks id viewer now ms,
)

-- Every message is marked or as it was, so the conversation has nothing unread for the viewer, no
-- count of another conversation has changed, and what the viewer sent is as unread as before.
pub record IsRead (w : World) (viewer id : ℕ) (d : Db) : Type 0 where
  pub messages : All₂ (Marks id viewer w.now) w.db.messages d.messages
  pub nothing_unread : count (is_unread_from_others id viewer) d.messages ≡ 0
  pub others :
      (c u : ℕ)
      → (c == id) ≡ false
      → count (is_unread_from_others c u) d.messages
        ≡ count (is_unread_from_others c u) w.db.messages
  pub own :
      (c : ℕ)
      → count (is_unread_of c viewer) d.messages ≡ count (is_unread_of c viewer) w.db.messages
  pub nothing_else : d ≡ record w.db { messages = d.messages }

mark_read_lem :
    (w : World) (viewer id : ℕ)
    → Ends w
        (λ _ d. d ≡ record w.db { messages = mark id viewer w.now w.db.messages })
        (mark_read viewer id w)
unfolding mark_read is_participant mark_read_rows publish_unread_count unread_count reach
mark_read_lem w viewer id = ground arith

-- Marking a conversation read, wherever the database fails: an error changes no table, and after a
-- success the conversation has nothing unread for the viewer, the messages that were are read at this
-- time, and every other message, of another conversation, of the viewer's own or read before, and
-- every other table is as it was.
pub mark_read-IsRead :
    (w : World) (viewer id : ℕ) → Ends w (λ _. IsRead w viewer id) (mark_read viewer id w)
mark_read-IsRead w viewer id =
    Ends-map w (mark_read viewer id w)
      (λ _ d e. rw e (record {
        messages = mark-Marks id viewer w.now w.db.messages;
        nothing_unread = mark_all id viewer w.now w.db.messages;
        others = λ c u h. mark_elsewhere id viewer w.now c u w.db.messages h;
        own = λ c. mark_own id viewer w.now c w.db.messages;
        nothing_else = refl;
      }))
      (mark_read_lem w viewer id)

found_user_id :
    (id : ℕ) (u : User) (us : List User) → find (λ u. u.id == id) us ≡ some u → u.id ≡ id
found_user_id id u [] e = ground arith
found_user_id id u (x ∷ us) e = ground (arith, found_user_id id u us)

count_own :
    (id viewer other : ℕ) (ms : List Message)
    → (viewer == other) ≡ false
    → every (λ m. not (m.conversation_id == id) || m.sender_id == viewer || m.sender_id == other) ms
      ≡ true
    → count (is_unread_from_others id other) ms ≡ count (is_unread_of id viewer) ms
count_own id viewer other [] n h = refl
count_own id viewer other (m ∷ ms) n h = ground (arith, count_own id viewer other ms)

-- The unread count that GetConversation returns to the first of two participants, where every
-- message of the conversation is from one of them, is the number of the viewer's own messages that
-- the other has not read.
pub get_conversation_own_unread :
    (w : World) (viewer id other : ℕ) (c : Conversation)
    → find (has_conversation_id id) w.db.conversations ≡ some c
    → (c.participant_a ≡ viewer) × (c.participant_b ≡ other)
    → (viewer == other) ≡ false
    → every
        (λ m. not (m.conversation_id == c.id) || m.sender_id == viewer || m.sender_id == other)
        w.db.messages
      ≡ true
    → Ends w
        (λ view d. view.unread_count ≡ count (is_unread_of c.id viewer) w.db.messages)
        (get_conversation viewer id w)
unfolding get_conversation get_conversation_row attach_participant_summary reach
get_conversation_own_unread w viewer id other c found pair n own =
    elim (Option-cases (find (λ u. u.id == other) w.db.users)) [
      | inl missing ↦ ground (arith, found, missing, pair)
      | inr (u, there) ↦ ground (
        arith,
        found,
        there,
        pair,
        found_user_id other u w.db.users there,
        count_own c.id viewer other w.db.messages n own,
      )
    ]
