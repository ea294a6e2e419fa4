-- ===== src/Messages/Store.antt =====
-- server/internal/store/dm_store.go, with the constraints of migration 000015.
use Prim.Native.String.{count as rune_count}
use gaggle.Prelude.{
  ℕ, Bool, true, false, not, ◌&&◌, ◌||◌, String, [], ◌∷◌, ◌++◌, Option, none, some, ◌==◌, ltb,
  if◌then◌else◌, find, count, update, any,
}
use gaggle.AppErrors.{ok, err, no_cause, other_cause, not_found_error, bad_request_error}
use gaggle.Database.{
  User, Conversation, Message, Db, M, database_error, reach, query, statement, next_serial, pure,
  raise_if, ◌>>=◌, ◌>>◌,
}
use gaggle.Accounts.{row_or}

abbrev pub min_int : ℕ → ℕ → ℕ
min_int a b = if ltb a b then a else b

abbrev pub max_int : ℕ → ℕ → ℕ
max_int a b = if ltb b a then a else b

abbrev pub has_pair : ℕ → ℕ → Conversation → Bool
has_pair a b c = c.participant_a == a && c.participant_b == b

abbrev pub takes_part : ℕ → Conversation → Bool
takes_part user_id c = c.participant_a == user_id || c.participant_b == user_id

abbrev pub has_conversation_id : ℕ → Conversation → Bool
has_conversation_id id c = c.id == id

abbrev has_user : Db → ℕ → Bool
has_user d id = any (λ u. u.id == id) d.users

abbrev pub new_conversation : ℕ → ℕ → ℕ → ℕ → Conversation
new_conversation id a b now = record {
  id = id;
  participant_a = a;
  participant_b = b;
  last_message_at = now;
}

-- INSERT … ON CONFLICT DO NOTHING RETURNING: no row where the pair has one. The CHECK is a < b.
abbrev insert_conversation : Conversation → M (Option Conversation)
insert_conversation c w =
    if not (ltb c.participant_a c.participant_b)
    then (err database_error, w)
    else if any (has_pair c.participant_a c.participant_b) w.db.conversations
    then (ok none, w)
    else if not (has_user w.db c.participant_a && has_user w.db c.participant_b)
    then (err database_error, w)
    else (
      ok (some c),
      record w { db = record w.db { conversations = w.db.conversations ++ c ∷ [] } },
    )

-- `if c.ID == 0`: a serial is never 0, so this is where no row was returned.
abbrev or_fetch : Option Conversation → ℕ → ℕ → M Conversation
or_fetch (some c) a b = pure c
or_fetch none a b = do
  row ← query (λ d. find (has_pair a b) d.conversations)
  row_or row database_error

unfoldable pub fetch_pair : ℕ → ℕ → M Conversation
fetch_pair a b = do
  reach
  id ← next_serial
  inserted ← λ w. insert_conversation (new_conversation id a b w.now) w
  or_fetch inserted a b

-- `GetOrCreateConversation`
unfoldable pub get_or_create_conversation : ℕ → ℕ → M Conversation
get_or_create_conversation participant_a participant_b = do
  raise_if (participant_a == participant_b)
      (bad_request_error "you cannot message yourself" no_cause)
  fetch_pair (min_int participant_a participant_b) (max_int participant_a participant_b)

-- An unread message of the conversation that `user_id` did not send.
abbrev pub is_unread_from_others : ℕ → ℕ → Message → Bool
is_unread_from_others conversation_id user_id m =
    m.conversation_id == conversation_id
    && not (m.sender_id == user_id)
    && elim m.read_at [ none ↦ true | some _ ↦ false ]

-- The conversation as the client gets it: its other participant and how many messages are unread.
pub record ConversationView : Type 0 where
  pub conversation : Conversation
  pub other_participant : User
  pub unread_count : ℕ

-- `attachParticipantSummary`
unfoldable pub attach_participant_summary : Conversation → ℕ → M ConversationView
attach_participant_summary c other_id = do
  row ← query (λ d. find (λ u. u.id == other_id) d.users)
  other ← row_or row database_error
  unread ← query (λ d. count (is_unread_from_others c.id other.id) d.messages)
  pure (record { conversation = c; other_participant = other; unread_count = unread })

-- `GetConversation` of the store.
unfoldable pub get_conversation_row : ℕ → ℕ → M ConversationView
get_conversation_row conversation_id viewer_id = do
  row ← query (λ d. find (has_conversation_id conversation_id) d.conversations)
  c ← row_or row (not_found_error "conversation not found" other_cause)
  attach_participant_summary c
      (if c.participant_a == viewer_id then c.participant_b else c.participant_a)

-- The INSERT of `AddMessage`: the width of the body and the foreign keys.
abbrev insert_message : Message → M Message
insert_message m w =
    if ltb 2000 (rune_count m.body)
      || not (any (has_conversation_id m.conversation_id) w.db.conversations)
      || not (has_user w.db m.sender_id)
    then (err database_error, w)
    else (ok m, record w { db = record w.db { messages = w.db.messages ++ m ∷ [] } })

abbrev pub new_message : ℕ → ℕ → ℕ → String → ℕ → Message
new_message id conversation_id sender_id body now = record {
  id = id;
  conversation_id = conversation_id;
  sender_id = sender_id;
  body = body;
  read_at = none;
  created_at = now;
}

-- `AddMessage`: three statements without a transaction; the last one, `hydrateSenders`, reads the
-- sender.
unfoldable pub add_message : ℕ → ℕ → String → M Message
add_message conversation_id sender_id body = do
  reach
  id ← next_serial
  message ← λ w. insert_message (new_message id conversation_id sender_id body w.now) w
  statement λ w. (
    tt,
    record w.db {
      conversations =
          update (has_conversation_id conversation_id) (λ c. record c { last_message_at = w.now })
            w.db.conversations;
    },
  )
  sender ← query (λ d. find (λ u. u.id == sender_id) d.users)
  row_or sender database_error
  pure message

-- `UnreadCount`
abbrev pub unread_for : Db → ℕ → ℕ
unread_for d viewer_id =
    count
      (λ m.
        any (λ c. c.id == m.conversation_id && takes_part viewer_id c) d.conversations
        && is_unread_from_others m.conversation_id viewer_id m)
      d.messages

unfoldable pub unread_count : ℕ → M ℕ
unread_count viewer_id = query (λ d. unread_for d viewer_id)

-- `MarkRead` of the store; the number of rows is not used.
unfoldable pub mark_read_rows : ℕ → ℕ → M (Unit {0})
mark_read_rows conversation_id reader_id = statement λ w. (
  tt,
  record w.db {
    messages =
        if any (λ c. c.id == conversation_id && takes_part reader_id c) w.db.conversations
        then update (is_unread_from_others conversation_id reader_id)
            (λ m. record m { read_at = some w.now }) w.db.messages
        else w.db.messages;
  },
)

-- `IsParticipant`
unfoldable pub is_participant : ℕ → ℕ → M Bool
is_participant conversation_id user_id =
    query (λ d. any (λ c. c.id == conversation_id && takes_part user_id c) d.conversations)
