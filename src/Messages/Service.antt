-- ===== src/Messages/Service.antt =====
-- server/internal/service/dm_service.go
use Prim.Native.String.{len}
use gaggle.Prelude.{ℕ, not, ◌||◌, String, ltb, str_eq, if◌then◌else◌}
use gaggle.AppErrors.{
  Result, ok, err, no_cause, bad_request_error, not_found_error, forbidden_error, is, not_found,
}
use gaggle.Database.{
  User, UserRelationship, Conversation, Message, M, pure, raise, raise_if, ◌>>=◌, ◌>>◌,
}
use gaggle.Realtime.{Event, direct_message, unread_count as unread_payload, publish}
use gaggle.Accounts.{get_by_username}
use gaggle.Relationships.{get_by_ids}
use gaggle.Posts.{trim_space}
use gaggle.Messages.Store.{
  ConversationView, get_or_create_conversation, get_conversation_row, add_message, unread_count,
  mark_read_rows, is_participant, takes_part,
}

-- One round of the loop over the two directions.
abbrev refuse_block : Result UserRelationship → M (Unit {0})
refuse_block (ok rel) =
    raise_if (str_eq rel.relationship_type "block")
      (forbidden_error "you cannot message this user" no_cause)
refuse_block (err e) = if is e not_found then pure tt else raise e

unfoldable pub check_block : ℕ → ℕ → M (Unit {0})
check_block subject_id target_id w =
    let (r, w') = get_by_ids subject_id target_id w in refuse_block r w'

abbrev pub publish_event : ℕ → Event → M (Unit {0})
publish_event user_id e w = (ok tt, record w { hub = publish w.hub user_id e })

-- `publishUnreadCount`: an error is only logged.
abbrev publish_count : ℕ → Result ℕ → M (Unit {0})
publish_count viewer_id (ok n) =
    publish_event viewer_id (record { event_type = "dm.unread"; payload = unread_payload n })
publish_count viewer_id (err e) = pure tt

unfoldable pub publish_unread_count : ℕ → M (Unit {0})
publish_unread_count viewer_id w =
    let (r, w') = unread_count viewer_id w in publish_count viewer_id r w'

abbrev pub new_dm : Conversation → ℕ → String → Event
new_dm conversation sender_id body = record {
  event_type = "dm.new";
  payload = direct_message conversation.id sender_id body;
}

-- `Send` behind its checks: the conversation, the message, then the three events.
unfoldable pub announce : Message → Conversation → ℕ → ℕ → String → M Message
announce message conversation sender_id recipient_id body = do
  publish_event recipient_id (new_dm conversation sender_id body)
  publish_unread_count recipient_id
  publish_unread_count sender_id
  pure message

unfoldable pub write_to : ℕ → ℕ → String → M Message
write_to sender_id recipient_id body = do
  conversation ← get_or_create_conversation sender_id recipient_id
  message ← add_message conversation.id sender_id body
  announce message conversation sender_id recipient_id body

-- `Send` once the recipient is known.
unfoldable pub send_to : ℕ → User → String → M Message
send_to sender_id recipient body = do
  raise_if recipient.soft_deleted (not_found_error "user not found" no_cause)
  check_block recipient.id sender_id
  check_block sender_id recipient.id
  write_to sender_id recipient.id body

-- `Send`
unfoldable pub send : (String → String) → ℕ → String → String → M Message
send lower sender_id recipient_username text = do
  raise_if (str_eq (trim_space text) "" || ltb 2000 (len (trim_space text)))
      (bad_request_error "message body is required (max 2000 characters)" no_cause)
  recipient ← get_by_username lower recipient_username
  send_to sender_id recipient (trim_space text)

-- `GetConversation`
unfoldable pub get_conversation : ℕ → ℕ → M ConversationView
get_conversation viewer_id conversation_id = do
  view ← get_conversation_row conversation_id viewer_id
  raise_if (not (takes_part viewer_id view.conversation))
      (not_found_error "conversation not found" no_cause)
  pure view

-- `MarkRead`
unfoldable pub mark_read : ℕ → ℕ → M (Unit {0})
mark_read viewer_id conversation_id = do
  participant ← is_participant conversation_id viewer_id
  raise_if (not participant) (not_found_error "conversation not found" no_cause)
  mark_read_rows conversation_id viewer_id
  publish_unread_count viewer_id
