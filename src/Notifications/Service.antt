-- ===== src/Notifications/Service.antt =====
-- server/internal/service/notification_service.go
use gaggle.Prelude.{
  ℕ, Bool, false, not, String, List, [], ◌∷◌, ◌++◌, Option, some, ◌==◌, str_eq, if◌then◌else◌, any,
}
use gaggle.AppErrors.{Result, ok, err, is, not_found}
use gaggle.Database.{User, UserRelationship, M, transaction, pure, raise, ◌>>=◌, ◌>>◌}
use gaggle.Realtime.{Event, Hub, feed_post, unread_count as unread_payload, publish}
use gaggle.Accounts.{get_by_username}
use gaggle.Relationships.{get_by_ids, exists, get_follower_ids}
use gaggle.Posts.{find_mentions, get_post}
use gaggle.Notifications.Store.{
  create_row, unread_notifications, mark_row_read, mark_rows_read, get_settings,
}

abbrev new_count : Hub → ℕ → Result ℕ → Hub
new_count h recipient (ok n) =
    publish h recipient (record { event_type = "notification.new"; payload = unread_payload n })
new_count h recipient (err e) = h

-- `publishUnreadCount`: an error is only logged.
unfoldable pub publish_new_count : ℕ → M (Unit {0})
publish_new_count recipient w =
    let (r, w') = unread_notifications recipient w in
    (ok tt, record w' { hub = new_count w'.hub recipient r })

-- Whether the row that GetByIDs reads is a block; that there is none is no error.
abbrev block_of : Result UserRelationship → M Bool
block_of (ok rel) = pure (str_eq rel.relationship_type "block")
block_of (err e) = if is e not_found then pure false else raise e

unfoldable pub is_blocking : ℕ → ℕ → M Bool
is_blocking recipient actor w = let (r, w') = get_by_ids recipient actor w in block_of r w'

-- `!settings.Notifications.Mentions`, which is asked for a mention only.
unfoldable pub declines : ℕ → String → M Bool
declines recipient type =
    if str_eq type "mention"
    then (do settings ← get_settings recipient; pure (not settings.notify_mentions))
    else pure false

unfoldable pub write_row : ℕ → ℕ → String → Option ℕ → M (Unit {0})
write_row actor recipient type post = do
  transaction (create_row recipient actor type post)
  publish_new_count recipient

unfoldable pub notify_unless_declined : ℕ → ℕ → String → Option ℕ → M (Unit {0})
notify_unless_declined actor recipient type post = do
  declined ← declines recipient type
  if declined then pure tt else write_row actor recipient type post

unfoldable pub notify_unless_muted : ℕ → ℕ → String → Option ℕ → M (Unit {0})
notify_unless_muted actor recipient type post = do
  muted ← exists recipient actor "mute"
  if muted then pure tt else notify_unless_declined actor recipient type post

-- `Create`
unfoldable pub notify : ℕ → ℕ → String → Option ℕ → M (Unit {0})
notify actor recipient type post = if actor == recipient then pure tt else (do
  blocked ← is_blocking recipient actor
  if blocked then pure tt else notify_unless_muted actor recipient type post)

-- `CreateForPost`
unfoldable pub notify_for_post : ℕ → ℕ → String → M (Unit {0})
notify_for_post actor post_id type = do
  post ← get_post post_id
  notify actor post.author_id type (some post_id)

-- One round of the loop of `CreateMentionNotifications`: the ids that were seen after it.
abbrev mention_one : ℕ → ℕ → List ℕ → Result User → M (List ℕ)
mention_one actor post_id seen (err e) = if is e not_found then pure seen else raise e
mention_one actor post_id seen (ok user) =
    if any (λ id. id == user.id) seen
    then pure seen
    else (do notify actor user.id "mention" (some post_id); pure (seen ++ user.id ∷ []))

module _ (lower : String → String) where
  unfoldable pub notify_name : ℕ → ℕ → List ℕ → String → M (List ℕ)
  notify_name actor post_id seen name w =
      let (r, w') = get_by_username lower name w in mention_one actor post_id seen r w'

  unfoldable pub notify_names : ℕ → ℕ → List ℕ → List String → M (Unit {0})
  notify_names actor post_id seen [] = pure tt
  notify_names actor post_id seen (name ∷ names) = do
    seen' ← notify_name actor post_id seen name
    notify_names actor post_id seen' names

  -- `CreateMentionNotifications`
  unfoldable pub notify_mentioned : ℕ → ℕ → String → M (Unit {0})
  notify_mentioned actor post_id content = notify_names actor post_id [] (find_mentions content)

-- `MarkRead`
unfoldable pub mark_notification : ℕ → ℕ → M (Unit {0})
mark_notification recipient id = do mark_row_read recipient id; publish_new_count recipient

-- `MarkAllRead`
unfoldable pub mark_all_notifications : ℕ → M (Unit {0})
mark_all_notifications recipient = do mark_rows_read recipient; publish_new_count recipient

abbrev pub post_created : ℕ → ℕ → Event
post_created post_id author_id = record {
  event_type = "feed.post_created";
  payload = feed_post post_id author_id;
}

-- The loop of `PublishFeedPost`.
pub publish_to : Hub → List ℕ → Event → Hub
publish_to h [] e = h
publish_to h (r ∷ rs) e = publish_to (publish h r e) rs e

-- `PublishFeedPost`
unfoldable pub publish_feed_post : ℕ → ℕ → M (Unit {0})
publish_feed_post author_id post_id = do
  recipients ← get_follower_ids author_id
  λ w. (
    ok tt,
    record w {
      hub = publish_to w.hub (recipients ++ author_id ∷ []) (post_created post_id author_id);
    },
  )
