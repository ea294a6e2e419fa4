-- ===== src/Notifications/Store.antt =====
-- server/internal/store/notification_store.go, with the constraints of migrations 000009 and 000010,
-- and the lookups of the service in post_store.go and user_store.go.
use gaggle.Prelude.{
  ℕ, Bool, true, false, not, ◌&&◌, ◌||◌, String, [], ◌∷◌, ◌++◌, Option, none, some, ◌==◌, str_eq,
  if◌then◌else◌, find, count, update, any,
}
use gaggle.AppErrors.{ok, err, no_cause, not_found_error}
use gaggle.Database.{
  NotificationRow, SettingsRow, Db, M, database_error, reach, query, statement, next_serial,
  raise_if, ◌>>=◌, ◌>>◌,
}
use gaggle.Accounts.{row_or}

-- CHECK (notification_type IN …)
abbrev pub is_notification_type : String → Bool
is_notification_type t =
    str_eq t "like"
    || str_eq t "repost"
    || str_eq t "quote"
    || str_eq t "reply"
    || str_eq t "follow"
    || str_eq t "mention"

abbrev has_user : Db → ℕ → Bool
has_user d id = any (λ u. u.id == id) d.users

abbrev post_exists : Db → Option ℕ → Bool
post_exists d none = true
post_exists d (some id) = any (λ p. p.id == id) d.posts

abbrev pub new_notification : ℕ → ℕ → ℕ → String → Option ℕ → ℕ → NotificationRow
new_notification id recipient actor type post now = record {
  id = id;
  recipient_id = recipient;
  actor_id = actor;
  notification_type = type;
  post_id = post;
  read_at = none;
  created_at = now;
}

abbrev insert_notification : NotificationRow → M (Unit {0})
insert_notification n w =
    if not (is_notification_type n.notification_type)
      || not (has_user w.db n.recipient_id && has_user w.db n.actor_id)
      || not (post_exists w.db n.post_id)
    then (err database_error, w)
    else (ok tt, record w { db = record w.db { notifications = w.db.notifications ++ n ∷ [] } })

-- `Create` of the store.
unfoldable pub create_row : ℕ → ℕ → String → Option ℕ → M (Unit {0})
create_row recipient actor type post = do
  reach
  id ← next_serial
  λ w. insert_notification (new_notification id recipient actor type post w.now) w

abbrev pub is_unread : ℕ → NotificationRow → Bool
is_unread recipient n =
    n.recipient_id == recipient && elim n.read_at [ none ↦ true | some _ ↦ false ]

-- `UnreadCount`
unfoldable pub unread_notifications : ℕ → M ℕ
unread_notifications recipient = query (λ d. count (is_unread recipient) d.notifications)

abbrev pub is_own : ℕ → ℕ → NotificationRow → Bool
is_own recipient id n = n.id == id && n.recipient_id == recipient

-- COALESCE(read_at, CURRENT_TIMESTAMP)
abbrev pub read_once : ℕ → NotificationRow → NotificationRow
read_once now n = record n { read_at = elim n.read_at [ none ↦ some now | some at ↦ some at ] }

-- `MarkRead` of the store.
unfoldable pub mark_row_read : ℕ → ℕ → M (Unit {0})
mark_row_read recipient id = do
  affected ← statement λ w. (
    any (is_own recipient id) w.db.notifications,
    record w.db {
      notifications = update (is_own recipient id) (read_once w.now) w.db.notifications;
    },
  )
  raise_if (not affected) (not_found_error "notification not found" no_cause)

-- `MarkAllRead` of the store.
unfoldable pub mark_rows_read : ℕ → M (Unit {0})
mark_rows_read recipient = statement λ w. (
  tt,
  record w.db {
    notifications =
        update (is_unread recipient) (λ n. record n { read_at = some w.now }) w.db.notifications;
  },
)

-- The default of the column settings has mentions on (migration 000008).
abbrev pub default_settings : ℕ → SettingsRow
default_settings user_id = record { user_id = user_id; notify_mentions = true }

abbrev pub of_user : ℕ → SettingsRow → Bool
of_user user_id s = s.user_id == user_id

-- INSERT … ON CONFLICT (user_id) DO NOTHING
abbrev ensure_settings : ℕ → M (Unit {0})
ensure_settings user_id w =
    if any (of_user user_id) w.db.settings
    then (ok tt, w)
    else if not (has_user w.db user_id)
    then (err database_error, w)
    else (
      ok tt,
      record w { db = record w.db { settings = w.db.settings ++ default_settings user_id ∷ [] } },
    )

-- `GetSettings`; the JSON of a row always parses.
unfoldable pub get_settings : ℕ → M SettingsRow
get_settings user_id = do
  reach
  ensure_settings user_id
  row ← query (λ d. find (of_user user_id) d.settings)
  row_or row database_error
