-- ===== src/Notifications/Unread.antt =====
-- What marking notifications read does to the unread counts.
use gaggle.Prelude.{
  ℕ, ◌+◌, ◌≡◌, refl, Bool, true, false, ◌&&◌, List, [], ◌∷◌, some, arith, ◌==◌, if◌then◌else◌,
  count, update, any,
}
use gaggle.Database.{NotificationRow, World, reach, Ends, Ends-map}
use gaggle.Notifications.Store.{
  is_unread, is_own, read_once, mark_row_read, mark_rows_read, unread_notifications,
}
use gaggle.Notifications.Service.{publish_new_count, mark_notification, mark_all_notifications}

abbrev read_now : ℕ → NotificationRow → NotificationRow
read_now now n = record n { read_at = some now }

abbrev all_read : ℕ → ℕ → List NotificationRow → List NotificationRow
all_read recipient now = update (is_unread recipient) (read_now now)

unread-all_read :
    (recipient now u : ℕ) (ns : List NotificationRow)
    → count (is_unread u) (all_read recipient now ns)
      ≡ (if u == recipient then 0 else count (is_unread u) ns)
unread-all_read recipient now u [] = ground arith
unread-all_read recipient now u (n ∷ ns) = ground (arith, unread-all_read recipient now u ns)

mark_all_lem :
    (w : World) (recipient : ℕ)
    → Ends w
        (λ _ d. d ≡ record w.db { notifications = all_read recipient w.now w.db.notifications })
        (mark_all_notifications recipient w)
unfolding mark_all_notifications mark_rows_read publish_new_count unread_notifications reach
mark_all_lem w recipient = ground arith

-- Marking all read, wherever the database fails: an error changes no table, and after a success the
-- recipient has nothing unread and every other user as much as before.
pub mark_all_notifications-Ends :
    (w : World) (recipient : ℕ)
    → Ends w
        (λ _ d.
          (u : ℕ)
          → count (is_unread u) d.notifications
            ≡ (if u == recipient then 0 else count (is_unread u) w.db.notifications))
        (mark_all_notifications recipient w)
mark_all_notifications-Ends w recipient =
    Ends-map w (mark_all_notifications recipient w)
      (λ _ d e u. rw e (unread-all_read recipient w.now u w.db.notifications))
      (mark_all_lem w recipient)

abbrev one_read : ℕ → ℕ → ℕ → List NotificationRow → List NotificationRow
one_read recipient id now = update (is_own recipient id) (read_once now)

-- The unread notifications of the recipient under the id.
abbrev pub is_unread_own : ℕ → ℕ → NotificationRow → Bool
is_unread_own recipient id n = is_own recipient id n && is_unread recipient n

unread-one_read :
    (recipient id now u : ℕ) (ns : List NotificationRow)
    → count (is_unread u) (one_read recipient id now ns)
        + (if u == recipient then count (is_unread_own recipient id) ns else 0)
      ≡ count (is_unread u) ns
unread-one_read recipient id now u [] = ground arith
unread-one_read recipient id now u (n ∷ ns) = ground (arith, unread-one_read recipient id now u ns)

not_own :
    (recipient id now : ℕ) (ns : List NotificationRow)
    → any (is_own recipient id) ns ≡ false
    → one_read recipient id now ns ≡ ns
not_own recipient id now [] h = refl
not_own recipient id now (n ∷ ns) h = ground (arith, not_own recipient id now ns)

mark_one_lem :
    (w : World) (recipient id : ℕ)
    → Ends w
        (λ _ d.
          (any (is_own recipient id) w.db.notifications ≡ true)
          × (d ≡ record w.db { notifications = one_read recipient id w.now w.db.notifications }))
        (mark_notification recipient id w)
unfolding mark_notification mark_row_read publish_new_count unread_notifications reach
mark_one_lem w recipient id = ground (arith, not_own recipient id w.now w.db.notifications)

-- Marking one notification read, wherever the database fails: an error, also where the notification
-- is another user's, changes no table; a success was about a notification of the recipient's, the
-- recipient's unread ones are fewer by those under the id, and every other user's are as many as
-- before.
pub mark_notification-Ends :
    (w : World) (recipient id : ℕ)
    → Ends w
        (λ _ d.
          (any (is_own recipient id) w.db.notifications ≡ true)
          × ((u : ℕ)
              → count (is_unread u) d.notifications
                  + (if u == recipient
                      then count (is_unread_own recipient id) w.db.notifications
                      else 0)
                ≡ count (is_unread u) w.db.notifications))
        (mark_notification recipient id w)
mark_notification-Ends w recipient id =
    Ends-map w (mark_notification recipient id w)
      (λ _ d h. (h.0, λ u. rw h.1 (unread-one_read recipient id w.now u w.db.notifications)))
      (mark_one_lem w recipient id)
