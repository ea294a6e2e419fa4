-- ===== src/Notifications/Silence.antt =====
-- Who is notified, and what a notification writes.
use gaggle.Prelude.{
  ℕ, ◌≡◌, ◌⊎◌, inl, inr, Bool, true, false, ◌||◌, String, [], ◌∷◌, ◌++◌, Option, arith, ◌==◌,
  Option-cases, find,
}
use gaggle.Database.{Db, World, reach, transaction}
use gaggle.Relationships.{between, get_by_ids, exists}
use gaggle.Relationships.Block.{has}
use gaggle.Messages.Guards.{has_blocked}
use gaggle.Notifications.Store.{new_notification, create_row, unread_notifications, get_settings}
use gaggle.Notifications.Service.{
  publish_new_count, is_blocking, declines, write_row, notify_unless_declined, notify_unless_muted,
  notify,
}

-- The actor is the recipient, is blocked by the recipient in the row that GetByIDs reads, or is muted.
abbrev pub is_silenced : Db → ℕ → ℕ → Bool
is_silenced d actor recipient =
    actor == recipient || has_blocked d recipient actor || has d recipient actor "mute"

-- Nothing but settings rows has changed, or one notification row is new.
abbrev pub Adds : World → ℕ → ℕ → String → Option ℕ → Db → Type 0
Adds w actor recipient type post d =
    (d ≡ record w.db { settings = d.settings })
    ⊎ (d ≡ record w.db {
      settings = d.settings;
      notifications =
          w.db.notifications ++ new_notification w.sequence recipient actor type post w.now ∷ [];
    })

write_row-Adds :
    (w : World) (actor recipient : ℕ) (type : String) (post : Option ℕ)
    → Adds w actor recipient type post (write_row actor recipient type post w).1.db
unfolding write_row create_row publish_new_count unread_notifications transaction reach
write_row-Adds w actor recipient type post = ground arith

declines_lem :
    (w : World) (recipient : ℕ) (type : String)
    → ((declines recipient type w).1.db
        ≡ record w.db { settings = (declines recipient type w).1.db.settings })
      × ((declines recipient type w).1.sequence ≡ w.sequence)
      × ((declines recipient type w).1.now ≡ w.now)
unfolding declines get_settings reach
declines_lem w recipient type = (ground arith, ground arith, ground arith)

notify_unless_declined-Adds :
    (w : World) (actor recipient : ℕ) (type : String) (post : Option ℕ)
    → Adds w actor recipient type post (notify_unless_declined actor recipient type post w).1.db
unfolding notify_unless_declined
notify_unless_declined-Adds w actor recipient type post = ground (
  arith,
  declines_lem w recipient type,
  write_row-Adds (declines recipient type w).1 actor recipient type post,
)

-- The database before and after a silenced call, and what a call adds where it is not silenced.
abbrev pub Notified : World → ℕ → ℕ → String → Option ℕ → World → Type 0
Notified w actor recipient type post v =
    ((is_silenced w.db actor recipient ≡ true) × (v.db ≡ w.db) × (v.hub ≡ w.hub))
    ⊎ ((is_silenced w.db actor recipient ≡ false) × Adds w actor recipient type post v.db)

-- Notifying, wherever the database fails. Where the actor is the recipient, or is blocked by the
-- recipient in the row that GetByIDs reads, or is muted by the recipient, no table changes and
-- nothing is published. Otherwise nothing but the settings changes, or one unread notification of
-- this type from the actor to the recipient is the one new row.
pub notify-Notified :
    (w : World) (actor recipient : ℕ) (type : String) (post : Option ℕ)
    → Notified w actor recipient type post (notify actor recipient type post w).1
unfolding notify notify_unless_muted is_blocking get_by_ids exists reach
notify-Notified w actor recipient type post =
    elim (Option-cases (find (between recipient actor) w.db.relationships)) [
      | inl missing ↦ ground (
        arith,
        missing,
        notify_unless_declined-Adds (reach (reach w).1).1 actor recipient type post,
      )
      | inr (r, found) ↦ ground (
        arith,
        found,
        notify_unless_declined-Adds (reach (reach w).1).1 actor recipient type post,
      )
    ]
