-- ===== src/Notifications/Examples.antt =====
-- Runs of the notifications.
use gaggle.Prelude.{ℕ, false, [], ◌∷◌, none}
use gaggle.Database.{User, World, empty_db}
use gaggle.Realtime.{new_hub}
use gaggle.Relationships.{new_row}
use gaggle.Notifications.Store.{new_notification}
use gaggle.Notifications.Service.{notify}
use gaggle.Notifications.Silence.{Notified, notify-Notified}

abbrev bird : ℕ → User
bird n = record {
  id = n;
  username = "bird";
  email = "bird@example.org";
  password = "secret";
  is_admin = false;
  is_private = false;
  soft_deleted = false;
}

-- The first user has muted the third, and has three notifications.
abbrev nest : World
nest = record {
  db = record empty_db {
    users = bird 1 ∷ bird 2 ∷ bird 3 ∷ [];
    relationships = new_row 4 1 3 "mute" ∷ [];
    notifications =
        new_notification 30 1 2 "follow" none 90
        ∷ new_notification 31 2 1 "follow" none 91
        ∷ new_notification 32 1 2 "like" none 92
        ∷ [];
  };
  hub = new_hub;
  sequence = 40;
  next_uuid = 0;
  now = 100;
  faults = [];
}

notify-Notified_example : Notified nest 2 1 "mention" none (notify 2 1 "mention" none nest).1
notify-Notified_example = notify-Notified nest 2 1 "mention" none
