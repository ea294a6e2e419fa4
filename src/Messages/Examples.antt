-- ===== src/Messages/Examples.antt =====
-- Runs of the direct messages.
use gaggle.Prelude.{ℕ, ◌≡◌, refl, false, String, [], ◌∷◌}
use gaggle.Database.{User, World, empty_db, Ends}
use gaggle.Realtime.{new_hub}
use gaggle.Relationships.{new_row}
use gaggle.Posts.{trim_space}
use gaggle.Messages.Store.{new_conversation, new_message}
use gaggle.Messages.Service.{send, get_conversation, mark_read}
use gaggle.Messages.Guards.{send_blocked, outsider_refused}
use gaggle.Messages.Delivery.{Sent, send-Sent}
use gaggle.Messages.Reading.{IsRead, mark_read-IsRead}

abbrev member : ℕ → String → User
member n name = record {
  id = n;
  username = name;
  email = "member@example.org";
  password = "secret";
  is_admin = false;
  is_private = false;
  soft_deleted = false;
}

-- The first and the second user talk; the third blocks the first.
abbrev inbox : World
inbox = record {
  db = record empty_db {
    users = member 1 "goose" ∷ member 2 "gander" ∷ member 3 "swan" ∷ [];
    relationships = new_row 4 3 1 "block" ∷ [];
    conversations = new_conversation 7 1 2 90 ∷ new_conversation 8 2 3 90 ∷ [];
    messages =
        new_message 11 7 2 "honk" 91
        ∷ new_message 12 7 1 "honk honk" 92
        ∷ new_message 13 7 1 "?" 93
        ∷ [];
  };
  hub = new_hub;
  sequence = 20;
  next_uuid = 0;
  now = 100;
  faults = [];
}

abbrev identity : String → String
identity s = s

send_blocked_example :
    Ends inbox (λ _ _. ⊥) (send identity 1 "swan" "hello" inbox)
    × ((send identity 1 "swan" "hello" inbox).1.hub ≡ inbox.hub)
send_blocked_example = send_blocked identity inbox 1 "swan" "hello" (member 3 "swan") refl refl

outsider_refused_example :
    Ends inbox (λ _ _. ⊥) (get_conversation 3 7 inbox)
    × ((get_conversation 3 7 inbox).1.hub ≡ inbox.hub)
    × Ends inbox (λ _ _. ⊥) (mark_read 3 7 inbox)
    × ((mark_read 3 7 inbox).1.hub ≡ inbox.hub)
outsider_refused_example = outsider_refused inbox 3 7 refl

send-Sent_example : Sent inbox 1 2 (trim_space " hello ") (send identity 1 "gander" " hello " inbox)
send-Sent_example = send-Sent identity inbox 1 "gander" " hello " (member 2 "gander") refl

mark_read-IsRead_example : Ends inbox (λ _. IsRead inbox 1 7) (mark_read 1 7 inbox)
mark_read-IsRead_example = mark_read-IsRead inbox 1 7
