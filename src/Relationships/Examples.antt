-- ===== src/Relationships/Examples.antt =====
-- Runs of the relationship service.
use gaggle.Prelude.{ℕ, refl, true, false, [], ◌∷◌, arith}
use gaggle.Database.{User, World, empty_db, Ends}
use gaggle.Realtime.{new_hub}
use gaggle.Relationships.Store.{new_row}
use gaggle.Relationships.Service.{create_relationship}
use gaggle.Relationships.Block.{Blocks, create_relationship-Blocks, follow_blocked}
use gaggle.Relationships.Keys.{IsKeyed}

abbrev person : ℕ → User
person n = record {
  id = n;
  username = "someone";
  email = "someone@example.org";
  password = "secret";
  is_admin = false;
  is_private = false;
  soft_deleted = false;
}

-- The second user blocks the first, and follows the third.
abbrev town : World
town = record {
  db = record empty_db {
    users = person 1 ∷ person 2 ∷ person 3 ∷ [];
    relationships = new_row 4 2 1 "block" ∷ new_row 5 2 3 "follow" ∷ [];
  };
  hub = new_hub;
  sequence = 6;
  next_uuid = 0;
  now = 100;
  faults = [];
}

abbrev storm : World
storm = record town { faults = false ∷ false ∷ true ∷ [] }

create_relationship-Blocks_example :
    Ends town (λ _. Blocks town 1 2) (create_relationship 1 2 "block" town)
create_relationship-Blocks_example = create_relationship-Blocks town 1 2

follow_blocked_example : Ends storm (λ _ _. ⊥) (create_relationship 1 2 "follow" storm)
follow_blocked_example = follow_blocked storm 1 2 refl

town-IsKeyed : IsKeyed town.db
town-IsKeyed = (λ f g t. ground arith, λ f t. ground arith)
