-- ===== src/Lists/Examples.antt =====
-- Runs of the lists.
use gaggle.Prelude.{ℕ, refl, true, false, [], ◌∷◌}
use gaggle.Database.{User, World, empty_db, Ends}
use gaggle.Realtime.{new_hub}
use gaggle.Lists.Service.{update_list, delete_list, add_member, remove_member}
use gaggle.Lists.Owners.{stranger_refused}

abbrev reader : ℕ → User
reader n = record {
  id = n;
  username = "reader";
  email = "reader@example.org";
  password = "secret";
  is_admin = false;
  is_private = false;
  soft_deleted = false;
}

-- The first user has two lists and the third user is in the first of them; the database will fail
-- at the fourth statement.
abbrev shelf : World
shelf = record {
  db = record empty_db {
    users = reader 1 ∷ reader 2 ∷ reader 3 ∷ [];
    lists =
        record { id = 5; owner_id = 1; name = "geese"; description = "" }
        ∷ record { id = 6; owner_id = 1; name = "swans"; description = "" }
        ∷ [];
    list_members = record { list_id = 5; user_id = 3 } ∷ [];
  };
  hub = new_hub;
  sequence = 20;
  next_uuid = 0;
  now = 100;
  faults = false ∷ false ∷ false ∷ true ∷ [];
}

stranger_refused_example :
    Ends shelf (λ _ _. ⊥) (update_list 5 2 "mine" "" shelf)
    × Ends shelf (λ _ _. ⊥) (delete_list 5 2 shelf)
    × Ends shelf (λ _ _. ⊥) (add_member 5 2 2 shelf)
    × Ends shelf (λ _ _. ⊥) (remove_member 5 2 2 shelf)
stranger_refused_example = stranger_refused shelf 5 2 2 "mine" "" refl
