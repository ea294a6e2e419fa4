-- ===== src/Engagement/Examples.antt =====
-- Runs of the engagements.
use gaggle.Prelude.{ℕ, String, ◌≡◌, refl, true, false, [], ◌∷◌, none, some}
use gaggle.AppErrors.{ok}
use gaggle.Database.{User, World, reach, empty_db}
use gaggle.Realtime.{new_hub}
use gaggle.Pages.{CursorText, no_cursor, encode_cursor, create_timestamp_cursor}
use gaggle.Engagement.Listing.{get_post_likers, engaged_users, last_timestamp}
use gaggle.Engagement.Categories.{is_hex_color}
use gaggle.Engagement.Service.{like, unlike}
use gaggle.Engagement.Counts.{IsCounted}
use gaggle.Engagement.Runs.{engage, op_bookmark, engage-IsCounted}
use gaggle.Engagement.Owners.{is_owned, file, op_remove, file-is_owned}
use gaggle.Engagement.Undo.{unlike-like}

abbrev person : ℕ → String → User
person n name = record {
  id = n;
  username = name;
  email = "someone@example.org";
  password = "secret";
  is_admin = false;
  is_private = false;
  soft_deleted = false;
}

-- A post with a like, a bookmark in the second user's category and a view.
abbrev pond : World
pond = record {
  db = record empty_db {
    users = person 1 "goose" ∷ person 2 "gander" ∷ [];
    posts =
        record {
          id = 10;
          author_id = 1;
          parent_id = none;
          quoted_post_id = none;
          content = "honk";
          soft_deleted = false;
          is_pinned = false;
          visibility = "public";
          mentioned_user_ids = [];
          created_at = 0;
          edited_at = none;
          likes_count = 1;
          reposts_count = 0;
          quotes_count = 0;
          bookmarks_count = 1;
          views_count = 1;
          replies_count = 0;
        }
        ∷ [];
    engagements = record {
      post_likes = record { id = 20; post_id = 10; user_id = 2; created_at = 5 } ∷ [];
      post_reposts = [];
      bookmark_categories =
          record {
            category_id = 30;
            user_id = 2;
            category_name = "ponds";
            color = "#00aaff";
            created_at = 6;
          }
          ∷ [];
      post_bookmarks =
          record {
            bookmark_id = 40;
            post_id = 10;
            user_id = 2;
            category_id = some 30;
            created_at = 7;
          }
          ∷ [];
      post_views = record { view_id = 50; post_id = 10; user_id = some 2 } ∷ [];
    };
  };
  hub = new_hub;
  sequence = 60;
  next_uuid = 0;
  now = 100;
  faults = [];
}

engage-IsCounted_example : IsCounted (engage (λ s. true) (op_bookmark 10 1 none) pond).db
engage-IsCounted_example =
    engage-IsCounted (λ s. true) (op_bookmark 10 1 none) pond
      (record { likes = refl; reposts = refl; bookmarks = refl; views = refl })

file-is_owned_example : is_owned (file (op_remove 2 30) pond).db ≡ true
file-is_owned_example = file-is_owned (op_remove 2 30) pond refl

unlike-like_example :
    let liked = (like 10 1 pond).1 in
    (((like 10 1 pond).0 ≡ ok true)
      × ((like 10 1 liked).0 ≡ ok false)
      × ((like 10 1 liked).1.db ≡ liked.db)
      × ((unlike 10 1 liked).0 ≡ ok tt)
      × ((unlike 10 1 liked).1.db ≡ pond.db))
unlike-like_example = unlike-like 10 1 pond refl refl refl

hex_test : is_hex_color "#00aaFG" ≡ false
unfolding is_hex_color
hex_test = refl

-- The post liked by both users, in two seconds.
abbrev liked_twice : World
liked_twice = record pond {
  db = record pond.db {
    engagements = record pond.db.engagements {
      post_likes =
          record { id = 20; post_id = 10; user_id = 1; created_at = 7_000_000 }
          ∷ record { id = 21; post_id = 10; user_id = 2; created_at = 9_000_000 }
          ∷ [];
    };
  };
}

-- The cursor after the newest like.
abbrev after_newest : CursorText
after_newest = encode_cursor (create_timestamp_cursor 21 9_000_000)

first_page_test :
    (get_post_likers 10 1 no_cursor liked_twice).0
    ≡ ok (record { items = person 2 "gander" ∷ []; has_more = true; next_cursor = after_newest })
unfolding get_post_likers engaged_users last_timestamp reach
first_page_test = refl

-- The second page hands out the cursor that it was asked with.
second_page_test :
    (get_post_likers 10 1 after_newest liked_twice).0
    ≡ ok (record { items = person 1 "goose" ∷ []; has_more = true; next_cursor = after_newest })
unfolding get_post_likers engaged_users last_timestamp reach
second_page_test = refl
