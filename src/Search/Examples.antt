-- ===== src/Search/Examples.antt =====
-- Runs of the searches.
use gaggle.Prelude.{ℕ, String, ◌≡◌, refl, arith, Bool, true, false, [], ◌∷◌, none, pos, str_eq}
use gaggle.Database.{User, Post, World, empty_db, Ends}
use gaggle.Realtime.{new_hub}
use gaggle.Pages.{no_cursor}
use gaggle.Feeds.Audience.{Visible}
use gaggle.Search.Store.{escape_like}
use gaggle.Search.Audience.{answer, by_hashtag, answer-Visible}

abbrev person : ℕ → String → Bool → User
person n name private = record {
  id = n;
  username = name;
  email = "someone@example.org";
  password = "secret";
  is_admin = false;
  is_private = private;
  soft_deleted = false;
}

abbrev post : ℕ → ℕ → ℕ → Post
post id author created_at = record {
  id = id;
  author_id = author;
  parent_id = none;
  quoted_post_id = none;
  content = "honk #pond";
  soft_deleted = false;
  is_pinned = false;
  visibility = "public";
  mentioned_user_ids = [];
  created_at = created_at;
  edited_at = none;
  likes_count = 0;
  reposts_count = 0;
  quotes_count = 0;
  bookmarks_count = 0;
  views_count = 0;
  replies_count = 0;
}

-- Two tagged posts, one of a private account that the first user does not follow.
abbrev pond : World
pond = record {
  db = record empty_db {
    users = person 1 "goose" false ∷ person 2 "gander" false ∷ person 3 "swan" true ∷ [];
    posts = post 10 2 50 ∷ post 11 3 60 ∷ [];
    post_tables = record {
      post_edits = [];
      hashtags = record { hashtag_id = 20; name = "pond" } ∷ [];
      post_hashtags =
          record { post_id = 10; hashtag_id = 20 } ∷ record { post_id = 11; hashtag_id = 20 } ∷ [];
      post_mentions = [];
      media = [];
      post_media = [];
      post_news = [];
    };
  };
  hub = new_hub;
  sequence = 30;
  next_uuid = 0;
  now = 100;
  faults = [];
}

answer-Visible_example :
    Ends pond
      (λ r d. Visible pond.db 1 r × (d ≡ pond.db))
      (answer 20 100 str_eq (by_hashtag "#Pond" (pos 5)) 1 no_cursor pond)
answer-Visible_example =
    answer-Visible 20 100 str_eq (by_hashtag "#Pond" (pos 5)) 1 no_cursor pond (omega arith)
      (omega arith)

escape_test : escape_like "50%_\\" ≡ "50\\%\\_\\\\"
unfolding escape_like
escape_test = refl
