-- ===== src/Feeds/Examples.antt =====
-- Runs of the feeds.
use gaggle.Prelude.{ℕ, String, ◌≡◌, refl, arith, Bool, true, false, [], ◌∷◌, Option, none, some}
use gaggle.AppErrors.{ok, err}
use gaggle.Database.{User, Post, Engagement, World, reach, empty_db, Ends}
use gaggle.Realtime.{new_hub}
use gaggle.Relationships.{new_row}
use gaggle.Posts.{get_full_post_by_id}
use gaggle.Pages.{no_cursor}
use gaggle.Feeds.Store.{load_full, build_feed_from_post_ids, get_descendants, get_liked_posts_feed}
use gaggle.Feeds.Rows.{feed_rows, IsPostTable}
use gaggle.Feeds.Follow.{follow, belongs, get_feed, home, follow-Complete}
use gaggle.Feeds.Replies.{missing_post, Outcome, replies_to, get_descendants-Outcome}
use gaggle.Feeds.Audience.{Visible, serve, liked, serve-Visible}

abbrev person : ℕ → String → User
person n name = record {
  id = n;
  username = name;
  email = "someone@example.org";
  password = "secret";
  is_admin = false;
  is_private = false;
  soft_deleted = false;
}

abbrev post : ℕ → ℕ → Option ℕ → Bool → ℕ → Post
post id author parent deleted created_at = record {
  id = id;
  author_id = author;
  parent_id = parent;
  quoted_post_id = none;
  content = "honk";
  soft_deleted = deleted;
  is_pinned = false;
  visibility = "public";
  mentioned_user_ids = [];
  created_at = created_at;
  edited_at = none;
  likes_count = 0;
  reposts_count = 0;
  quotes_count = 0;
  bookmarks_count = 0;
  views_count = 0;
  replies_count = 0;
}

abbrev like_of : ℕ → ℕ → ℕ → ℕ → Engagement
like_of id post_id user_id created_at = record {
  id = id;
  post_id = post_id;
  user_id = user_id;
  created_at = created_at;
}

-- The first user follows the second. Two posts have one time, one is deleted, and one reply of two
-- is deleted; the second user's likes of two posts are in one second.
abbrev pond : World
pond = record {
  db = record empty_db {
    users = person 1 "goose" ∷ person 2 "gander" ∷ [];
    posts =
        post 10 2 none false 5_000_000
        ∷ post 11 1 none false 7_000_000
        ∷ post 12 2 none false 7_000_000
        ∷ post 13 2 none true 8_000_000
        ∷ post 14 1 (some 10) true 9_000_000
        ∷ post 15 1 (some 10) false 9_000_000
        ∷ [];
    relationships = new_row 4 1 2 "follow" ∷ [];
    engagements = record {
      post_likes = like_of 20 10 2 9_200_000 ∷ like_of 21 11 2 9_700_000 ∷ [];
      post_reposts = [];
      bookmark_categories = [];
      post_bookmarks = [];
      post_views = [];
    };
  };
  hub = new_hub;
  sequence = 30;
  next_uuid = 0;
  now = 10_000_000;
  faults = [];
}

pond-IsPostTable : IsPostTable pond.db
pond-IsPostTable = record {
  keyed = refl;
  authors = (refl, (refl, (refl, (refl, (refl, (refl, tt))))));
}

follow-Complete_example :
    follow 5 (get_feed (home 1) 1) no_cursor pond
    ≡ (ok (some (feed_rows (belongs (home 1)) pond.db)), pond)
follow-Complete_example =
    follow-Complete (home 1) pond 1 5 refl pond-IsPostTable (omega arith) (omega arith)

home_test :
    feed_rows (belongs (home 1)) pond.db
    ≡ post 12 2 none false 7_000_000
      ∷ post 11 1 none false 7_000_000
      ∷ post 10 2 none false 5_000_000
      ∷ []
home_test = refl

get_descendants-Outcome_example :
    Outcome (replies_to pond.db 10) (get_descendants 10 20 no_cursor pond).0
get_descendants-Outcome_example = get_descendants-Outcome pond 10 20 refl pond-IsPostTable

deleted_reply_test : (get_descendants 10 20 no_cursor pond).0 ≡ err missing_post
unfolding get_descendants build_feed_from_post_ids load_full get_full_post_by_id reach
deleted_reply_test = refl

-- The cursor after the newer like is its second's start, which the older like is not before.
liked_seconds_test :
    follow 5 (get_liked_posts_feed 2 1) no_cursor pond
    ≡ (ok (some (post 11 1 none false 7_000_000 ∷ [])), pond)
unfolding follow get_liked_posts_feed load_full get_full_post_by_id reach
liked_seconds_test = refl

serve-Visible_example :
    Ends pond
      (λ r d. Visible pond.db 1 r × (d ≡ pond.db))
      (serve 20 100 (liked 2 1) 1 no_cursor pond)
serve-Visible_example = serve-Visible 20 100 (liked 2 1) 1 no_cursor pond
