-- ===== src/Posts/Examples.antt =====
-- Runs of the post service.
use gaggle.Prelude.{
  ℕ, ◌≡◌, refl, ◌↔◌, Bool, true, false, String, List, [], ◌∷◌, Option, none, some, select,
}
use gaggle.AppErrors.{ok}
use gaggle.Database.{User, Post, World, reach, empty_db, Ends}
use gaggle.Realtime.{new_hub}
use gaggle.Accounts.{get_by_username, get_is_private}
use gaggle.Relationships.{new_row, get_relationship_statuses, scan_status}
use gaggle.Posts.Visibility.{author_ids, keep_shown, filter_visible_posts, can_view_post}
use gaggle.Posts.Validation.{
  resolve_defaulted, resolve_names, find_mentions, CreatePollPayload, validate_poll,
  resolve_visibility_and_mentions,
}
use gaggle.Posts.Filter.{can_see, present, filter_visible_posts-Ends, can_view_post-Ends}
use gaggle.Posts.Mentions.{Resolved, resolve_visibility_and_mentions-Ends}
use gaggle.Posts.PollRules.{is_acceptable, validate_poll-is_acceptable}

abbrev person : ℕ → String → Bool → User
person n name is_private = record {
  id = n;
  username = name;
  email = "someone@example.org";
  password = "secret";
  is_admin = false;
  is_private = is_private;
  soft_deleted = false;
}

abbrev post : ℕ → ℕ → String → List ℕ → Post
post id author visibility mentioned = record {
  id = id;
  author_id = author;
  parent_id = none;
  quoted_post_id = none;
  content = "hello @gander and @goose and @nobody";
  soft_deleted = false;
  is_pinned = false;
  visibility = visibility;
  mentioned_user_ids = mentioned;
  created_at = 0;
  edited_at = none;
  likes_count = 0;
  reposts_count = 0;
  quotes_count = 0;
  bookmarks_count = 0;
  views_count = 0;
  replies_count = 0;
}

-- The first user follows the second, whose account is private, and not the third.
abbrev pond : World
pond = record {
  db = record empty_db {
    users = person 1 "goose" false ∷ person 2 "gander" true ∷ person 3 "gosling" true ∷ [];
    posts = post 10 2 "followers" [] ∷ post 11 3 "public" [] ∷ post 12 2 "mentions" (3 ∷ []) ∷ [];
    relationships = new_row 4 1 2 "follow" ∷ [];
  };
  hub = new_hub;
  sequence = 20;
  next_uuid = 0;
  now = 100;
  faults = [];
}

abbrev feed : List (Option Post)
feed =
    some (post 10 2 "followers" [])
    ∷ none
    ∷ some (post 11 3 "public" [])
    ∷ some (post 13 1 "mentions" [])
    ∷ []

filter_visible_posts-Ends_example :
    Ends pond
      (λ r d. (r ≡ some (select (can_see pond.db 1) (present feed))) × (d ≡ pond.db))
      (filter_visible_posts feed 1 pond)
filter_visible_posts-Ends_example = filter_visible_posts-Ends pond feed 1

filter_visible_posts_test :
    (filter_visible_posts feed 1 pond).0
    ≡ ok (some (post 10 2 "followers" [] ∷ post 13 1 "mentions" [] ∷ []))
unfolding filter_visible_posts get_relationship_statuses get_is_private reach author_ids keep_shown
    scan_status
filter_visible_posts_test = refl

can_view_post-Ends_example :
    Ends pond
      (λ r d. r ≡ some (can_see pond.db 1 (post 12 2 "mentions" (3 ∷ []))))
      (can_view_post 12 1 pond)
can_view_post-Ends_example = can_view_post-Ends pond 12 1

resolve_visibility_and_mentions-Ends_example :
    Ends pond
      (λ post' d. Resolved (λ s. s) pond.db (post 0 1 "mentions" []) post' × (d ≡ pond.db))
      (resolve_visibility_and_mentions (λ s. s) (post 0 1 "mentions" []) pond)
resolve_visibility_and_mentions-Ends_example =
    resolve_visibility_and_mentions-Ends (λ s. s) pond (post 0 1 "mentions" []) refl

-- The author is no audience, nobody is unknown, and one mentioned user is left.
resolve_visibility_and_mentions_test :
    (resolve_visibility_and_mentions (λ s. s) (post 0 1 "mentions" []) pond).0
    ≡ ok (post 0 1 "mentions" (2 ∷ []))
unfolding resolve_visibility_and_mentions resolve_defaulted resolve_names find_mentions
    get_by_username reach
resolve_visibility_and_mentions_test = refl

abbrev ballot : CreatePollPayload
ballot = record { question = "Which way?"; options = "north" ∷ " North " ∷ []; ends_at = none }

validate_poll-is_acceptable_example : (validate_poll ballot ≡ ok tt) ↔ (is_acceptable ballot ≡ true)
validate_poll-is_acceptable_example = validate_poll-is_acceptable ballot
