-- ===== src/Publishing/Examples.antt =====
-- Runs of the writers of posts.
use gaggle.Prelude.{
  ◌↔◌, ℕ, ◌≡◌, refl, ◌≢◌, ◌⊎◌, Bool, true, false, not, ◌&&◌, String, [], ◌∷◌, Option, none, some,
  ◌==◌, any,
}
use gaggle.AppErrors.{ok}
use gaggle.Database.{User, Post, World, reach, transaction, empty_db, Ends, Succeeds}
use gaggle.Realtime.{new_hub}
use gaggle.Posts.{can_view_post}
use gaggle.Posts.Mentions.{Resolved}
use gaggle.Publishing.Tags.{extract_hashtags, lower_text, extract_mentions}
use gaggle.Publishing.Store.{get_pinned, is_descendant, delete_cascade}
use gaggle.Publishing.Indexes.{sync_mentions}
use gaggle.Publishing.Service.{pin_post, delete_post, update_post, create_post}
use gaggle.Publishing.Pins.{Pins, pin_post-Pins, get_pinned-pin_post}
use gaggle.Publishing.Deletion.{Descends, Deletes, delete_post-Deletes, can_view_post-delete_post}
use gaggle.Publishing.Names.{IsMentioned}
use gaggle.Publishing.Indexing.{is_mentioned, sync_mentions-Mentioned}
use gaggle.Publishing.Editing.{Edits, update_post-Edits}
use gaggle.Publishing.Creation.{Creates, create_post-Creates}

tags_test : extract_hashtags "#Go ##go a#b, (#pond)" ≡ "go" ∷ "pond" ∷ []
unfolding extract_hashtags lower_text
tags_test = refl

mentions_test :
    extract_mentions "@Goose a@b.com @0123456789abcdefgh" ≡ "goose" ∷ "0123456789abcdef" ∷ []
unfolding extract_mentions lower_text
mentions_test = refl

abbrev person : ℕ → String → User
person n name = record {
  id = n;
  username = name;
  email = "someone@example.org";
  password = "secret";
  is_admin = false;
  is_private = false;
  soft_deleted = false;
}

abbrev post : ℕ → ℕ → Option ℕ → Bool → Post
post id author parent pinned = record {
  id = id;
  author_id = author;
  parent_id = parent;
  quoted_post_id = none;
  content = "honk";
  soft_deleted = false;
  is_pinned = pinned;
  visibility = "public";
  mentioned_user_ids = [];
  created_at = 0;
  edited_at = none;
  likes_count = 0;
  reposts_count = 0;
  quotes_count = 0;
  bookmarks_count = 0;
  views_count = 0;
  replies_count = 0;
}

-- A post with a reply and a reply to that, and another post of the same author, which is pinned.
abbrev pond : World
pond = record {
  db = record empty_db {
    users = person 1 "goose" ∷ person 2 "gander" ∷ [];
    posts =
        post 10 1 none false
        ∷ post 11 2 (some 10) false
        ∷ post 12 1 (some 11) false
        ∷ post 13 1 none true
        ∷ [];
  };
  hub = new_hub;
  sequence = 20;
  next_uuid = 0;
  now = 100;
  faults = [];
}

pin_post-Pins_example :
    Ends pond
      (λ _ d. ((post 10 1 none false).author_id ≡ 1) × Pins pond.db 10 1 d)
      (pin_post (post 10 1 none false) 1 pond)
pin_post-Pins_example = pin_post-Pins pond (post 10 1 none false) 1

get_pinned-pin_post_example :
    Ends pond
      (λ _ d.
        (v : World)
        → v.faults ≡ []
        → v.db ≡ d
        → (p : Post) × ((get_pinned 1 v).0 ≡ ok p) × (p.id ≡ 10))
      (pin_post (post 10 1 none false) 1 pond)
get_pinned-pin_post_example = get_pinned-pin_post pond (post 10 1 none false) 1

delete_post-Deletes_example :
    Ends pond
      (λ _ d. ((post 10 1 none false).author_id ≡ 1) × Deletes pond.db 10 d)
      (delete_post (post 10 1 none false) 1 pond)
delete_post-Deletes_example = delete_post-Deletes pond (post 10 1 none false) 1 refl

-- The post and the two below it go, the other stays.
delete_post_test :
    any
      (λ p. p.id == 12 && not p.soft_deleted)
      (delete_post (post 10 1 none false) 1 pond).1.db.posts
    ≡ false
unfolding delete_post transaction delete_cascade is_descendant reach
delete_post_test = refl

can_view_post-delete_post_example :
    Ends pond
      (λ _ d.
        (v : World) (id viewer : ℕ) (answer : Option Bool)
        → v.db ≡ d
        → Descends pond.db.posts 10 id
        → (can_view_post id viewer v).0 ≢ ok answer)
      (delete_post (post 10 1 none false) 1 pond)
can_view_post-delete_post_example = can_view_post-delete_post pond (post 10 1 none false) 1 refl

abbrev same : String → String
same s = s

sync_mentions-Mentioned_example :
    Succeeds
      (λ _ d.
        ((k : ℕ) → (is_mentioned d 10 k ≡ true) ↔ IsMentioned same pond.db.users "hello @gander" k)
        × ((p k : ℕ) → (p == 10) ≡ false → is_mentioned d p k ≡ is_mentioned pond.db p k))
      (sync_mentions same 10 "hello @gander" pond)
sync_mentions-Mentioned_example = sync_mentions-Mentioned same 10 "hello @gander" pond

abbrev new_text : String
new_text = "hello @gander"

update_post-Edits_example :
    Ends pond
      (λ _ d.
        ((post 10 1 none false).author_id ≡ 1)
        × (((new_text ≡ (post 10 1 none false).content) × (d ≡ pond.db))
            ⊎ Edits same pond.db 100 (post 10 1 none false) 1 new_text d))
      (update_post same (post 10 1 none false) 1 new_text pond)
update_post-Edits_example = update_post-Edits same pond (post 10 1 none false) 1 new_text

create_post-Creates_example :
    Ends pond
      (λ created d.
        (resolved : Post) × Resolved same pond.db (post 0 2 (some 10) false) resolved
        × Creates pond.db 100 resolved none none created d)
      (create_post same some (post 0 2 (some 10) false) [] none none pond)
create_post-Creates_example =
    create_post-Creates same some pond (post 0 2 (some 10) false) [] none none refl
