-- ===== src/Publishing/Frames.antt =====
-- What is written behind a post's own row leaves the posts as they are.
use gaggle.Prelude.{◌+◌, ℕ, ◌≡◌, refl, ◌∙◌, ap, String, List, [], ◌∷◌, Option, none, some, arith}
use gaggle.AppErrors.{AppError, Result, ok, err}
use gaggle.Database.{
  Post, Db, World, M, reach, continue, query, PostMedia, ◌>>=◌, ◌>>◌, Succeeds, Succeeds-map,
}
use gaggle.Accounts.{row_or}
use gaggle.Posts.{CreatePollPayload}
use gaggle.Polls
use gaggle.Publishing.Store.{}
use gaggle.Publishing.Indexes.{link_media_to_post, sync_hashtags, create_news}
use gaggle.Publishing.Indexing.{sync_hashtags-Indexes, sync_mentions-Indexes}
use gaggle.Publishing.Service.{
  CreatePostNewsPayload, PostMediaRequest, require_uuid, link_all, write_indexes, create_poll,
  create_link,
}

-- A call that leaves the posts as they are.
abbrev pub KeepsPosts : {A : Type 0} → M A → Type 0
KeepsPosts m = (w : World) → (m w).1.db.posts ≡ w.db.posts

continue-KeepsPosts :
    {A B : Type 0} (r : Result A) (f : A → M B) (v : World) (ps : List Post)
    → v.db.posts ≡ ps
    → ((a : A) → KeepsPosts (f a))
    → (continue r f v).1.db.posts ≡ ps
continue-KeepsPosts (ok a) f v ps e k = k a v ∙ e
continue-KeepsPosts (err x) f v ps e k = e

bind-KeepsPosts :
    {A B : Type 0} (m : M A) (f : A → M B)
    → KeepsPosts m
    → ((a : A) → KeepsPosts (f a))
    → KeepsPosts (m >>= f)
bind-KeepsPosts m f h k w = continue-KeepsPosts (m w).0 f (m w).1 w.db.posts (h w) k

query-KeepsPosts : {A : Type 0} (f : Db → A) → KeepsPosts (query f)
unfolding reach
query-KeepsPosts f w = ground arith

row_or-KeepsPosts : {A : Type 0} (o : Option A) (e : AppError) → KeepsPosts (row_or o e)
row_or-KeepsPosts none e w = refl
row_or-KeepsPosts (some a) e w = refl

option-KeepsPosts :
    (poll_id : ℕ) (option : String) (position : ℕ)
    → KeepsPosts (Polls.create_option poll_id option position)
unfolding Polls.create_option reach
option-KeepsPosts poll_id option position w = ground arith

options-KeepsPosts :
    (poll_id index : ℕ) (options : List String)
    → KeepsPosts (Polls.create_options poll_id index options)
unfolding Polls.create_options
options-KeepsPosts poll_id index [] = λ w. refl
options-KeepsPosts poll_id index (option ∷ options) =
    bind-KeepsPosts (Polls.create_option poll_id option (index + 1)) _
      (option-KeepsPosts poll_id option (index + 1))
      λ _. options-KeepsPosts poll_id (index + 1) options

poll_row-KeepsPosts :
    (post_id : ℕ) (payload : CreatePollPayload) → KeepsPosts (Polls.create_row post_id payload)
unfolding Polls.create_row reach
poll_row-KeepsPosts post_id payload w = ground arith

pub poll-KeepsPosts :
    (post : Post) (poll : Option CreatePollPayload) → KeepsPosts (create_poll post poll)
unfolding Polls.create
poll-KeepsPosts post none = λ w. refl
poll-KeepsPosts post (some poll) =
    bind-KeepsPosts (Polls.create_row post.id _) _ (poll_row-KeepsPosts post.id _)
      λ poll_id. options-KeepsPosts poll_id 0 poll.options

pub link-KeepsPosts :
    (post_id : ℕ) (news : Option CreatePostNewsPayload) → KeepsPosts (create_link post_id news)
unfolding create_news reach
link-KeepsPosts post_id none = λ w. refl
link-KeepsPosts post_id (some news) = λ w. ground arith

media-KeepsPosts : (pm : PostMedia) → KeepsPosts (link_media_to_post pm)
unfolding link_media_to_post reach
media-KeepsPosts pm =
    bind-KeepsPosts (query _) _ (query-KeepsPosts _)
      λ row. bind-KeepsPosts (row_or row _) _ (row_or-KeepsPosts row _) λ _ w. ground arith

-- A call that, where it succeeds, returns the value and has left the posts as they were.
abbrev pub Returns : {A : Type 0} → A → M A → Type 0
Returns a m = (w : World) → Succeeds (λ p d. (p ≡ a) × (d.posts ≡ w.db.posts)) (m w)

continue-Returns :
    {A B : Type 0} (b : B) (r : Result A) (k : M B) (v : World) (ps : List Post)
    → v.db.posts ≡ ps
    → Returns b k
    → Succeeds (λ p d. (p ≡ b) × (d.posts ≡ ps)) (continue r (λ _. k) v)
continue-Returns b (ok a) k v ps e h = Succeeds-map _ _ (k v) (λ p d (same, f). (same, f ∙ e)) (h v)
continue-Returns b (err x) k v ps e h = tt

pub then-Returns :
    {A B : Type 0} (b : B) (m : M A) (k : M B) → KeepsPosts m → Returns b k → Returns b (m >> k)
then-Returns b m k h g w = continue-Returns b (m w).0 k (m w).1 w.db.posts (h w) g

uuid-KeepsPosts : (o : Option String) → KeepsPosts (require_uuid o)
uuid-KeepsPosts none w = refl
uuid-KeepsPosts (some u) w = refl

module _ (lower : String → String) (parse_uuid : String → Option String) where
  all-KeepsPosts :
      (post_id index : ℕ) (media : List PostMediaRequest)
      → KeepsPosts (link_all lower parse_uuid post_id index media)
  unfolding link_all
  all-KeepsPosts post_id index [] = λ w. refl
  all-KeepsPosts post_id index (m ∷ ms) =
      bind-KeepsPosts (require_uuid (parse_uuid m.uuid)) _ (uuid-KeepsPosts (parse_uuid m.uuid))
        λ uuid.
          bind-KeepsPosts (link_media_to_post _) _ (media-KeepsPosts _)
            λ _. all-KeepsPosts post_id (index + 1) ms

  pub indexes-KeepsPosts :
      (post : Post) (media : List PostMediaRequest)
      → KeepsPosts (write_indexes lower parse_uuid post media)
  unfolding write_indexes
  indexes-KeepsPosts post media =
      bind-KeepsPosts (link_all lower parse_uuid post.id 0 media) _ (all-KeepsPosts post.id 0 media)
        λ _.
          bind-KeepsPosts (sync_hashtags post.id post.content) _
            (λ w. ap Db.posts (sync_hashtags-Indexes post.id post.content w))
            λ _ w. ap Db.posts (sync_mentions-Indexes lower post.id post.content w)
