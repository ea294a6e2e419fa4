-- ===== src/Publishing/Service.antt =====
-- server/internal/service/post_service.go: Create, QuotePost, DeleteByID, Update, Pin, Unpin,
-- GetPinned and ListEdits. The post that a request names comes from
-- server/internal/middleware/post.go, `SetPostContextMiddleware`.
use gaggle.Prelude.{
  ℕ, ◌+◌, Bool, true, false, not, ◌&&◌, String, List, [], ◌∷◌, Option, none, some, ◌==◌, str_eq,
  if◌then◌else◌,
}
use gaggle.AppErrors.{
  AppError, Result, ok, err, is, not_found, no_cause, other_cause, bad_request_error,
  not_found_error, forbidden_error,
}
use gaggle.Database.{Post, NewsRow, M, transaction, pure, raise, raise_if, ◌>>=◌, ◌>>◌}
use gaggle.Posts.{
  get_post, get_full_post_by_id, filter_visible_posts, trim_space, validate_content_length,
  CreatePollPayload, validate_poll, resolve_visibility_and_mentions,
}
use gaggle.Polls
use gaggle.Publishing.Store.{
  create_post_row, update_post_row, delete_cascade, pin_row, unpin_row, get_pinned, create_edit,
}
use gaggle.Publishing.Indexes.{sync_hashtags, sync_mentions, link_media_to_post, create_news}

-- A check that is a value of its own.
abbrev pub require : Result (Unit {0}) → M (Unit {0})
require r w = (r, w)

-- The lookup of the parent: its absence has a message of its own.
abbrev parent_found : Result Post → M Post
parent_found (ok p) = pure p
parent_found (err e) =
    if is e not_found then raise (not_found_error "parent post not found" other_cause) else raise e

unfoldable pub check_parent : Option ℕ → M (Unit {0})
check_parent none = pure tt
check_parent (some id) = do
  parent ← λ w. let (r, w') = get_post id w in parent_found r w'
  raise_if parent.soft_deleted (not_found_error "parent post not found" no_cause)

abbrev pub has_parent : Post → Bool
has_parent p = elim p.parent_id [ none ↦ false | some _ ↦ true ]

abbrev pub check_poll : Post → Option CreatePollPayload → M (Unit {0})
check_poll post none = pure tt
check_poll post (some poll) = do
  raise_if (has_parent post)
      (bad_request_error "polls are only allowed on top-level posts" no_cause)
  require (validate_poll (record poll { question = post.content }))

abbrev pub create_poll : Post → Option CreatePollPayload → M (Unit {0})
create_poll post none = pure tt
create_poll post (some poll) = Polls.create post.id (record poll { question = post.content })

pub record CreatePostNewsPayload : Type 0 where
  pub url : String
  pub title : String
  pub image_url : String
  pub site_name : String

-- `ToNewsLink`
abbrev pub to_news_link : ℕ → CreatePostNewsPayload → NewsRow
to_news_link post_id payload = record {
  post_id = post_id;
  url = payload.url;
  title = payload.title;
  image_url = payload.image_url;
  site_name = payload.site_name;
}

abbrev pub create_link : ℕ → Option CreatePostNewsPayload → M (Unit {0})
create_link post_id none = pure tt
create_link post_id (some payload) = create_news (to_news_link post_id payload)

abbrev pub is_there {ℓ} : {A : Type ℓ} → Option A → Bool
is_there none = false
is_there (some a) = true

abbrev pub is_empty {ℓ} : {A : Type ℓ} → List A → Bool
is_empty [] = true
is_empty (_ ∷ _) = false

pub record PostMediaRequest : Type 0 where
  pub uuid : String
  pub alt_text : String

abbrev pub check_quoted : Option ℕ → M (Unit {0})
check_quoted none = raise (bad_request_error "quoted post ID is required" no_cause)
check_quoted (some id) = do
  quoted ← get_post id
  raise_if quoted.soft_deleted (not_found_error "quoted post not found" no_cause)

abbrev pub no_news : AppError
no_news = bad_request_error "news attachments are only allowed on top-level posts" no_cause

abbrev pub require_uuid : Option String → M String
require_uuid none = raise (bad_request_error "invalid media UUID format" other_cause)
require_uuid (some u) = pure u

-- The database's LOWER, and uuid.Parse with the text that stands for its value.
module _ (lower : String → String) (parse_uuid : String → Option String) where
  -- The loop over the media, from the given index on.
  unfoldable pub link_all : ℕ → ℕ → List PostMediaRequest → M (Unit {0})
  link_all post_id index [] = pure tt
  link_all post_id index (m ∷ ms) = do
    uuid ← require_uuid (parse_uuid m.uuid)
    link_media_to_post (record {
      post_id = post_id;
      media_uuid = uuid;
      position = index + 1;
      alt_text = m.alt_text;
    })
    link_all post_id (index + 1) ms

  -- What is written behind the post's own row, for both kinds of posts.
  unfoldable pub write_indexes : Post → List PostMediaRequest → M (Unit {0})
  write_indexes post media = do
    link_all post.id 0 media
    sync_hashtags post.id post.content
    sync_mentions lower post.id post.content

  -- What Create writes once its checks have passed.
  unfoldable pub write_new :
      Post
      → List PostMediaRequest
      → Option CreatePollPayload
      → Option CreatePostNewsPayload
      → M Post
  write_new post media poll news = do
    created ← create_post_row none post
    write_indexes created media
    create_poll created poll
    create_link created.id news
    pure created

  unfoldable pub create_body :
      Post
      → List PostMediaRequest
      → Option CreatePollPayload
      → Option CreatePostNewsPayload
      → M Post
  create_body post media poll news = do
    check_parent post.parent_id
    raise_if (is_empty media && str_eq (trim_space post.content) "")
        (bad_request_error "post content is required" no_cause)
    require (validate_content_length post.content)
    check_poll post poll
    raise_if (is_there news && has_parent post) no_news
    write_new post media poll news

  -- `Create`: the post that it leaves in its argument.
  unfoldable pub create_post :
      Post
      → List PostMediaRequest
      → Option CreatePollPayload
      → Option CreatePostNewsPayload
      → M Post
  create_post post media poll news = do
    resolved ← resolve_visibility_and_mentions lower post
    transaction (create_body resolved media poll news)

  unfoldable pub quote_body : Post → List PostMediaRequest → M Post
  quote_body post media = do
    check_quoted post.quoted_post_id
    raise_if (is_empty media && str_eq post.content "")
        (bad_request_error "quote post content is required" no_cause)
    require (validate_content_length post.content)
    created ← create_post_row post.quoted_post_id post
    write_indexes created media
    pure created

  -- `QuotePost`
  unfoldable pub quote_post : Post → List PostMediaRequest → M Post
  quote_post post media = do
    resolved ← resolve_visibility_and_mentions lower post
    transaction (quote_body resolved media)

module _ (lower : String → String) where
  unfoldable pub update_body : Post → ℕ → String → M Post
  update_body post actor_id content = do
    create_edit post.id post.content
    updated ← update_post_row post.id actor_id content
    sync_hashtags post.id content
    sync_mentions lower post.id content
    pure updated

  -- `Update`
  unfoldable pub update_post : Post → ℕ → String → M Post
  update_post post actor_id content = do
    raise_if (not (post.author_id == actor_id))
        (forbidden_error "not authorized to edit this post" no_cause)
    raise_if (str_eq (trim_space content) "")
        (bad_request_error "post content is required" no_cause)
    require (validate_content_length content)
    if str_eq content post.content
        then pure post
        else transaction (update_body post actor_id content)

-- `DeleteByID`
unfoldable pub delete_post : Post → ℕ → M (Unit {0})
delete_post post actor_id = do
  raise_if (not (post.author_id == actor_id))
      (forbidden_error "not authorized to delete this post" no_cause)
  transaction (delete_cascade post.id)

-- `Pin`
unfoldable pub pin_post : Post → ℕ → M (Unit {0})
pin_post post actor_id = do
  raise_if (not (post.author_id == actor_id))
      (forbidden_error "not authorized to pin this post" no_cause)
  transaction (pin_row post.id actor_id)

-- `Unpin`
unfoldable pub unpin_post : Post → ℕ → M (Unit {0})
unpin_post post actor_id = do
  raise_if (not (post.author_id == actor_id))
      (forbidden_error "not authorized to unpin this post" no_cause)
  transaction (unpin_row post.id actor_id)

abbrev require_shown : Post → Option (List Post) → M (Option Post)
require_shown post none = pure none
require_shown post (some []) = raise (not_found_error "post not found" no_cause)
require_shown post (some (_ ∷ _)) = pure (some post)

-- `GetPinned`, without the loaders of what hangs on the post; none is a panic of the filter.
unfoldable pub pinned_post : ℕ → ℕ → M (Option Post)
pinned_post author_id viewer_id = do
  post ← get_pinned author_id
  full ← get_full_post_by_id post.id
  visible ← filter_visible_posts (some full ∷ []) viewer_id
  require_shown full visible
