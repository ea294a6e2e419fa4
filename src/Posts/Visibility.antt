-- ===== src/Posts/Visibility.antt =====
-- server/internal/service/post_service.go: filterVisiblePosts and CanViewPost.
use gaggle.Prelude.{
  ℕ, Bool, true, false, not, ◌&&◌, String, List, [], ◌∷◌, Option, none, some, ◌==◌, str_eq,
  if◌then◌else◌, find, any, length,
}
use gaggle.AppErrors.{not_found_error, other_cause}
use gaggle.Database.{Post, M, query, pure, ◌>>=◌}
use gaggle.Accounts.{row_or, get_is_private}
use gaggle.Relationships.{RelationshipStatus, get_relationship_statuses}

abbrev pub visibility_public : String
visibility_public = "public"

abbrev pub visibility_followers : String
visibility_followers = "followers"

abbrev pub visibility_mentions : String
visibility_mentions = "mentions"

-- `authorSet[p.AuthorID] = struct{}{}`
abbrev insert_key : ℕ → List ℕ → List ℕ
insert_key id ids = if any (λ i. i == id) ids then ids else id ∷ ids

-- The keys of `authorSet`; a nil post has no author.
unfoldable pub author_ids : ℕ → List (Option Post) → List ℕ
author_ids viewer [] = []
author_ids viewer (none ∷ posts) = author_ids viewer posts
author_ids viewer (some p ∷ posts) =
    let rest = author_ids viewer posts in
    if p.author_id == viewer then rest else insert_key p.author_id rest

-- `statuses[id].IsFollowing`: a key that the map lacks gives a nil pointer, and the program panics,
-- which is none.
abbrev following : Option RelationshipStatus → Option Bool
following none = none
following (some s) = some s.is_following

-- `switch p.Visibility`: whether the post is appended.
abbrev pub by_visibility : (ℕ → Option RelationshipStatus) → ℕ → Post → Option Bool
by_visibility statuses viewer p =
    if str_eq p.visibility visibility_followers
    then following (statuses p.author_id)
    else if str_eq p.visibility visibility_mentions
    then some (any (λ id. id == viewer) p.mentioned_user_ids)
    else some true

-- `if isPrivate[p.AuthorID] && !statuses[p.AuthorID].IsFollowing { continue }`
abbrev unless_private : Bool → Option Bool → Option Bool → Option Bool
unless_private false _ shown = shown
unless_private true none shown = none
unless_private true (some false) shown = some false
unless_private true (some true) shown = shown

abbrev pub shows : (ℕ → Option RelationshipStatus) → (ℕ → Bool) → ℕ → Post → Option Bool
shows statuses is_private viewer p =
    if p.author_id == viewer
    then some true
    else unless_private (is_private p.author_id) (following (statuses p.author_id))
        (by_visibility statuses viewer p)

abbrev append_shown : Option Bool → Post → Option (List Post) → Option (List Post)
append_shown none p rest = none
append_shown (some b) p none = none
append_shown (some b) p (some ps) = some (if b then p ∷ ps else ps)

-- The loop over the posts.
unfoldable pub keep_shown :
    (ℕ → Option RelationshipStatus) → (ℕ → Bool) → ℕ → List (Option Post) → Option (List Post)
keep_shown statuses is_private viewer [] = some []
keep_shown statuses is_private viewer (none ∷ posts) = keep_shown statuses is_private viewer posts
keep_shown statuses is_private viewer (some p ∷ posts) =
    let rest = keep_shown statuses is_private viewer posts in
    append_shown (shows statuses is_private viewer p) p rest

-- `filterVisiblePosts`: the posts that are kept, or none where it panics. With no author to ask for,
-- the two maps are nil and nothing is queried.
unfoldable pub filter_visible_posts : List (Option Post) → ℕ → M (Option (List Post))
filter_visible_posts posts viewer = do
  statuses ← get_relationship_statuses viewer (author_ids viewer posts)
  is_private ← get_is_private (author_ids viewer posts)
  pure (keep_shown statuses is_private viewer posts)

-- `GetByID` of the posts, deleted ones included.
unfoldable pub get_post : ℕ → M Post
get_post id = do
  row ← query (λ d. find (λ p. p.id == id) d.posts)
  row_or row (not_found_error "post with id %d not found" other_cause)

-- `GetFullPostByID` of the store. The profile of the author, which every user has, is not modelled.
unfoldable pub get_full_post_by_id : ℕ → M Post
get_full_post_by_id id = do
  row ← query λ d.
      find (λ p. p.id == id && not p.soft_deleted && any (λ u. u.id == p.author_id) d.users) d.posts
  row_or row (not_found_error "post with id %d not found" other_cause)

-- `CanViewPost`; none is a panic.
unfoldable pub can_view_post : ℕ → ℕ → M (Option Bool)
can_view_post post_id viewer = do
  post ← get_full_post_by_id post_id
  visible ← filter_visible_posts (some post ∷ []) viewer
  pure (elim visible [ none ↦ none | some ps ↦ some (length ps == 1) ])
