-- ===== src/Publishing/Store.antt =====
-- server/internal/store/post_store.go, the statements that write, with the constraints and triggers
-- of migrations 000005 to 000021; hashtag_store.go, mention_store.go, and what media_store.go and
-- news_store.go do for a post.
use Prim.Native.String.{count as rune_count}
use gaggle.Prelude.{
  ℕ, zero, suc, ◌+◌, Bool, true, false, not, ◌&&◌, ◌||◌, String, List, [], ◌∷◌, ◌++◌, Option, none,
  some, ◌==◌, ltb, str_eq, if◌then◌else◌, find, select, update, any,
}
use gaggle.AppErrors.{ok, err, other_cause, no_cause, not_found_error}
use gaggle.Database.{
  Post, PostEdit, Db, M, database_error, reach, query, statement, next_serial, ◌>>=◌, ◌>>◌,
}
use gaggle.Accounts.{row_or}
use gaggle.Posts.{get_post, visibility_public, visibility_followers, visibility_mentions}
use gaggle.Pages.{newest_first}

abbrev pub has_id : ℕ → Post → Bool
has_id id p = p.id == id

abbrev pub is_id : ℕ → Option ℕ → Bool
is_id id o = elim o [ none ↦ false | some n ↦ n == id ]

-- REFERENCES, where the column may be NULL.
abbrev refers : Option ℕ → List Post → Bool
refers none posts = true
refers (some id) posts = any (has_id id) posts

-- The triggers on INSERT: the parent has one reply more, the quoted post one quote more.
abbrev pub count_links : Post → Post → Post
count_links new p = record p {
  replies_count = (if is_id p.id new.parent_id then 1 else 0) + p.replies_count;
  quotes_count = (if is_id p.id new.quoted_post_id then 1 else 0) + p.quotes_count;
}

abbrev pub is_visibility : String → Bool
is_visibility v =
    str_eq v visibility_public || str_eq v visibility_followers || str_eq v visibility_mentions

-- What the constraints of posts ask of a new row.
abbrev pub fits_posts : Db → Post → Bool
fits_posts d p =
    not (ltb 280 (rune_count p.content))
    && is_visibility p.visibility
    && any (λ u. u.id == p.author_id) d.users
    && refers p.parent_id d.posts
    && refers p.quoted_post_id d.posts

abbrev pub with_post : Post → Db → Db
with_post p d = record d { posts = update (λ q. true) (count_links p) (d.posts ++ p ∷ []) }

abbrev pub insert_post : Post → M Post
insert_post p w =
    if fits_posts w.db p
    then (ok p, record w { db = with_post p w.db })
    else (err database_error, w)

-- The row of a new post: the columns that the INSERT names, and the defaults. A zero time is
-- COALESCEd to the clock's.
abbrev pub post_row : ℕ → ℕ → Option ℕ → Post → Post
post_row id now quoted p = record {
  id = id;
  author_id = p.author_id;
  parent_id = p.parent_id;
  quoted_post_id = quoted;
  content = p.content;
  soft_deleted = false;
  is_pinned = false;
  visibility = p.visibility;
  mentioned_user_ids = p.mentioned_user_ids;
  created_at = if p.created_at == 0 then now else p.created_at;
  edited_at = none;
  likes_count = 0;
  reposts_count = 0;
  quotes_count = 0;
  bookmarks_count = 0;
  views_count = 0;
  replies_count = 0;
}

-- `Create`, without a quoted post, and `CreateQuotedPost`, with one.
unfoldable pub create_post_row : Option ℕ → Post → M Post
create_post_row quoted p = do
  reach
  id ← next_serial
  λ w. insert_post (post_row id w.now quoted p) w

-- `Update`: RETURNING does not read the audience and the quoted post, which are the zero values.
unfoldable pub update_post_row : ℕ → ℕ → String → M Post
update_post_row post_id author_id content = do
  reach
  λ w.
      let q : Post → Bool =
        λ p. p.id == post_id && p.author_id == author_id && not p.soft_deleted in
      elim (find q w.db.posts) [
        | none ↦ (err (not_found_error "post not found or not owned by user" other_cause), w)
        | some p ↦ if ltb 280 (rune_count content) then (err database_error, w) else (
          ok (record p {
            content = content;
            edited_at = some w.now;
            visibility = "";
            mentioned_user_ids = [];
            quoted_post_id = none;
          }),
          record w {
            db = record w.db {
              posts =
                  update q (λ r. record r { content = content; edited_at = some w.now }) w.db.posts;
            };
          },
        )
      ]

-- WITH RECURSIVE descendants: the post itself, and the replies to its descendants, read from the
-- reply upwards. A reply is younger than its parent, so the id of a post bounds the way up.
unfoldable pub is_descendant : ℕ → List Post → ℕ → ℕ → Bool
is_descendant zero posts root id = false
is_descendant (suc n) posts root id =
    any
      (λ p.
        p.id == id
        && (p.id == root
            || elim p.parent_id [ none ↦ false | some parent ↦ is_descendant n posts root parent ]))
      posts

abbrev pub marked : ℕ → List Post → Post → Bool
marked root posts p = is_descendant (p.id + 1) posts root p.id && not p.soft_deleted

-- `DeleteCascade`
unfoldable pub delete_cascade : ℕ → M (Unit {0})
delete_cascade id = do
  reach
  λ w.
      if any (marked id w.db.posts) w.db.posts
      then (
        ok tt,
        record w {
          db = record w.db {
            posts =
                update (marked id w.db.posts) (λ p. record p { soft_deleted = true }) w.db.posts;
          };
        },
      )
      else (err (not_found_error "post not found" no_cause), w)

abbrev pub is_pinned_by : ℕ → Post → Bool
is_pinned_by author_id p = p.author_id == author_id && p.is_pinned

abbrev pub is_pinnable : ℕ → ℕ → Post → Bool
is_pinnable post_id author_id p = p.id == post_id && p.author_id == author_id && not p.soft_deleted

abbrev set_pinned : Bool → Post → Post
set_pinned b p = record p { is_pinned = b }

-- `Pin`: two statements.
unfoldable pub pin_row : ℕ → ℕ → M (Unit {0})
pin_row post_id author_id = do
  statement λ w.
      (tt, record w.db { posts = update (is_pinned_by author_id) (set_pinned false) w.db.posts })
  reach
  λ w.
      if any (is_pinnable post_id author_id) w.db.posts
      then (
        ok tt,
        record w {
          db = record w.db {
            posts = update (is_pinnable post_id author_id) (set_pinned true) w.db.posts;
          };
        },
      )
      else (err (not_found_error "post not found or not owned by user" no_cause), w)

-- `Unpin`
unfoldable pub unpin_row : ℕ → ℕ → M (Unit {0})
unpin_row post_id author_id = do
  reach
  λ w.
      let q : Post → Bool = λ p. p.id == post_id && is_pinned_by author_id p in
      if any q w.db.posts
      then (ok tt, record w { db = record w.db { posts = update q (set_pinned false) w.db.posts } })
      else (err (not_found_error "pinned post not found" no_cause), w)

-- `GetPinned`
unfoldable pub get_pinned : ℕ → M Post
get_pinned author_id = do
  row ← query (λ d. find (λ p. is_pinned_by author_id p && not p.soft_deleted) d.posts)
  pinned ← row_or row (not_found_error "pinned post not found" other_cause)
  get_post pinned.id

-- `ListEdits`
unfoldable pub list_edits : ℕ → M (List PostEdit)
list_edits post_id = query λ d.
    select (λ e. e.post_id == post_id)
      (newest_first PostEdit.edited_at PostEdit.edit_id d.post_tables.post_edits)

abbrev pub with_edits : List PostEdit → Db → Db
with_edits edits d = record d { post_tables = record d.post_tables { post_edits = edits } }

-- `CreateEdit`: the width of the column, and the post's key.
unfoldable pub create_edit : ℕ → String → M (Unit {0})
create_edit post_id content_before = do
  reach
  id ← next_serial
  λ w.
      if ltb 280 (rune_count content_before) || not (any (has_id post_id) w.db.posts)
      then (err database_error, w)
      else (
        ok tt,
        record w {
          db =
              with_edits
                (w.db.post_tables.post_edits
                  ++ record {
                    edit_id = id;
                    post_id = post_id;
                    content_before = content_before;
                    edited_at = w.now;
                  }
                    ∷ [])
                w.db;
        },
      )
