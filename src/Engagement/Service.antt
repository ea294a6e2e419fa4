-- ===== src/Engagement/Service.antt =====
-- server/internal/service/post_engagement_service.go
use gaggle.Prelude.{ℕ, Bool, not, String, Option}
use gaggle.AppErrors.{no_cause, bad_request_error}
use gaggle.Database.{BookmarkCategory, M, transaction, raise_if, ◌>>◌}
use gaggle.Engagement.Store.{
  like_row, unlike_row, repost_row, unrepost_row, bookmark_row, unbookmark_row,
}
use gaggle.Engagement.Categories.{is_hex_color, create_category_row, delete_category_row}

-- `Like`
unfoldable pub like : ℕ → ℕ → M Bool
like post_id user_id = transaction (like_row post_id user_id)

-- `Unlike`
unfoldable pub unlike : ℕ → ℕ → M (Unit {0})
unlike post_id user_id = transaction (unlike_row post_id user_id)

-- `Repost`
unfoldable pub repost : ℕ → ℕ → M Bool
repost post_id user_id = transaction (repost_row post_id user_id)

-- `Unrepost`
unfoldable pub unrepost : ℕ → ℕ → M (Unit {0})
unrepost post_id user_id = transaction (unrepost_row post_id user_id)

-- `Bookmark`
unfoldable pub bookmark : ℕ → ℕ → Option ℕ → M (Unit {0})
bookmark post_id user_id category_id = transaction (bookmark_row post_id user_id category_id)

-- `Unbookmark`
unfoldable pub unbookmark : ℕ → ℕ → M (Unit {0})
unbookmark post_id user_id = transaction (unbookmark_row post_id user_id)

-- `CreateBookmarkCategory`
unfoldable pub create_bookmark_category : ℕ → String → String → M BookmarkCategory
create_bookmark_category user_id category_name color = do
  raise_if (not (is_hex_color color))
      (bad_request_error "invalid hex color format (expected #RRGGBB)" no_cause)
  transaction (create_category_row user_id category_name color)

-- `DeleteBookmarkCategory`
unfoldable pub delete_bookmark_category : ℕ → ℕ → M (Unit {0})
delete_bookmark_category user_id category_id = transaction (delete_category_row user_id category_id)
