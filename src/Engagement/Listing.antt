-- ===== src/Engagement/Listing.antt =====
-- server/internal/store/post_engagement_store.go: who liked and who reposted a post. The profile that
-- is joined to each user is not modelled.
use gaggle.Prelude.{
  ℕ, ◌+◌, ◌-◌, Bool, true, false, not, ◌&&◌, List, [], ◌∷◌, Option, none, some, ◌==◌, length, take,
  drop, find, select,
}
use gaggle.AppErrors.{ok, err}
use gaggle.Database.{User, Engagement, Db, M, query, pure, ◌>>=◌}
use gaggle.Pages.{CursorText, no_cursor, encode_cursor, create_timestamp_cursor, newest_first}
use gaggle.Feeds.{require_cursor, in_seconds, is_earlier}

pub record UserList : Type 0 where
  pub items : List User
  pub has_more : Bool
  pub next_cursor : CursorText

-- The JOIN with the users that are not deleted.
abbrev pub joined : List User → List Engagement → List User
joined users [] = []
joined users (l ∷ ls) =
    let rest = joined users ls in
    elim (find (λ u. u.id == l.user_id && not u.soft_deleted) users) [
      | none ↦ rest
      | some u ↦ u ∷ rest
    ]

abbrev first_row : List Engagement → Option (ℕ × ℕ)
first_row [] = none
first_row (l ∷ ls) = some (l.id, in_seconds l.created_at)

module _ (table : Db → List Engagement) where
  -- `lastLikeTimestamp` and `lastRepostTimestamp`
  unfoldable pub last_timestamp : ℕ → ℕ → M (Option (ℕ × ℕ))
  last_timestamp post_id offset = query λ d. first_row (
      drop (offset - 1) (
        newest_first Engagement.created_at Engagement.id
          (select (λ l. l.post_id == post_id) (table d))))

  -- An error of the lookup, a missing row included, leaves no cursor.
  abbrev pub next_after : ℕ → ℕ → Bool → M CursorText
  next_after post_id limit false w = (ok no_cursor, w)
  next_after post_id limit true w =
      let (r, w') = last_timestamp post_id limit w in
      (
        ok (elim r [
          | ok row ↦ elim row [
            | none ↦ no_cursor
            | some (id, t) ↦ encode_cursor (create_timestamp_cursor id t)
          ]
          | err e ↦ no_cursor
        ]),
        w',
      )

  unfoldable pub engaged_users : ℕ → ℕ → CursorText → M UserList
  engaged_users post_id limit cursor = do
    key ← require_cursor cursor
    rows ← query λ d. take (limit + 1) (
        joined d.users (
          newest_first Engagement.created_at Engagement.id
            (select (λ l. l.post_id == post_id && is_earlier key l.created_at) (table d))))
    let items = take limit rows
    next ← next_after post_id limit (length items == limit && not (length items == 0))
    pure (record { items = items; has_more = length items == limit; next_cursor = next })

-- `GetPostLikers`
unfoldable pub get_post_likers : ℕ → ℕ → CursorText → M UserList
get_post_likers = engaged_users (λ d. d.engagements.post_likes)

-- `GetPostReposters`
unfoldable pub get_post_reposters : ℕ → ℕ → CursorText → M UserList
get_post_reposters = engaged_users (λ d. d.engagements.post_reposts)
