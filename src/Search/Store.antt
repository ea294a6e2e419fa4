-- ===== src/Search/Store.antt =====
-- server/internal/store/post_store.go: Search, ListByHashtag, ListMentionedBy and
-- listDiscoverablePosts. The database's ILIKE is a parameter.
use Prim.Native.Char.{code}
use gaggle.Prelude.{
  ℕ, ◌+◌, Bool, true, false, not, ◌&&◌, ◌||◌, String, List, Option, none, some, ◌==◌, ltb, leb,
  str_eq, if◌then◌else◌, length, take, select, any, ℤ, pos, negsuc,
}
use gaggle.AppErrors.{other_cause, bad_request_error}
use gaggle.Database.{Post, Db, M, query, pure, raise, ◌>>=◌}
use gaggle.Posts.{trim_space}
use gaggle.Publishing.{lower_text}
use gaggle.Pages.{
  CursorText, no_cursor, decode_cursor, encode_cursor, create_timestamp_cursor, is_before,
  newest_first,
}
use gaggle.Feeds.{PostFeed, last}

pub record PostSearchFilters : Type 0 where
  pub from : String
  pub hashtag : String
  pub has_media : Bool
  pub min_likes : ℤ
  pub include_replies : Bool
  pub since : Option ℕ
  pub until : Option ℕ

-- strings.TrimPrefix(s, "#")
abbrev pub trim_hash : String → String
trim_hash String.[] = String.[]
trim_hash (String.◌∷◌ c s) = if code c == b'#' then s else String.◌∷◌ c s

-- The replacer in front of the pattern: a backslash before each backslash, % and _.
unfoldable pub escape_like : String → String
escape_like String.[] = String.[]
escape_like (String.◌∷◌ c s) =
    let rest = escape_like s in
    if code c == 92 || code c == b'%' || code c == b'_'
    then String.◌∷◌ "\\" (String.◌∷◌ c rest)
    else String.◌∷◌ c rest

-- The cursor of a page: its time and its id.
abbrev pub search_cursor : CursorText → M (Option (ℕ × ℕ))
search_cursor text = elim (decode_cursor text) [
  | none ↦ raise (bad_request_error "invalid search cursor" other_cause)
  | some none ↦ pure none
  | some (some c) ↦ elim c.timestamp [
    | none ↦ raise (bad_request_error "invalid search cursor" other_cause)
    | some t ↦ pure (some (t, c.id))
  ]
]

abbrev pub is_past : Option (ℕ × ℕ) → Post → Bool
is_past none p = true
is_past (some (t, i)) p = is_before Post.created_at Post.id t i p

-- The page that the rows make, one row more than the limit being asked for; none is the index out of
-- range where the limit is 0.
abbrev pub page_of : ℕ → List Post → Option PostFeed
page_of limit rows =
    if ltb limit (length rows)
    then elim (last (take limit rows)) [
      | none ↦ none
      | some p ↦ some (record {
        items = take limit rows;
        has_more = true;
        next_cursor = encode_cursor (create_timestamp_cursor p.id p.created_at);
      })
    ]
    else some (record { items = rows; has_more = false; next_cursor = no_cursor })

-- `listDiscoverablePosts`, which reads the id and the time of each row.
unfoldable pub list_discoverable_posts : (Db → Post → Bool) → ℕ → CursorText → M (Option PostFeed)
list_discoverable_posts fits limit cursor = do
  key ← search_cursor cursor
  rows ← query λ d.
      take (limit + 1)
        (select (λ p. fits d p && is_past key p) (newest_first Post.created_at Post.id d.posts))
  pure (page_of limit rows)

abbrev pub is_found_in : Post → Bool
is_found_in p = not p.soft_deleted && elim p.parent_id [ none ↦ true | some _ ↦ false ]

-- The JOIN of post_hashtags with hashtags.
abbrev pub is_tagged : String → Db → Post → Bool
is_tagged name d p =
    any
      (λ l.
        l.post_id == p.id
        && any (λ h. h.hashtag_id == l.hashtag_id && str_eq h.name name) d.post_tables.hashtags)
      d.post_tables.post_hashtags

-- `ListByHashtag`
unfoldable pub list_by_hashtag : String → ℕ → CursorText → M (Option PostFeed)
list_by_hashtag name = list_discoverable_posts (λ d p. is_found_in p && is_tagged name d p)

abbrev pub is_found_for : ℕ → Db → Post → Bool
is_found_for user_id d p =
    is_found_in p
    && any (λ m. m.post_id == p.id && m.user_id == user_id) d.post_tables.post_mentions

-- `ListMentionedBy`
unfoldable pub list_mentioned_by : ℕ → ℕ → CursorText → M (Option PostFeed)
list_mentioned_by user_id = list_discoverable_posts (is_found_for user_id)

abbrev pub at_least : ℤ → ℕ → Bool
at_least (pos n) m = leb n m
at_least (negsuc n) m = true

-- The clauses of the filters; an empty filter has none.
abbrev pub passes : PostSearchFilters → Db → Post → Bool
passes f d p =
    (str_eq f.from "" || any (λ u. str_eq u.username f.from && u.id == p.author_id) d.users)
    && (str_eq f.hashtag "" || is_tagged f.hashtag d p)
    && (not f.has_media || any (λ m. m.post_id == p.id) d.post_tables.post_media)
    && at_least f.min_likes p.likes_count
    && elim f.since [ none ↦ true | some t ↦ leb t p.created_at ]
    && elim f.until [ none ↦ true | some t ↦ ltb p.created_at t ]
    && (f.include_replies || elim p.parent_id [ none ↦ true | some _ ↦ false ])

-- Content ILIKE '%' || text || '%' ESCAPE '\'.
module _ (ilike : String → String → Bool) where
  abbrev pub matches : String → PostSearchFilters → Db → Post → Bool
  matches text filters d p =
      not p.soft_deleted && ilike p.content (escape_like text) && passes filters d p

  -- `Search`
  unfoldable pub search_posts : String → PostSearchFilters → ℕ → CursorText → M (Option PostFeed)
  search_posts text filters = list_discoverable_posts (
      matches text
        (record filters { hashtag = lower_text (trim_hash (trim_space filters.hashtag)) }))
