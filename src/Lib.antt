-- ===== src/Lib.antt =====
-- gaggle, the server of a social network (server/ of the repository, in Go over PostgreSQL).
--
-- The server answers HTTP requests in handlers, which call services (server/internal/service), which
-- call stores (server/internal/store), which send SQL. Events for open streams go through the
-- realtime hub. Here the services and stores are functions on a `World`: the tables, the hub, the
-- next SERIAL and uuid, the clock, and what the database will do.
--
--   * Prelude: numbers, texts, lists as tables.
--   * AppErrors: server/internal/apperrors/errors.go.
--   * Database: the rows, the `World`, and the statements. Each round trip first takes one entry of
--     `faults`: an entry `true` is a database that fails there, so a theorem about every `World` is
--     about every place where the database may fail. A transaction restores the tables unless its
--     body returns and COMMIT succeeds. A constraint of the migrations that can refuse a statement
--     is a test in that statement.
--   * Realtime: server/internal/realtime/hub.go, the bounded channel of each stream.
--   * Accounts: lookups of server/internal/store/user_store.go.
--   * Relationships: follows, blocks and mutes, server/internal/store/user_relationship_store.go and
--     server/internal/service/user_relationship_service.go.
--   * Sessions: server/internal/auth/jwt.go and crypto.go, server/internal/store/auth_store.go, and
--     login, refresh, logout and the stream check of server/internal/service/auth_service.go.
--   * Posts: of server/internal/service/post_service.go, filterVisiblePosts and CanViewPost in
--     Visibility, and resolveVisibilityAndMentions, validateContentLength and validatePoll in
--     Validation. A nil dereference is an answer of its own there. Names says whom a text names by
--     splitting the text, apart from the scanner in Validation.
--   * Polls: server/internal/store/poll_store.go and VotePoll.
--   * Messages: server/internal/store/dm_store.go and server/internal/service/dm_service.go.
--   * Lists: server/internal/store/list_store.go and server/internal/service/list_service.go.
--   * Notifications: server/internal/store/notification_store.go and
--     server/internal/service/notification_service.go.
--   * Pages: server/internal/util/pagination.go. Order has the lemmas on sorted rows.
--   * Feeds: the feeds of server/internal/store/post_store.go in Store, and their readers in
--     server/internal/service/post_service.go and list_service.go in Service. Following the cursors
--     is recursion on fuel, and as many pages as there are rows, and one, are enough. The loaders of
--     what hangs on the posts of a page are one statement, which may fail.
--   * Search: Search, ListByHashtag and ListMentionedBy of server/internal/store/post_store.go in Store,
--     server/internal/service/search_service.go in Service. The database's ILIKE is a parameter.
--   * Publishing: creating, quoting, editing, deleting and pinning posts. Tags is
--     server/internal/postutil, Store the rows of posts, Indexes the hashtags, mentions, media and
--     news of a post, Service the operations of server/internal/service/post_service.go. Names says whom a text
--     names, and Rows what a new row is, apart from the code. The triggers on posts are part of the
--     statements that fire them. uuid.Parse is a parameter.
--   * Engagement: server/internal/store/post_engagement_store.go and
--     server/internal/service/post_engagement_service.go, with the triggers on the counts.
--   * Middleware: server/internal/middleware, the gates on tokens, admins, the mail secret and the
--     post of a route, and the rate limiter with server/internal/cache/cache.go, where Redis is a
--     parameter.
--
-- The one loop on a count is the three rounds of rotateCurrentActiveToken, which is recursion on
-- that count; every other loop is recursion on a list or on fuel.
--
-- A serial, a uuid and a point in time is a number: serials and uuids are drawn from counters and so
-- are fresh, and a clock reading is constant within one call. Requests run one after the other:
-- statements of two requests do not interleave. A formatted message stands as its format. Text is
-- ASCII where the code reads white space and case and where it cuts a user agent; `len` counts bytes
-- and `rune_count` counts runes, as in the code. Parameters are golang-jwt, the hashes,
-- PostgreSQL's reading of an INET and its LOWER.
--
-- Not modelled: the HTTP handlers and the router (decoding and encoding), the search of users and the
-- trends, the chain of a reply's parents, files of media, badges, mail, metrics, the seed generator,
-- link previews, and the web client.
mod Prelude
pub mod AppErrors
pub mod Realtime
pub mod Database
pub mod Accounts
pub mod Relationships
pub mod Posts
pub mod Pages
pub mod Messages
pub mod Lists
pub mod Feeds
pub mod Notifications
pub mod Polls
pub mod Publishing
pub mod Engagement
pub mod Sessions
pub mod Search
pub mod Middleware
