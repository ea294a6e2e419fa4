-- ===== src/Database/Exec.antt =====
-- Rows, tables, and statements that may fail.
use gaggle.Prelude.{ℕ, suc, Bool, false, String, List, [], ◌∷◌, Option, if◌then◌else◌}
use gaggle.AppErrors.{AppError, Result, ok, err, internal_server_error, other_cause}
use gaggle.Realtime.{Hub}

pub record User : Type 0 where
  pub id : ℕ
  pub username : String
  pub email : String
  pub password : String
  pub is_admin : Bool
  pub is_private : Bool
  pub soft_deleted : Bool

pub record UserRelationship : Type 0 where
  pub relationship_id : ℕ
  pub follower_id : ℕ
  pub following_id : ℕ
  pub relationship_type : String

pub record RefreshToken : Type 0 where
  pub refresh_token_id : ℕ
  pub session_id : ℕ
  pub user_id : ℕ
  pub token_hash : String
  pub issued_at : ℕ
  pub expires_at : ℕ
  pub revoked : Bool
  pub revoked_at : Option ℕ
  pub revoked_reason : Option String
  pub user_agent : String
  pub ip_address : String

pub record Conversation : Type 0 where
  pub id : ℕ
  pub participant_a : ℕ
  pub participant_b : ℕ
  pub last_message_at : ℕ

pub record Message : Type 0 where
  pub id : ℕ
  pub conversation_id : ℕ
  pub sender_id : ℕ
  pub body : String
  pub read_at : Option ℕ
  pub created_at : ℕ

pub record PollRow : Type 0 where
  pub poll_id : ℕ
  pub post_id : ℕ
  pub question : String
  pub ends_at : Option ℕ

pub record PollOptionRow : Type 0 where
  pub option_id : ℕ
  pub poll_id : ℕ
  pub label : String
  pub position : ℕ

pub record PollVote : Type 0 where
  pub poll_id : ℕ
  pub option_id : ℕ
  pub user_id : ℕ

pub record ListRow : Type 0 where
  pub id : ℕ
  pub owner_id : ℕ
  pub name : String
  pub description : String

pub record ListMember : Type 0 where
  pub list_id : ℕ
  pub user_id : ℕ

-- The counts are columns that the triggers of migrations 000007 and 000008 keep.
pub record Post : Type 0 where
  pub id : ℕ
  pub author_id : ℕ
  pub parent_id : Option ℕ
  pub quoted_post_id : Option ℕ
  pub content : String
  pub soft_deleted : Bool
  pub is_pinned : Bool
  pub visibility : String
  pub mentioned_user_ids : List ℕ
  pub created_at : ℕ
  pub edited_at : Option ℕ
  pub likes_count : ℕ
  pub reposts_count : ℕ
  pub quotes_count : ℕ
  pub bookmarks_count : ℕ
  pub views_count : ℕ
  pub replies_count : ℕ

pub record PostEdit : Type 0 where
  pub edit_id : ℕ
  pub post_id : ℕ
  pub content_before : String
  pub edited_at : ℕ

pub record HashtagRow : Type 0 where
  pub hashtag_id : ℕ
  pub name : String

pub record PostHashtag : Type 0 where
  pub post_id : ℕ
  pub hashtag_id : ℕ

pub record PostMention : Type 0 where
  pub post_id : ℕ
  pub user_id : ℕ

-- A row of post_likes, and one of post_reposts.
pub record Engagement : Type 0 where
  pub id : ℕ
  pub post_id : ℕ
  pub user_id : ℕ
  pub created_at : ℕ

pub record BookmarkCategory : Type 0 where
  pub category_id : ℕ
  pub user_id : ℕ
  pub category_name : String
  pub color : String
  pub created_at : ℕ

pub record PostBookmark : Type 0 where
  pub bookmark_id : ℕ
  pub post_id : ℕ
  pub user_id : ℕ
  pub category_id : Option ℕ
  pub created_at : ℕ

pub record PostView : Type 0 where
  pub view_id : ℕ
  pub post_id : ℕ
  pub user_id : Option ℕ

-- A row of post_media; the media themselves are known by their ids.
pub record PostMedia : Type 0 where
  pub post_id : ℕ
  pub media_uuid : String
  pub position : ℕ
  pub alt_text : String

pub record NewsRow : Type 0 where
  pub post_id : ℕ
  pub url : String
  pub title : String
  pub image_url : String
  pub site_name : String

-- A row of notifications, and the one switch of user_settings that the services read.
pub record NotificationRow : Type 0 where
  pub id : ℕ
  pub recipient_id : ℕ
  pub actor_id : ℕ
  pub notification_type : String
  pub post_id : Option ℕ
  pub read_at : Option ℕ
  pub created_at : ℕ

pub record SettingsRow : Type 0 where
  pub user_id : ℕ
  pub notify_mentions : Bool

-- What hangs on posts, and what readers do with posts.
pub record PostTables : Type 0 where
  pub post_edits : List PostEdit
  pub hashtags : List HashtagRow
  pub post_hashtags : List PostHashtag
  pub post_mentions : List PostMention
  pub media : List String
  pub post_media : List PostMedia
  pub post_news : List NewsRow

pub record EngagementTables : Type 0 where
  pub post_likes : List Engagement
  pub post_reposts : List Engagement
  pub bookmark_categories : List BookmarkCategory
  pub post_bookmarks : List PostBookmark
  pub post_views : List PostView

pub record Db : Type 0 where
  pub users : List User
  pub posts : List Post
  pub relationships : List UserRelationship
  pub refresh_tokens : List RefreshToken
  pub conversations : List Conversation
  pub messages : List Message
  pub polls : List PollRow
  pub poll_options : List PollOptionRow
  pub poll_votes : List PollVote
  pub lists : List ListRow
  pub list_members : List ListMember
  pub notifications : List NotificationRow
  pub settings : List SettingsRow
  pub post_tables : PostTables
  pub engagements : EngagementTables

pub record World : Type 0 where
  pub db : Db
  pub hub : Hub
  pub sequence : ℕ
  pub next_uuid : ℕ
  pub now : ℕ
  pub faults : List Bool

abbrev pub empty_db : Db
empty_db = record {
  users = [];
  posts = [];
  relationships = [];
  refresh_tokens = [];
  conversations = [];
  messages = [];
  polls = [];
  poll_options = [];
  poll_votes = [];
  lists = [];
  list_members = [];
  notifications = [];
  settings = [];
  post_tables = record {
    post_edits = [];
    hashtags = [];
    post_hashtags = [];
    post_mentions = [];
    media = [];
    post_media = [];
    post_news = [];
  };
  engagements = record {
    post_likes = [];
    post_reposts = [];
    bookmark_categories = [];
    post_bookmarks = [];
    post_views = [];
  };
}

abbrev pub M : Type 0 → Type 0
M A = World → Result A × World

abbrev pub pure : {A : Type 0} → A → M A
pure a w = (ok a, w)

abbrev pub raise : {A : Type 0} → AppError → M A
raise e w = (err e, w)

abbrev pub continue : {A B : Type 0} → Result A → (A → M B) → M B
continue (ok a) f w = f a w
continue (err e) f w = (err e, w)

infixl 5 ◌>>=◌ ◌>>◌
abbrev pub ◌>>=◌ : {A B : Type 0} → M A → (A → M B) → M B
◌>>=◌ m f w = let (r, w') = m w in continue r f w'

abbrev pub ◌>>◌ : {A B : Type 0} → M A → M B → M B
m >> k = m >>= λ _. k

-- `if err != nil { return … }` on a test of the service's own.
abbrev pub raise_if : Bool → AppError → M (Unit {0})
raise_if b e w = (if b then err e else ok tt, w)

abbrev pub database_error : AppError
database_error = internal_server_error other_cause

abbrev take_fault : List Bool → Bool × List Bool
take_fault [] = (false, [])
take_fault (b ∷ bs) = (b, bs)

-- One round trip to the database that may fail, before it has an effect.
unfoldable pub reach : M (Unit {0})
reach w =
    let (fails, rest) = take_fault w.faults in
    (if fails then err database_error else ok tt, record w { faults = rest })

-- A SELECT.
abbrev pub query : {A : Type 0} → (Db → A) → M A
query f = do reach; λ w. (ok (f w.db), w)

-- A statement that changes the tables and returns a value.
abbrev pub statement : {A : Type 0} → (World → A × Db) → M A
statement f = do reach; λ w. let (a, d) = f w in (ok a, record w { db = d })

-- An INSERT that draws a number for its SERIAL column.
abbrev pub next_serial : M ℕ
next_serial w = (ok w.sequence, record w { sequence = suc w.sequence })

abbrev pub finish : {A : Type 0} → Db → Result A → M A
finish before (ok a) w =
    let (r, w') = reach w in
    elim r [ ok _ ↦ (ok a, w') | err e ↦ (err e, record w' { db = before }) ]
finish before (err e) w = (err e, record w { db = before })

-- BeginTx, `defer tx.Rollback()`, the body and Commit: the tables keep what the body wrote only if
-- the body returned and COMMIT succeeded.
unfoldable pub transaction : {A : Type 0} → M A → M A
transaction m = do reach; λ w. let (r, w') = m w in finish w.db r w'
