-- ===== src/Polls/Store.antt =====
-- server/internal/store/poll_store.go, with the constraints of migration 000012, and VotePoll.
use Prim.Native.String.{count as rune_count}
use gaggle.Prelude.{
  ℕ, ◌+◌, Bool, false, not, ◌&&◌, ◌||◌, String, List, [], ◌∷◌, ◌++◌, Option, none, some, ◌==◌, ltb,
  leb, if◌then◌else◌, find, select, count, any, map,
}
use gaggle.AppErrors.{
  Result, ok, err, no_cause, other_cause, not_found_error, bad_request_error, already_exists_error,
}
use gaggle.Database.{
  PollRow, PollOptionRow, PollVote, Db, M, database_error, reach, query, next_serial, transaction,
  pure, raise, raise_if, ◌>>=◌, ◌>>◌,
}
use gaggle.Accounts.{row_or}
use gaggle.Posts.{CreatePollPayload, trim_space, in_range}

abbrev pub of_post : ℕ → PollRow → Bool
of_post post_id p = p.post_id == post_id

abbrev pub of_poll : ℕ → PollOptionRow → Bool
of_poll poll_id o = o.poll_id == poll_id

abbrev pub has_option_id : ℕ → PollOptionRow → Bool
has_option_id option_id o = o.option_id == option_id

abbrev pub cast_by : ℕ → ℕ → PollVote → Bool
cast_by poll_id user_id v = v.poll_id == poll_id && v.user_id == user_id

-- INSERT INTO polls: the width of the question, one poll for a post, and the post's key.
abbrev insert_poll : PollRow → M (Unit {0})
insert_poll p w =
    if ltb 140 (rune_count p.question)
      || any (of_post p.post_id) w.db.polls
      || not (any (λ q. q.id == p.post_id) w.db.posts)
    then (err database_error, w)
    else (ok tt, record w { db = record w.db { polls = w.db.polls ++ p ∷ [] } })

-- INSERT INTO poll_options: the width of the label, the CHECK on the position, its UNIQUE key with
-- the poll, and the poll's key.
abbrev pub insert_option : PollOptionRow → M (Unit {0})
insert_option o w =
    if ltb 100 (rune_count o.label)
      || not (in_range 1 o.position 4)
      || any (λ p. p.poll_id == o.poll_id && p.position == o.position) w.db.poll_options
      || not (any (λ p. p.poll_id == o.poll_id) w.db.polls)
    then (err database_error, w)
    else (ok tt, record w { db = record w.db { poll_options = w.db.poll_options ++ o ∷ [] } })

unfoldable pub create_option : ℕ → String → ℕ → M (Unit {0})
create_option poll_id option position = do
  reach
  id ← next_serial
  insert_option
      (record { option_id = id; poll_id = poll_id; label = trim_space option; position = position })

-- `for index, option := range payload.Options`, from the given index on.
unfoldable pub create_options : ℕ → ℕ → List String → M (Unit {0})
create_options poll_id index [] = pure tt
create_options poll_id index (option ∷ options) = do
  create_option poll_id option (index + 1)
  create_options poll_id (index + 1) options

unfoldable pub create_row : ℕ → CreatePollPayload → M ℕ
create_row post_id payload = do
  reach
  id ← next_serial
  insert_poll (record {
    poll_id = id;
    post_id = post_id;
    question = payload.question;
    ends_at = payload.ends_at;
  })
  pure id

-- `Create`
unfoldable pub create : ℕ → CreatePollPayload → M (Unit {0})
create post_id payload = do
  poll_id ← create_row post_id payload
  create_options poll_id 0 payload.options

-- `endsAt != nil && time.Now().After(*endsAt)`
abbrev pub is_over : PollRow → ℕ → Bool
is_over p now = elim p.ends_at [ none ↦ false | some at ↦ ltb at now ]

-- `err != nil || optionPollID != pollID`: any error of the lookup is a wrong option, too.
abbrev require_option : ℕ → Result (Option PollOptionRow) → M (Unit {0})
require_option poll_id (err e) = raise (bad_request_error "invalid poll option" other_cause)
require_option poll_id (ok none) = raise (bad_request_error "invalid poll option" other_cause)
require_option poll_id (ok (some o)) =
    raise_if (not (of_poll poll_id o)) (bad_request_error "invalid poll option" no_cause)

abbrev check_option : ℕ → ℕ → M (Unit {0})
check_option poll_id option_id w =
    let (r, w') = query (λ d. find (has_option_id option_id) d.poll_options) w in
    require_option poll_id r w'

-- INSERT INTO poll_votes: the foreign keys, and the PRIMARY KEY (poll_id, user_id), code 23505.
abbrev insert_vote : PollVote → M (Unit {0})
insert_vote v w =
    if any (cast_by v.poll_id v.user_id) w.db.poll_votes
    then (err (already_exists_error "user has already voted in this poll" other_cause), w)
    else if not (any (λ u. u.id == v.user_id) w.db.users)
    then (err database_error, w)
    else (ok tt, record w { db = record w.db { poll_votes = w.db.poll_votes ++ v ∷ [] } })

-- `Vote`
unfoldable pub vote : ℕ → ℕ → ℕ → M (Unit {0})
vote post_id option_id user_id = do
  row ← query (λ d. find (of_post post_id) d.polls)
  poll ← row_or row (not_found_error "poll not found" other_cause)
  λ w. raise_if (is_over poll w.now) (bad_request_error "poll has ended" no_cause) w
  check_option poll.poll_id option_id
  reach
  insert_vote (record { poll_id = poll.poll_id; option_id = option_id; user_id = user_id })

pub record PollOption : Type 0 where
  pub id : ℕ
  pub label : String
  pub position : ℕ
  pub vote_count : ℕ

pub record Poll : Type 0 where
  pub id : ℕ
  pub question : String
  pub ends_at : Option ℕ
  pub options : List PollOption
  pub total_votes : ℕ
  pub selected_option_id : Option ℕ
  pub closed : Bool

-- COUNT(v.user_id) of the join on option_id.
abbrev pub counted : List PollVote → PollOptionRow → PollOption
counted votes o = record {
  id = o.option_id;
  label = o.label;
  position = o.position;
  vote_count = count (λ v. v.option_id == o.option_id) votes;
}

-- ORDER BY o.position
abbrev pub insert_by_position : PollOptionRow → List PollOptionRow → List PollOptionRow
insert_by_position o [] = o ∷ []
insert_by_position o (p ∷ ps) =
    let rest = insert_by_position o ps in if leb o.position p.position then o ∷ p ∷ ps else p ∷ rest

abbrev pub by_position : List PollOptionRow → List PollOptionRow
by_position [] = []
by_position (o ∷ os) = insert_by_position o (by_position os)

-- `poll.TotalVotes += option.VoteCount`
abbrev pub total : List PollOption → ℕ
total [] = 0
total (o ∷ os) = o.vote_count + total os

abbrev pub options_of : Db → ℕ → List PollOption
options_of d poll_id =
    map (counted d.poll_votes) (by_position (select (of_poll poll_id) d.poll_options))

-- `_ = … .Scan(&poll.SelectedOptionID)`: an error leaves nil.
abbrev selected : ℕ → ℕ → M (Option ℕ)
selected poll_id viewer w =
    let (r, w') = query (λ d. find (cast_by poll_id viewer) d.poll_votes) w in
    (ok (elim r [ ok none ↦ none | ok (some v) ↦ some v.option_id | err e ↦ none ]), w')

abbrev get_found : Option PollRow → ℕ → M (Option Poll)
get_found none viewer = pure none
get_found (some p) viewer = do
  options ← query (λ d. options_of d p.poll_id)
  selected_option_id ← selected p.poll_id viewer
  λ w.
      pure
        (some (record {
          id = p.poll_id;
          question = p.question;
          ends_at = p.ends_at;
          options = options;
          total_votes = total options;
          selected_option_id = selected_option_id;
          closed = is_over p w.now;
        }))
        w

-- `GetForPost`
unfoldable pub get_for_post : ℕ → ℕ → M (Option Poll)
get_for_post post_id viewer = do
  row ← query (λ d. find (of_post post_id) d.polls)
  get_found row viewer

-- `VotePoll` of the post service.
unfoldable pub vote_poll : ℕ → ℕ → ℕ → M (Option Poll)
vote_poll post_id option_id user_id = do
  transaction (vote post_id option_id user_id)
  get_for_post post_id user_id
