-- ===== src/Polls/Examples.antt =====
-- Runs of the polls.
use gaggle.Prelude.{ℕ, refl, true, false, [], ◌∷◌, none, some, arith}
use gaggle.Database.{User, Post, World, empty_db, Ends}
use gaggle.Realtime.{new_hub}
use gaggle.Posts.{CreatePollPayload}
use gaggle.Polls.Store.{vote_poll, get_for_post}
use gaggle.Polls.Votes.{Answered, IsFair, vote_poll-Answered, vote_poll-IsFair}
use gaggle.Polls.Tally.{AddsUp, get_for_post-AddsUp}

abbrev voter : ℕ → User
voter n = record {
  id = n;
  username = "voter";
  email = "voter@example.org";
  password = "secret";
  is_admin = false;
  is_private = false;
  soft_deleted = false;
}

abbrev asked : ℕ → Post
asked id = record {
  id = id;
  author_id = 1;
  parent_id = none;
  quoted_post_id = none;
  content = "Which way?";
  soft_deleted = false;
  is_pinned = false;
  visibility = "public";
  mentioned_user_ids = [];
  created_at = 0;
  edited_at = none;
  likes_count = 0;
  reposts_count = 0;
  quotes_count = 0;
  bookmarks_count = 0;
  views_count = 0;
  replies_count = 0;
}

-- Post 8 has a poll with two options and one vote; the database will fail after three statements.
abbrev hall : World
hall = record {
  db = record empty_db {
    users = voter 1 ∷ voter 2 ∷ [];
    posts = asked 8 ∷ asked 9 ∷ [];
    polls = record { poll_id = 3; post_id = 8; question = "Which way?"; ends_at = some 200 } ∷ [];
    poll_options =
        record { option_id = 4; poll_id = 3; label = "north"; position = 1 }
        ∷ record { option_id = 5; poll_id = 3; label = "south"; position = 2 }
        ∷ [];
    poll_votes = record { poll_id = 3; option_id = 4; user_id = 1 } ∷ [];
  };
  hub = new_hub;
  sequence = 20;
  next_uuid = 0;
  now = 100;
  faults = false ∷ false ∷ false ∷ true ∷ [];
}

abbrev quiet_hall : World
quiet_hall = record hall { faults = [] }

hall-IsFair : IsFair hall.db
hall-IsFair = record {
  one_vote = λ p u. ground arith;
  own_option = refl;
  one_option = λ id. ground arith;
}

vote_poll-Answered_example : Answered hall 8 5 2 (vote_poll 8 5 2 hall)
vote_poll-Answered_example = vote_poll-Answered hall 8 5 2

vote_poll-IsFair_example : IsFair (vote_poll 8 5 2 quiet_hall).1.db
vote_poll-IsFair_example = vote_poll-IsFair quiet_hall 8 5 2 (record {
  one_vote = hall-IsFair.one_vote;
  own_option = hall-IsFair.own_option;
  one_option = hall-IsFair.one_option;
})

get_for_post-AddsUp_example : Ends hall (λ poll d. AddsUp hall.db poll) (get_for_post 8 2 hall)
get_for_post-AddsUp_example = get_for_post-AddsUp hall 8 2 hall-IsFair

abbrev ballot : CreatePollPayload
ballot = record { question = "Which way?"; options = "north" ∷ " south " ∷ []; ends_at = none }
