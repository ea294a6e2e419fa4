-- ===== src/Polls/Votes.antt =====
-- What a vote records and who may cast one.
use mathlib.Core.Path.{subst}
use gaggle.Prelude.{
  ℕ, ◌≤◌, ◌≡◌, refl, sym, ◌⊎◌, inl, inr, Bool, true, false, ◌&&◌, List, [], ◌∷◌, ◌++◌, Option, none,
  some, arith, ◌==◌, Option-cases, find, count, any, count-append_one,
}
use gaggle.AppErrors.{AppError, Result, ok, err}
use gaggle.Database.{
  PollRow, PollOptionRow, PollVote, Db, World, database_error, reach, transaction, Ends,
  transaction-Ends, continue,
}
use gaggle.Posts.Audience.{every}
use gaggle.Polls.Store.{
  of_post, has_option_id, cast_by, is_over, vote, vote_poll, get_for_post, Poll,
}

-- The poll is open, the option is one of its, the user had no vote in it, and has this one now.
abbrev pub Recorded : World → PollRow → ℕ → ℕ → Db → Type 0
Recorded w p option_id user_id d =
    (is_over p w.now ≡ false)
    × (any (λ o. o.option_id == option_id && o.poll_id == p.poll_id) w.db.poll_options ≡ true)
    × (any (cast_by p.poll_id user_id) w.db.poll_votes ≡ false)
    × (d ≡ record w.db {
      poll_votes =
          w.db.poll_votes
          ++ record { poll_id = p.poll_id; option_id = option_id; user_id = user_id } ∷ [];
    })

abbrev RecordedIn : World → ℕ → ℕ → Db → Option PollRow → Type 0
RecordedIn w option_id user_id d none = ⊥
RecordedIn w option_id user_id d (some p) = Recorded w p option_id user_id d

-- The poll of the post is there and has recorded the vote.
abbrev pub Votes : World → ℕ → ℕ → ℕ → Db → Type 0
Votes w post_id option_id user_id d =
    RecordedIn w option_id user_id d (find (of_post post_id) w.db.polls)

found_option :
    (id poll_id : ℕ) (o : PollOptionRow) (os : List PollOptionRow)
    → find (has_option_id id) os ≡ some o
    → (o.poll_id == poll_id) ≡ true
    → any (λ p. p.option_id == id && p.poll_id == poll_id) os ≡ true
found_option id poll_id o [] e h = ground arith
found_option id poll_id o (p ∷ os) e h = ground (arith, found_option id poll_id o os)

vote_missing :
    (w : World) (post_id option_id user_id : ℕ)
    → find (of_post post_id) w.db.polls ≡ none
    → Ends w (λ _ d. ⊥) (vote post_id option_id user_id w)
unfolding vote reach
vote_missing w post_id option_id user_id missing = ground (arith, missing)

vote_found :
    (w : World) (post_id option_id user_id : ℕ) (p : PollRow)
    → find (of_post post_id) w.db.polls ≡ some p
    → Ends w (λ _ d. Recorded w p option_id user_id d) (vote post_id option_id user_id w)
unfolding vote reach
vote_found w post_id option_id user_id p found =
    elim (Option-cases (find (has_option_id option_id) w.db.poll_options)) [
      | inl missing ↦ ground (arith, found)
      | inr (o, there) ↦
          ground (arith, found, found_option option_id p.poll_id o w.db.poll_options there)
    ]

vote-Ends :
    (w : World) (post_id option_id user_id : ℕ)
    → Ends w (λ _ d. Votes w post_id option_id user_id d) (vote post_id option_id user_id w)
vote-Ends w post_id option_id user_id = elim (Option-cases (find (of_post post_id) w.db.polls)) [
  | inl missing ↦ rw (Votes, missing) (vote_missing w post_id option_id user_id missing)
  | inr (p, found) ↦ rw (Votes, found) (vote_found w post_id option_id user_id p found)
]

get_for_post_reads :
    (v : World) (post_id viewer : ℕ)
    → ((get_for_post post_id viewer v).1.db ≡ v.db)
      × ((e : AppError) → (get_for_post post_id viewer v).0 ≡ err e → e ≡ database_error)
unfolding get_for_post reach
get_for_post_reads v post_id viewer = (ground arith, λ e h. ground arith)

-- A vote that was answered by an error, and one that was answered by the poll.
abbrev pub Answered : World → ℕ → ℕ → ℕ → Result (Option Poll) × World → Type 0
Answered w post_id option_id user_id (ok poll, v) = Votes w post_id option_id user_id v.db
Answered w post_id option_id user_id (err e, v) =
    (v.db ≡ w.db) ⊎ ((e ≡ database_error) × Votes w post_id option_id user_id v.db)

Answered-read :
    (w v : World) (post_id option_id user_id : ℕ) (r : Result (Option Poll) × World)
    → Votes w post_id option_id user_id v.db
    → r.1.db ≡ v.db
    → ((e : AppError) → r.0 ≡ err e → e ≡ database_error)
    → Answered w post_id option_id user_id r
Answered-read w v post_id option_id user_id (ok poll, x) h p q =
    subst (Votes w post_id option_id user_id) (sym p) h
Answered-read w v post_id option_id user_id (err e, x) h p q =
    inr (q e refl, subst (Votes w post_id option_id user_id) (sym p) h)

Answered-vote :
    (w : World) (post_id option_id user_id : ℕ) (r : Result (Unit {0}) × World)
    → Ends w (λ _ d. Votes w post_id option_id user_id d) r
    → Answered w post_id option_id user_id (continue r.0 (λ _. get_for_post post_id user_id) r.1)
Answered-vote w post_id option_id user_id (ok _, v) h =
    let (p, q) = get_for_post_reads v post_id user_id in
    Answered-read w v post_id option_id user_id (get_for_post post_id user_id v) h p q
Answered-vote w post_id option_id user_id (err e, v) h = inl h

-- Voting in the poll of a post, wherever the database fails. A success has recorded the vote: the
-- poll of the post was open, the option is one of that poll, the user had no vote in it, and the
-- one new row is the only change. An error has changed nothing, unless it is the database failing
-- after the vote was committed, and then the vote is recorded just so.
pub vote_poll-Answered :
    (w : World) (post_id option_id user_id : ℕ)
    → Answered w post_id option_id user_id (vote_poll post_id option_id user_id w)
unfolding vote_poll reach
vote_poll-Answered w post_id option_id user_id =
    Answered-vote w post_id option_id user_id (transaction (vote post_id option_id user_id) w) (
      transaction-Ends (λ _. Votes w post_id option_id user_id) w (vote post_id option_id user_id)
        (vote-Ends (reach w).1 post_id option_id user_id))

-- Each user has one vote in a poll at most, each vote is for an option of its own poll, and an
-- option's id names one option.
abbrev pub has_own_option : Db → PollVote → Bool
has_own_option d v = any (λ o. o.option_id == v.option_id && o.poll_id == v.poll_id) d.poll_options

pub record IsFair (d : Db) : Type 0 where
  pub one_vote : (poll_id user_id : ℕ) → count (cast_by poll_id user_id) d.poll_votes ≤ 1
  pub own_option : every (has_own_option d) d.poll_votes ≡ true
  pub one_option : (id : ℕ) → count (has_option_id id) d.poll_options ≤ 1

every-append_vote :
    (q : PollVote → Bool) (vs : List PollVote) (v : PollVote)
    → every q (vs ++ v ∷ []) ≡ (every q vs && q v)
every-append_vote q [] v = ground arith
every-append_vote q (u ∷ vs) v = ground (arith, every-append_vote q vs v)

count_same_voter :
    (p u poll_id user_id : ℕ) (vs : List PollVote)
    → (p == poll_id && u == user_id) ≡ true
    → any (cast_by p u) vs ≡ false
    → count (cast_by poll_id user_id) vs ≡ 0
count_same_voter p u poll_id user_id [] h n = refl
count_same_voter p u poll_id user_id (v ∷ vs) h n =
    ground (arith, count_same_voter p u poll_id user_id vs)

Recorded-IsFair :
    (w : World) (p : PollRow) (option_id user_id : ℕ) (d : Db)
    → Recorded w p option_id user_id d
    → IsFair w.db
    → IsFair d
Recorded-IsFair w p option_id user_id d (open_still, own, first, e) fair =
    let v : PollVote = record { poll_id = p.poll_id; option_id = option_id; user_id = user_id } in
    rw e (record {
      one_vote = λ q u. ground (
        arith,
        fair.one_vote q u,
        count-append_one (cast_by q u) w.db.poll_votes v,
        count_same_voter p.poll_id user_id q u w.db.poll_votes,
      );
      own_option =
          rw (every-append_vote (has_own_option w.db) w.db.poll_votes v)
            (ground (arith, fair.own_option));
      one_option = fair.one_option;
    })

RecordedIn-IsFair :
    (w : World) (option_id user_id : ℕ) (d : Db) (o : Option PollRow)
    → RecordedIn w option_id user_id d o
    → IsFair w.db
    → IsFair d
RecordedIn-IsFair w option_id user_id d none h fair = elim h [ ]
RecordedIn-IsFair w option_id user_id d (some p) h fair =
    Recorded-IsFair w p option_id user_id d h fair

Answered-IsFair :
    (w : World) (post_id option_id user_id : ℕ) (r : Result (Option Poll) × World)
    → Answered w post_id option_id user_id r
    → IsFair w.db
    → IsFair r.1.db
Answered-IsFair w post_id option_id user_id (ok poll, v) h fair =
    RecordedIn-IsFair w option_id user_id v.db (find (of_post post_id) w.db.polls) h fair
Answered-IsFair w post_id option_id user_id (err e, v) (inl same) fair =
    subst IsFair (sym same) fair
Answered-IsFair w post_id option_id user_id (err e, v) (inr (q, h)) fair =
    RecordedIn-IsFair w option_id user_id v.db (find (of_post post_id) w.db.polls) h fair

-- Voting keeps the polls fair, wherever the database fails: each user has one vote in a poll at
-- most, each vote is for an option of its own poll, and an option's id names one option.
pub vote_poll-IsFair :
    (w : World) (post_id option_id user_id : ℕ)
    → IsFair w.db
    → IsFair (vote_poll post_id option_id user_id w).1.db
vote_poll-IsFair w post_id option_id user_id fair =
    Answered-IsFair w post_id option_id user_id (vote_poll post_id option_id user_id w)
      (vote_poll-Answered w post_id option_id user_id) fair
