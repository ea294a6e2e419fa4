-- ===== src/Polls/Tally.antt =====
-- The counts of a poll's options and the votes of the poll.
use gaggle.Prelude.{
  ℕ, ◌+◌, ◌≤◌, ◌≡◌, refl, ◌∙◌, true, false, ◌&&◌, List, [], ◌∷◌, Option, none, some, arith, ◌==◌,
  if◌then◌else◌, select, count, any, map, find, inl, inr, Option-cases,
}
use gaggle.Database.{PollOptionRow, PollVote, Db, World, reach, Ends}
use gaggle.Posts.Audience.{every}
use gaggle.Polls.Store.{
  of_post, of_poll, has_option_id, Poll, counted, insert_by_position, by_position, total,
  options_of, get_for_post,
}
use gaggle.Polls.Votes.{IsFair}

total-insert :
    (vs : List PollVote) (o : PollOptionRow) (os : List PollOptionRow)
    → total (map (counted vs) (insert_by_position o os)) ≡ total (map (counted vs) (o ∷ os))
total-insert vs o [] = refl
total-insert vs o (p ∷ os) = ground (arith, total-insert vs o os)

total-by_position :
    (vs : List PollVote) (os : List PollOptionRow)
    → total (map (counted vs) (by_position os)) ≡ total (map (counted vs) os)
total-by_position vs [] = refl
total-by_position vs (o ∷ os) =
    total-insert vs o (by_position os) ∙ omega (arith, total-by_position vs os)

total_empty : (os : List PollOptionRow) → total (map (counted []) os) ≡ 0
total_empty [] = refl
total_empty (o ∷ os) = omega (arith, total_empty os)

-- One vote more is one more for each of the options that its id names.
total_one_more :
    (v : PollVote) (vs : List PollVote) (os : List PollOptionRow)
    → total (map (counted (v ∷ vs)) os)
      ≡ count (has_option_id v.option_id) os + total (map (counted vs) os)
total_one_more v vs [] = refl
total_one_more v vs (o ∷ os) = ground (arith, total_one_more v vs os)

none_elsewhere :
    (id poll_id own : ℕ) (os : List PollOptionRow)
    → count (has_option_id id) os ≡ 0
    → (count (has_option_id id) (select (of_poll poll_id) os) ≡ 0)
      × (any (λ o. o.option_id == id && o.poll_id == own) os ≡ false)
none_elsewhere id poll_id own [] h = (refl, refl)
none_elsewhere id poll_id own (o ∷ os) h =
    let (p, q) = none_elsewhere id poll_id own os (ground arith) in
    (ground (arith, p), ground (arith, q))

counts_once :
    (id poll_id own : ℕ) (os : List PollOptionRow)
    → count (has_option_id id) os ≤ 1
    → any (λ o. o.option_id == id && o.poll_id == own) os ≡ true
    → count (has_option_id id) (select (of_poll poll_id) os) ≡ (if own == poll_id then 1 else 0)
counts_once id poll_id own [] h e = ground arith
counts_once id poll_id own (o ∷ os) h e =
    ground (arith, none_elsewhere id poll_id own os, counts_once id poll_id own os)

total_votes :
    (poll_id : ℕ) (os : List PollOptionRow) (vs : List PollVote)
    → ((id : ℕ) → count (has_option_id id) os ≤ 1)
    → every (λ v. any (λ o. o.option_id == v.option_id && o.poll_id == v.poll_id) os) vs ≡ true
    → total (map (counted vs) (select (of_poll poll_id) os)) ≡ count (λ v. v.poll_id == poll_id) vs
total_votes poll_id os [] once own = total_empty (select (of_poll poll_id) os)
total_votes poll_id os (v ∷ vs) once own = ground (
  arith,
  total_one_more v vs (select (of_poll poll_id) os),
  counts_once v.option_id poll_id v.poll_id os (once v.option_id),
  total_votes poll_id os vs once,
)

options_AddUp :
    (d : Db) (poll_id : ℕ)
    → IsFair d
    → total (options_of d poll_id) ≡ count (λ v. v.poll_id == poll_id) d.poll_votes
options_AddUp d poll_id fair =
    total-by_position d.poll_votes (select (of_poll poll_id) d.poll_options)
    ∙ total_votes poll_id d.poll_options d.poll_votes fair.one_option fair.own_option

abbrev pub AddsUp : Db → Option Poll → Type 0
AddsUp d none = Unit
AddsUp d (some p) = p.total_votes ≡ count (λ v. v.poll_id == p.id) d.poll_votes

-- Let each user have one vote in a poll at most, each vote be for an option of its own poll, and
-- an option's id name one option. Then the total that GetForPost returns, the sum of its options'
-- counts, is the number of votes that were cast in the poll.
pub get_for_post-AddsUp :
    (w : World) (post_id viewer : ℕ)
    → IsFair w.db
    → Ends w (λ poll d. AddsUp w.db poll) (get_for_post post_id viewer w)
unfolding get_for_post reach
get_for_post-AddsUp w post_id viewer fair =
    elim (Option-cases (find (of_post post_id) w.db.polls)) [
      | inl missing ↦ ground (arith, missing)
      | inr (p, found) ↦ ground (arith, found, options_AddUp w.db p.poll_id fair)
    ]
