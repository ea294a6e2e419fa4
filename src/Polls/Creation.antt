-- ===== src/Polls/Creation.antt =====
-- Creating the poll of a post from a validated payload.
use Prim.Native.String.{count as rune_count}
use gaggle.Prelude.{
  ℕ, ◌+◌, ◌≤◌, ◌<◌, ◌≡◌, refl, true, false, ◌&&◌, String, List, [], ◌∷◌, arith, ◌==◌, any,
  any-append_one, length, leb,
}
use gaggle.AppErrors.{ok}
use gaggle.Database.{PollRow, PollOptionRow, World, reach}
use gaggle.Posts.{CreatePollPayload, validate_poll, trim_space}
use gaggle.Posts.Audience.{every}
use gaggle.Posts.PollRules.{is_label, is_acceptable, validate_poll-is_acceptable}
use gaggle.Polls.Store.{of_post, of_poll, create, create_row, create_option, create_options}

-- What the tables hold before the options from `index` on are inserted: the poll, and no option of
-- it at a place from there on.
abbrev Ready : ℕ → ℕ → World → Type 0
Ready poll_id index w =
    (w.faults ≡ [])
    × (any (λ p. p.poll_id == poll_id) w.db.polls ≡ true)
    × ((k : ℕ)
        → index < k
        → any (λ o. o.poll_id == poll_id && o.position == k) w.db.poll_options ≡ false)

option_lem :
    (poll_id index : ℕ) (option : String) (w : World)
    → Ready poll_id index w
    → is_label option ≡ true
    → index + 1 ≤ 4
    → ((create_option poll_id option (index + 1) w).0 ≡ ok tt)
      × Ready poll_id (index + 1) (create_option poll_id option (index + 1) w).1
unfolding create_option reach
option_lem poll_id index option w (works, there, free) label room =
    let o : PollOptionRow = record {
      option_id = w.sequence;
      poll_id = poll_id;
      label = trim_space option;
      position = index + 1;
    } in
    (
      ground (arith, works, free (index + 1) (omega arith)),
      (
        ground (arith, works),
        ground (arith, works),
        λ k m. ground (
          arith,
          works,
          free k (omega arith),
          any-append_one (λ q. q.poll_id == poll_id && q.position == k) w.db.poll_options o,
        ),
      ),
    )

options_lem :
    (poll_id index : ℕ) (options : List String) (w : World)
    → Ready poll_id index w
    → every is_label options ≡ true
    → index + length options ≤ 4
    → (create_options poll_id index options w).0 ≡ ok tt
unfolding create_options
options_lem poll_id index [] w ready labels room = refl
options_lem poll_id index (option ∷ options) w ready labels room =
    let (done, next) = option_lem poll_id index option w ready (ground arith) (omega arith) in
    rw done (
      options_lem poll_id (index + 1) options (create_option poll_id option (index + 1) w).1 next
        (ground arith) (omega arith))

no_option :
    (poll_id k : ℕ) (os : List PollOptionRow)
    → any (of_poll poll_id) os ≡ false
    → any (λ o. o.poll_id == poll_id && o.position == k) os ≡ false
no_option poll_id k [] h = refl
no_option poll_id k (o ∷ os) h = ground (arith, no_option poll_id k os)

row_lem :
    (post_id : ℕ) (payload : CreatePollPayload) (w : World)
    → leb (rune_count payload.question) 140 ≡ true
    → w.faults ≡ []
    → any (λ q. q.id == post_id) w.db.posts ≡ true
    → any (of_post post_id) w.db.polls ≡ false
    → any (of_poll w.sequence) w.db.poll_options ≡ false
    → ((create_row post_id payload w).0 ≡ ok w.sequence)
      × Ready w.sequence 0 (create_row post_id payload w).1
unfolding create_row reach
row_lem post_id payload w short works there new fresh =
    let p : PollRow = record {
      poll_id = w.sequence;
      post_id = post_id;
      question = payload.question;
      ends_at = payload.ends_at;
    } in
    (
      ground arith,
      (
        ground arith,
        ground (arith, any-append_one (λ q. q.poll_id == w.sequence) w.db.polls p),
        λ k m. ground (arith, no_option w.sequence k w.db.poll_options),
      ),
    )

-- A payload that validatePoll accepts passes every constraint of the tables: where the database
-- works, the post is there and has no poll yet, and no option stands under the serial that the poll
-- draws, Create succeeds.
pub create-validate_poll :
    (post_id : ℕ) (payload : CreatePollPayload) (w : World)
    → validate_poll payload ≡ ok tt
    → w.faults ≡ []
    → any (λ q. q.id == post_id) w.db.posts ≡ true
    → any (of_post post_id) w.db.polls ≡ false
    → any (of_poll w.sequence) w.db.poll_options ≡ false
    → (create post_id payload w).0 ≡ ok tt
unfolding create
create-validate_poll post_id payload w valid works there new fresh =
    let good : is_acceptable payload ≡ true = (validate_poll-is_acceptable payload).0 valid in
    let (done, ready) = row_lem post_id payload w (ground (arith, good)) works there new fresh in
    rw done (
      options_lem w.sequence 0 payload.options (create_row post_id payload w).1 ready
        (ground (arith, good)) (ground (arith, good)))
