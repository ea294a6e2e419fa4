-- ===== src/Messages/Delivery.antt =====
-- What sending a message writes, from the checks to the events.
use gaggle.Prelude.{
  ℕ, ◌≡◌, refl, ◌∙◌, ap, ◌⊎◌, inl, inr, true, ◌||◌, String, List, [], ◌∷◌, ◌++◌, none, some, arith,
  ltb, str_eq, find,
}
use Prim.Native.String.{len}
use gaggle.AppErrors.{Result, ok, err, no_cause, not_found_error, bad_request_error}
use gaggle.Database.{User, Conversation, Message, Db, World, raise_if, M, reach, continue, ◌>>=◌}
use gaggle.Accounts.{get_by_username}
use gaggle.Posts.{trim_space}
use gaggle.Relationships.{get_by_ids}
use gaggle.Messages.Store.{min_int, max_int, new_message, get_or_create_conversation, add_message}
use gaggle.Messages.Service.{check_block, send_to, send, announce, write_to}
use gaggle.Messages.Sending.{
  Opened, get_or_create-Opened, Wrote, has_conversation, Touches, add_message-Touches,
  add_message_conversation, announce_lem,
}

-- A message of the sender's with this body is the last row.
abbrev pub WroteFor : World → ℕ → String → Message → Db → Type 0
WroteFor w sender body m d =
    (m.sender_id ≡ sender) × (m.body ≡ body) × (m.read_at ≡ none) × Wrote w m d

-- A send that was answered by the message, and one that was answered by an error.
abbrev pub Sent : World → ℕ → ℕ → String → Result Message × World → Type 0
Sent w sender recipient body (ok m, v) =
    WroteFor w sender body m v.db
    × (has_conversation v.db m.conversation_id (min_int sender recipient) (max_int sender recipient)
        ≡ true)
Sent w sender recipient body (err e, v) =
    (v.db ≡ record w.db { conversations = v.db.conversations })
    ⊎ ((m : Message) × WroteFor w sender body m v.db)

Sent-answered :
    (w y : World) (s r : ℕ) (body : String) (m : Message) (t : Result Message × World)
    → t.0 ≡ ok m
    → t.1.db ≡ y.db
    → Sent w s r body (ok m, y)
    → Sent w s r body t
Sent-answered w y s r body m (ok n, z) p q h = ground (arith, h)
Sent-answered w y s r body m (err e, z) p q h = ground arith

Wrote-opened :
    (w v : World) (m : Message) (d : Db)
    → v.db ≡ record w.db { conversations = v.db.conversations }
    → Wrote v m d
    → Wrote w m d
Wrote-opened w v m d opened wrote = ground (arith, opened, wrote)

Sent-message :
    (w v : World) (s r : ℕ) (body : String) (c : Conversation) (q : Result Message × World)
    → v.db ≡ record w.db { conversations = v.db.conversations }
    → has_conversation q.1.db c.id (min_int s r) (max_int s r) ≡ true
    → Touches c.id s body v q
    → Sent w s r body (continue q.0 (λ m. announce m c s r body) q.1)
Sent-message w v s r body c (ok m, y) opened there (new, wrote) =
    let (p, q) = announce_lem m c s r body y in
    Sent-answered w y s r body m (announce m c s r body y) p q (
      (
        ground (arith, new),
        ground (arith, new),
        ground (arith, new),
        Wrote-opened w v m y.db opened wrote,
      ),
      ground (arith, new, there),
    )
Sent-message w v s r body c (err e, y) opened there (inl same) = inl (rw (same, opened) refl)
Sent-message w v s r body c (err e, y) opened there (inr wrote) = inr (
  new_message v.sequence c.id s body v.now,
  (refl, refl, refl, Wrote-opened w v (new_message v.sequence c.id s body v.now) y.db opened wrote),
)

Sent-conversation :
    (w : World) (s r : ℕ) (body : String) (q : Result Conversation × World)
    → Opened s r w q
    → Sent w s r body
        (continue q.0 (λ c. add_message c.id s body >>= λ m. announce m c s r body) q.1)
Sent-conversation w s r body (ok c, v) (there, opened) =
    Sent-message w v s r body c (add_message c.id s body v) opened
      (add_message_conversation c.id s c.id (min_int s r) (max_int s r) body v ∙ there)
      (add_message-Touches c.id s body v)
Sent-conversation w s r body (err e, v) same = inl (rw same refl)

write_to-Sent : (w : World) (s r : ℕ) (body : String) → Sent w s r body (write_to s r body w)
unfolding write_to
write_to-Sent w s r body =
    Sent-conversation w s r body (get_or_create_conversation s r w) (get_or_create-Opened s r w)

abbrev with_conversations : List Conversation → Db → Db
with_conversations cs d = record d { conversations = cs }

abbrev with_message : Message → List Conversation → Db → Db
with_message m cs d = record d { messages = d.messages ++ m ∷ []; conversations = cs }

Sent-db :
    (w x : World) (s r : ℕ) (body : String) (t : Result Message × World)
    → x.db ≡ w.db
    → Sent x s r body t
    → Sent w s r body t
Sent-db w x s r body (ok m, v) p ((from, text, unread, wrote), there) =
    ((from, text, unread, wrote ∙ ap (with_message m v.db.conversations) p), there)
Sent-db w x s r body (err e, v) p (inl q) = inl (q ∙ ap (with_conversations v.db.conversations) p)
Sent-db w x s r body (err e, v) p (inr (m, (from, text, unread, wrote))) =
    inr (m, (from, text, unread, wrote ∙ ap (with_message m v.db.conversations) p))

-- A step that only reads, before the rest.
Sent-after :
    {A : Type 0} (w : World) (s r : ℕ) (body : String) (q : Result A × World) (f : A → M Message)
    → q.1.db ≡ w.db
    → ((a : A) (x : World) → q.0 ≡ ok a → x.db ≡ w.db → Sent w s r body (f a x))
    → Sent w s r body (continue q.0 f q.1)
Sent-after w s r body (ok a, x) f p h = h a x refl p
Sent-after w s r body (err e, x) f p h = inl (rw p refl)

check_block_reads : (a b : ℕ) (x : World) → (check_block a b x).1.db ≡ x.db
unfolding check_block get_by_ids reach
check_block_reads a b x = ground arith

send_to-Sent :
    (w : World) (s : ℕ) (u : User) (body : String) → Sent w s u.id body (send_to s u body w)
unfolding send_to
send_to-Sent w s u body =
    Sent-after w s u.id body (raise_if u.soft_deleted (not_found_error "user not found" no_cause) w)
      _ refl
      (λ _ x _ p.
        Sent-after w s u.id body (check_block u.id s x) _ (check_block_reads u.id s x ∙ p)
          (λ _ y _ q.
            Sent-after w s u.id body (check_block s u.id y) _ (check_block_reads s u.id y ∙ q)
              (λ _ z _ k.
                Sent-db w z s u.id body (write_to s u.id body z) k (write_to-Sent z s u.id body))))

username_lem :
    (lower : String → String) (x : World) (username : String)
    → ((get_by_username lower username x).1.db ≡ x.db)
      × ((u : User)
          → (get_by_username lower username x).0 ≡ ok u
          → find (λ v. str_eq (lower v.username) (lower username)) x.db.users ≡ some u)
unfolding get_by_username reach
username_lem lower x username = (ground arith, λ u e. ground (arith, e))

-- Sending to the user that the name stands for, wherever the database fails. A success returns a
-- message from the sender with the text that was sent, without the space around it, unread, which is
-- the one new row of the messages, in the conversation of the two users. An error has written no
-- message, or, since the statements are not in a transaction, that one. Nothing but the
-- conversations has changed besides.
pub send-Sent :
    (lower : String → String) (w : World) (sender : ℕ) (username text : String) (recipient : User)
    → find (λ u. str_eq (lower u.username) (lower username)) w.db.users ≡ some recipient
    → Sent w sender recipient.id (trim_space text) (send lower sender username text w)
unfolding send
send-Sent lower w sender username text recipient found =
    Sent-after w sender recipient.id (trim_space text)
      (raise_if (str_eq (trim_space text) "" || ltb 2000 (len (trim_space text)))
        (bad_request_error "message body is required (max 2000 characters)" no_cause) w)
      _ refl
      (λ _ x _ p.
        let (reads, gives) = username_lem lower x username in
        Sent-after w sender recipient.id (trim_space text) (get_by_username lower username x) _
          (reads ∙ p)
          (λ u y e q.
            let same : u ≡ recipient = ground (arith, gives u e, found, p) in
            rw same (
              Sent-db w y sender recipient.id (trim_space text)
                (send_to sender recipient (trim_space text) y) q
                (send_to-Sent y sender recipient (trim_space text)))))
