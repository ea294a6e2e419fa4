-- ===== src/Messages/Sending.antt =====
-- What the statements behind a message write.
use gaggle.Prelude.{
  ℕ, ◌≡◌, refl, ◌⊎◌, inl, inr, Bool, true, false, ◌&&◌, String, List, [], ◌∷◌, ◌++◌, none, some,
  arith, ◌==◌, ==_refl, Option-cases, find, update, any, any-append_one,
}
use gaggle.AppErrors.{Result, ok, err}
use gaggle.Database.{Conversation, Message, Db, World, reach}
use gaggle.Messages.Store.{
  min_int, max_int, has_pair, has_conversation_id, new_message, unread_count,
  get_or_create_conversation, fetch_pair, add_message,
}
use gaggle.Messages.Service.{announce, publish_unread_count}

-- The conversation of a pair, and only conversations have changed.
abbrev pub Opened : ℕ → ℕ → World → Result Conversation × World → Type 0
Opened a b x (ok c, v) =
    (any (λ k. k.id == c.id && has_pair (min_int a b) (max_int a b) k) v.db.conversations ≡ true)
    × (v.db ≡ record x.db { conversations = v.db.conversations })
Opened a b x (err e, v) = v.db ≡ x.db

found_pair :
    (a b : ℕ) (c : Conversation) (cs : List Conversation)
    → find (has_pair a b) cs ≡ some c
    → any (λ k. k.id == c.id && has_pair a b k) cs ≡ true
found_pair a b c [] e = ground arith
found_pair a b c (x ∷ cs) e = ground (arith, found_pair a b c cs, ==_refl c.id)

any_pair :
    (a b : ℕ) (cs : List Conversation)
    → any (has_pair a b) cs ≡ (elim (find (has_pair a b) cs) [ none ↦ false | some _ ↦ true ])
any_pair a b [] = refl
any_pair a b (x ∷ cs) = ground (arith, any_pair a b cs)

-- The same for a pair in its order.
abbrev Fetched : ℕ → ℕ → World → Result Conversation × World → Type 0
Fetched a b x (ok c, v) =
    (any (λ k. k.id == c.id && has_pair a b k) v.db.conversations ≡ true)
    × (v.db ≡ record x.db { conversations = v.db.conversations })
Fetched a b x (err e, v) = v.db ≡ x.db

fetch_pair-Fetched : (a b : ℕ) (x : World) → Fetched a b x (fetch_pair a b x)
unfolding fetch_pair reach
fetch_pair-Fetched a b x =
    let k : Conversation = record {
      id = x.sequence;
      participant_a = a;
      participant_b = b;
      last_message_at = x.now;
    } in
    elim (Option-cases (find (has_pair a b) x.db.conversations)) [
      | inl missing ↦ ground (
        arith,
        missing,
        any_pair a b x.db.conversations,
        any-append_one (λ q. q.id == x.sequence && has_pair a b q) x.db.conversations k,
      )
      | inr (c, found) ↦
          ground (
            arith,
            found,
            any_pair a b x.db.conversations,
            found_pair a b c x.db.conversations found,
          )
    ]

pub get_or_create-Opened : (a b : ℕ) (x : World) → Opened a b x (get_or_create_conversation a b x)
unfolding get_or_create_conversation
get_or_create-Opened a b x = ground (arith, fetch_pair-Fetched (min_int a b) (max_int a b) x)

-- The message is the last row, and only conversations have changed besides.
abbrev pub Wrote : World → Message → Db → Type 0
Wrote x m d =
    d ≡ record x.db { messages = x.db.messages ++ m ∷ []; conversations = d.conversations }

abbrev pub has_conversation : Db → ℕ → ℕ → ℕ → Bool
has_conversation d id a b = any (λ k. k.id == id && has_pair a b k) d.conversations

abbrev pub Touches : ℕ → ℕ → String → World → Result Message × World → Type 0
Touches c s body x (ok m, v) = (m ≡ new_message x.sequence c s body x.now) × Wrote x m v.db
Touches c s body x (err e, v) = (v.db ≡ x.db) ⊎ Wrote x (new_message x.sequence c s body x.now) v.db

pub add_message-Touches :
    (c s : ℕ) (body : String) (x : World) → Touches c s body x (add_message c s body x)
unfolding add_message reach
add_message-Touches c s body x = ground arith

any_touched :
    (c id a b now : ℕ) (cs : List Conversation)
    → any
        (λ k. k.id == id && has_pair a b k)
        (update (has_conversation_id c) (λ k. record k { last_message_at = now }) cs)
      ≡ any (λ k. k.id == id && has_pair a b k) cs
any_touched c id a b now [] = refl
any_touched c id a b now (k ∷ cs) = ground (arith, any_touched c id a b now cs)

pub add_message_conversation :
    (c s id a b : ℕ) (body : String) (x : World)
    → has_conversation (add_message c s body x).1.db id a b ≡ has_conversation x.db id a b
unfolding add_message reach
add_message_conversation c s id a b body x =
    ground (arith, any_touched c id a b x.now x.db.conversations)

pub announce_lem :
    (m : Message) (c : Conversation) (s r : ℕ) (body : String) (v : World)
    → ((announce m c s r body v).0 ≡ ok m) × ((announce m c s r body v).1.db ≡ v.db)
unfolding announce publish_unread_count unread_count reach
announce_lem m c s r body v = (ground arith, ground arith)
