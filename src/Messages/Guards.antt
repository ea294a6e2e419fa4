-- ===== src/Messages/Guards.antt =====
-- Who cannot send, and who cannot read.
use gaggle.Prelude.{
  ℕ, ◌≡◌, inl, inr, Bool, true, false, ◌&&◌, ◌||◌, String, List, [], ◌∷◌, none, some, arith, ◌==◌,
  str_eq, Option-cases, find, any,
}
use gaggle.Database.{User, Conversation, Db, World, reach, Ends}
use gaggle.Accounts.{get_by_username}
use gaggle.Relationships.{between, get_by_ids}
use gaggle.Messages.Store.{
  takes_part, has_conversation_id, get_conversation_row, attach_participant_summary, is_participant,
}
use gaggle.Posts.{trim_space}
use gaggle.Messages.Service.{check_block, send_to, send, get_conversation, mark_read}

-- The row that `GetByIDs` reads is a block.
abbrev pub has_blocked : Db → ℕ → ℕ → Bool
has_blocked d subject target = elim (find (between subject target) d.relationships) [
  | none ↦ false
  | some rel ↦ str_eq rel.relationship_type "block"
]

send_to_blocked :
    (w : World) (sender : ℕ) (recipient : User) (body : String)
    → (has_blocked w.db recipient.id sender || has_blocked w.db sender recipient.id) ≡ true
    → Ends w (λ _ _. ⊥) (send_to sender recipient body w)
      × ((send_to sender recipient body w).1.hub ≡ w.hub)
unfolding send_to check_block get_by_ids reach
send_to_blocked w sender recipient body h =
    elim (Option-cases (find (between recipient.id sender) w.db.relationships)) [
      | inl none_there ↦
          elim (Option-cases (find (between sender recipient.id) w.db.relationships)) [
            | inl none_back ↦ ground (arith, none_there, none_back)
            | inr (q, back) ↦ (ground (arith, none_there, back), ground (arith, none_there, back))
          ]
      | inr (p, there) ↦
          elim (Option-cases (find (between sender recipient.id) w.db.relationships)) [
            | inl none_back ↦ (ground (arith, there, none_back), ground (arith, there, none_back))
            | inr (q, back) ↦ (ground (arith, there, back), ground (arith, there, back))
          ]
    ]

-- Where the row that is read for either direction between sender and recipient is a block, sending
-- a message is an error whatever the database does; no table changes and nothing is published.
pub send_blocked :
    (lower : String → String) (w : World) (sender : ℕ) (username text : String) (recipient : User)
    → find (λ u. str_eq (lower u.username) (lower username)) w.db.users ≡ some recipient
    → (has_blocked w.db recipient.id sender || has_blocked w.db sender recipient.id) ≡ true
    → Ends w (λ _ _. ⊥) (send lower sender username text w)
      × ((send lower sender username text w).1.hub ≡ w.hub)
unfolding send get_by_username reach
send_blocked lower w sender username text recipient found h =
    let (p, q) = send_to_blocked (reach w).1 sender recipient (trim_space text) h in
    (ground (arith, found, p), ground (arith, found, q))

found_outsider :
    (id viewer : ℕ) (c : Conversation) (cs : List Conversation)
    → find (has_conversation_id id) cs ≡ some c
    → any (λ x. x.id == id && takes_part viewer x) cs ≡ false
    → takes_part viewer c ≡ false
found_outsider id viewer c [] e h = ground arith
found_outsider id viewer c (x ∷ cs) e h = ground (arith, found_outsider id viewer c cs)

-- A user who takes no part in a conversation can neither read it nor mark it read: whatever the
-- database does, both calls are errors, no table changes and nothing is published.
pub outsider_refused :
    (w : World) (viewer id : ℕ)
    → any (λ c. c.id == id && takes_part viewer c) w.db.conversations ≡ false
    → Ends w (λ _ _. ⊥) (get_conversation viewer id w)
      × ((get_conversation viewer id w).1.hub ≡ w.hub)
      × Ends w (λ _ _. ⊥) (mark_read viewer id w)
      × ((mark_read viewer id w).1.hub ≡ w.hub)
unfolding get_conversation get_conversation_row attach_participant_summary mark_read is_participant
    reach
outsider_refused w viewer id h = (
  elim (Option-cases (find (has_conversation_id id) w.db.conversations)) [
    | inl missing ↦ ground (arith, missing)
    | inr (c, found) ↦ ground (arith, found, found_outsider id viewer c w.db.conversations found h)
  ],
  ground arith,
  ground (arith, h),
  ground (arith, h),
)
