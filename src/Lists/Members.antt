-- ===== src/Lists/Members.antt =====
-- The members of a list: who joins, who leaves, and what a deletion leaves.
use gaggle.Prelude.{
  ℕ, ◌≤◌, ◌≡◌, refl, inl, inr, true, false, ◌&&◌, List, [], ◌∷◌, ◌++◌, arith, ◌==◌, Option-cases,
  find, count, delete, any, any-delete_ne, any-delete_le, count-append_one, count-delete-le,
  delete-none,
}
use gaggle.Database.{ListMember, Db, World, reach, Ends, Ends-map, Ends-keeps}
use gaggle.Lists.Store.{
  has_list_id, has_owner, is_owned, is_member, get_list, delete_row, add_member_row,
  remove_member_row,
}
use gaggle.Lists.Service.{delete_list, require_owner, add_member, remove_member}

-- The list and its members are gone, and every other list and its members are there.
pub record Gone (w : World) (list_id actor : ℕ) (d : Db) : Type 0 where
  pub no_list : any (is_owned list_id actor) d.lists ≡ false
  pub no_members : any (λ m. m.list_id == list_id) d.list_members ≡ false
  pub other_lists :
      (k : ℕ)
      → (k == list_id) ≡ false
      → any (has_list_id k) d.lists ≡ any (has_list_id k) w.db.lists
  pub other_members :
      (k u : ℕ)
      → (k == list_id) ≡ false
      → any (is_member k u) d.list_members ≡ any (is_member k u) w.db.list_members

abbrev after_delete : ℕ → ℕ → Db → Db
after_delete list_id actor d = record d {
  lists = delete (is_owned list_id actor) d.lists;
  list_members = delete (λ m. m.list_id == list_id) d.list_members;
}

delete_list_lem :
    (w : World) (list_id actor : ℕ)
    → Ends w (λ _ d. d ≡ after_delete list_id actor w.db) (delete_list list_id actor w)
unfolding delete_list get_list delete_row reach
delete_list_lem w list_id actor =
    elim (Option-cases (find (λ k. has_list_id list_id k && has_owner w.db k) w.db.lists)) [
      | inl missing ↦ ground (arith, missing)
      | inr (l, found) ↦ ground (arith, found, delete-none (is_owned list_id actor) w.db.lists)
    ]

-- Deleting a list, wherever the database fails: an error changes no table, and after a success the
-- actor's list under the id and all its members are gone, and every other list and its members are
-- as they were.
pub delete_list-Gone :
    (w : World) (list_id actor : ℕ)
    → Ends w (λ _. Gone w list_id actor) (delete_list list_id actor w)
delete_list-Gone w list_id actor =
    Ends-map w (delete_list list_id actor w)
      (λ _ d e. rw e (record {
        no_list =
            any-delete_le (is_owned list_id actor) (is_owned list_id actor) (λ l h. h) w.db.lists;
        no_members =
            any-delete_le (λ m. m.list_id == list_id) (λ m. m.list_id == list_id) (λ m h. h)
              w.db.list_members;
        other_lists = λ k n.
            any-delete_ne (has_list_id k) (is_owned list_id actor) (λ l h. ground arith) w.db.lists;
        other_members = λ k u n.
            any-delete_ne (is_member k u) (λ m. m.list_id == list_id) (λ m h. ground arith)
              w.db.list_members;
      }))
      (delete_list_lem w list_id actor)

-- The user was not in the list and is its last row now; nothing else has changed.
abbrev pub Joined : World → ℕ → ℕ → Db → Type 0
Joined w list_id member d =
    (any (is_member list_id member) w.db.list_members ≡ false)
    × (any (λ u. u.id == member) w.db.users ≡ true)
    × (d ≡ record w.db {
      list_members = w.db.list_members ++ record { list_id = list_id; user_id = member } ∷ [];
    })

-- Adding a member, wherever the database fails: an error changes no table, and a success has added
-- exactly that row, for a user who exists and was not in the list.
pub add_member-Joined :
    (w : World) (list_id actor member : ℕ)
    → Ends w (λ _. Joined w list_id member) (add_member list_id actor member w)
unfolding add_member require_owner get_list add_member_row reach
add_member-Joined w list_id actor member =
    elim (Option-cases (find (λ k. has_list_id list_id k && has_owner w.db k) w.db.lists)) [
      | inl missing ↦ ground (arith, missing)
      | inr (l, found) ↦ elim (Option-cases (find (has_list_id list_id) w.db.lists)) [
        | inl gone ↦ ground (arith, found, gone)
        | inr (k, there) ↦ ground (arith, found, there)
      ]
    ]

remove_member_lem :
    (w : World) (list_id actor member : ℕ)
    → Ends w
        (λ _ d.
          d ≡ record w.db { list_members = delete (is_member list_id member) w.db.list_members })
        (remove_member list_id actor member w)
unfolding remove_member require_owner get_list remove_member_row reach
remove_member_lem w list_id actor member =
    elim (Option-cases (find (λ k. has_list_id list_id k && has_owner w.db k) w.db.lists)) [
      | inl missing ↦ ground (arith, missing)
      | inr (l, found) ↦
          ground (arith, found, delete-none (is_member list_id member) w.db.list_members)
    ]

-- The user is in the list no more, and every other membership is as it was.
pub record Left (w : World) (list_id member : ℕ) (d : Db) : Type 0 where
  pub not_here : any (is_member list_id member) d.list_members ≡ false
  pub others :
      (k u : ℕ)
      → (k == list_id && u == member) ≡ false
      → any (is_member k u) d.list_members ≡ any (is_member k u) w.db.list_members
  pub same_lists : d.lists ≡ w.db.lists

-- Removing a member, wherever the database fails: an error changes no table, and after a success
-- the user is not in the list and every other membership is as it was.
pub remove_member-Left :
    (w : World) (list_id actor member : ℕ)
    → Ends w (λ _. Left w list_id member) (remove_member list_id actor member w)
remove_member-Left w list_id actor member =
    Ends-map w (remove_member list_id actor member w)
      (λ _ d e. rw e (record {
        not_here =
            any-delete_le (is_member list_id member) (is_member list_id member) (λ m h. h)
              w.db.list_members;
        others = λ k u n.
            any-delete_ne (is_member k u) (is_member list_id member) (λ m h. ground arith)
              w.db.list_members;
        same_lists = refl;
      }))
      (remove_member_lem w list_id actor member)

-- Nobody is in a list twice.
abbrev pub IsSimple : Db → Type 0
IsSimple d = (k u : ℕ) → count (is_member k u) d.list_members ≤ 1

count_other :
    (k u list_id member : ℕ) (ms : List ListMember)
    → (k == list_id && u == member) ≡ true
    → any (is_member list_id member) ms ≡ false
    → count (is_member k u) ms ≡ 0
count_other k u list_id member [] h n = refl
count_other k u list_id member (m ∷ ms) h n = ground (arith, count_other k u list_id member ms)

Joined-IsSimple :
    (w : World) (list_id member : ℕ) (d : Db)
    → IsSimple w.db
    → Joined w list_id member d
    → IsSimple d
Joined-IsSimple w list_id member d s (new, known, e) k u =
    let row : ListMember = record { list_id = list_id; user_id = member } in
    rw e (
      ground (
        arith,
        s k u,
        count-append_one (is_member k u) w.db.list_members row,
        count_other k u list_id member w.db.list_members,
      ))

-- Adding a member, removing one and deleting a list keep nobody twice in a list, wherever the
-- database fails.
pub members-IsSimple :
    (w : World) (list_id actor member : ℕ)
    → IsSimple w.db
    → IsSimple (add_member list_id actor member w).1.db
      × IsSimple (remove_member list_id actor member w).1.db
      × IsSimple (delete_list list_id actor w).1.db
members-IsSimple w list_id actor member s = (
  Ends-keeps IsSimple w (add_member list_id actor member w) s
      (λ _ d j. Joined-IsSimple w list_id member d s j) (add_member-Joined w list_id actor member),
  Ends-keeps IsSimple w (remove_member list_id actor member w) s
      (λ _ d e. rw e (λ k u. omega (
        arith,
        s k u,
        count-delete-le (is_member k u) (is_member list_id member) w.db.list_members,
      )))
      (remove_member_lem w list_id actor member),
  Ends-keeps IsSimple w (delete_list list_id actor w) s
      (λ _ d e. rw e (λ k u. omega (
        arith,
        s k u,
        count-delete-le (is_member k u) (λ m. m.list_id == list_id) w.db.list_members,
      )))
      (delete_list_lem w list_id actor),
)
