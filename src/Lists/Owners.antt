-- ===== src/Lists/Owners.antt =====
-- Who may change a list.
use gaggle.Prelude.{
  ℕ, ◌≡◌, inl, inr, Bool, true, false, not, ◌&&◌, String, List, [], ◌∷◌, some, arith, ◌==◌,
  Option-cases, find,
}
use gaggle.Database.{ListRow, Db, World, reach, Ends}
use gaggle.Posts.Audience.{every}
use gaggle.Lists.Store.{has_list_id, has_owner, is_owned, get_list}
use gaggle.Lists.Service.{update_list, delete_list, require_owner, add_member, remove_member}

-- No list under this id is the actor's.
abbrev pub is_stranger : Db → ℕ → ℕ → Bool
is_stranger d list_id actor = every (λ l. not (is_owned list_id actor l)) d.lists

found_stranger :
    (d : Db) (list_id actor : ℕ) (l : ListRow) (ls : List ListRow)
    → find (λ k. has_list_id list_id k && has_owner d k) ls ≡ some l
    → every (λ k. not (is_owned list_id actor k)) ls ≡ true
    → (l.owner_id == actor) ≡ false
found_stranger d list_id actor l [] e h = ground arith
found_stranger d list_id actor l (k ∷ ls) e h = ground (arith, found_stranger d list_id actor l ls)

-- A user who owns no list under the id can neither edit nor delete the list, nor add or remove a
-- member: whatever the database does, each of the four calls is an error and changes no table.
pub stranger_refused :
    (w : World) (list_id actor member : ℕ) (name description : String)
    → is_stranger w.db list_id actor ≡ true
    → Ends w (λ _ _. ⊥) (update_list list_id actor name description w)
      × Ends w (λ _ _. ⊥) (delete_list list_id actor w)
      × Ends w (λ _ _. ⊥) (add_member list_id actor member w)
      × Ends w (λ _ _. ⊥) (remove_member list_id actor member w)
unfolding update_list delete_list add_member remove_member require_owner get_list reach
stranger_refused w list_id actor member name description h =
    elim (Option-cases (find (λ k. has_list_id list_id k && has_owner w.db k) w.db.lists)) [
      | inl missing ↦ (
        ground (arith, missing),
        ground (arith, missing),
        ground (arith, missing),
        ground (arith, missing),
      )
      | inr (l, found) ↦
          let other : (l.owner_id == actor) ≡ false =
            found_stranger w.db list_id actor l w.db.lists found h in
          (
            ground (arith, found, other),
            ground (arith, found, other),
            ground (arith, found, other),
            ground (arith, found, other),
          )
    ]
