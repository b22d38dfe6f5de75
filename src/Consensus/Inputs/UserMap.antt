-- ===== src/Consensus/Inputs/UserMap.antt =====
-- What changes to one user do to the map of consensed users.
use hpcore.Base.{
  map_find_below, Above-all, ◌≡◌, inl, inr, refl, ◌∙◌, List, [], ◌∷◌, Bytes, bytes_eq, bytes_eq_iff,
  equivalent_bytes, Option, none, some, arith, if◌then◌else◌, find, find-cong, map_find,
  map_emplace, find-put, find-map_emplace, Ascending, map_put-Ascending, map_emplace-Ascending,
  bytes_keyed, bytes_ordered, ordered_keyed, Bool-cases, Option-cases,
}
use hpcore.Consensus.Types.{ConsensedUserInput, ConsensedUser, GeneratedUserOutput}
use hpcore.Consensus.Inputs.{
  Users, populate_users, move_outputs, change_user, at_user, add_outputs, new_user,
}

-- What a user of the map has to read.
abbrev pub inputs_at : Option ConsensedUser → List ConsensedUserInput
inputs_at none = []
inputs_at (some user) = user.consensed_inputs

abbrev pub inputs_of : Bytes → Users → List ConsensedUserInput
inputs_of u users = inputs_at (map_find bytes_ordered u users)

abbrev pub or_new : Option ConsensedUser → ConsensedUser
or_new none = new_user
or_new (some user) = user

pub change_user-Ascending :
    (f : ConsensedUser → ConsensedUser) (k : Bytes) (users : Users)
    → Ascending bytes_ordered users
    → Ascending bytes_ordered (at_user f k users)
unfolding change_user
change_user-Ascending f k users s = elim (Option-cases (map_find bytes_ordered k users)) [
  | inl absent ↦ rw absent (map_emplace-Ascending bytes_ordered k (f new_user) users s)
  | inr (user, present) ↦
      rw present (map_put-Ascending bytes_ordered k (f user) user users present s)
]

pub find-at_user :
    (f : ConsensedUser → ConsensedUser) (k q : Bytes) (users : Users)
    → Ascending bytes_ordered users
    → map_find bytes_ordered q (at_user f k users) ≡ (
        if bytes_eq k q
        then some (f (or_new (map_find bytes_ordered k users)))
        else map_find bytes_ordered q users)
unfolding change_user
find-at_user f k q users s = elim (Option-cases (map_find bytes_ordered k users)) [
  | inl absent ↦
      rw
        (
          absent,
          find-map_emplace bytes_ordered k q (f new_user) users s absent,
          equivalent_bytes k q,
        )
        refl
  | inr (user, present) ↦
      rw
        (
          present,
          find-put ⦃k = ordered_keyed bytes_ordered⦄ k q (f user) users,
          equivalent_bytes k q,
        )
        refl
]

pub populate_users-Ascending :
    (ks : List Bytes) (users : Users)
    → Ascending bytes_ordered users
    → Ascending bytes_ordered (populate_users ks users)
unfolding populate_users
populate_users-Ascending [] users a = a
populate_users-Ascending (k ∷ ks) users a =
    populate_users-Ascending ks (map_emplace bytes_ordered k new_user users)
      (map_emplace-Ascending bytes_ordered k new_user users a)

map_emplace_present :
    (q : Bytes) (x : ConsensedUser) (m : Users)
    → Ascending bytes_ordered m
    → map_find bytes_ordered q m ≡ some x
    → map_emplace bytes_ordered q new_user m ≡ m
unfolding map_emplace find
map_emplace_present q x [] s h = cc
map_emplace_present q x ((k, v) ∷ m) s h = ground (
  arith,
  map_emplace_present q x m s.1,
  map_find_below bytes_ordered q m,
  Above-all bytes_ordered q k m,
  s.0,
)

-- Users without inputs stay without inputs when users are added.
pub inputs-populate_users :
    (u : Bytes) (ks : List Bytes) (users : Users)
    → Ascending bytes_ordered users
    → inputs_of u (populate_users ks users) ≡ inputs_of u users
unfolding populate_users
inputs-populate_users u [] users a = refl
inputs-populate_users u (k ∷ ks) users a =
    inputs-populate_users u ks (map_emplace bytes_ordered k new_user users)
      (map_emplace-Ascending bytes_ordered k new_user users a)
    ∙ elim (Option-cases (map_find bytes_ordered k users)) [
      | inl absent ↦
          rw (find-map_emplace bytes_ordered k u new_user users a absent)
            (ground (arith, absent, find-cong ⦃k = ordered_keyed bytes_ordered⦄ k u users))
      | inr (user, present) ↦ rw (map_emplace_present k user users a present) refl
    ]

pub inputs-move_outputs :
    (u : Bytes) (outs : List (Bytes × GeneratedUserOutput)) (users : Users)
    → Ascending bytes_ordered users
    → inputs_of u (move_outputs outs users) ≡ inputs_of u users
unfolding move_outputs
inputs-move_outputs u [] users a = refl
inputs-move_outputs u ((hash, o) ∷ outs) users a =
    inputs-move_outputs u outs (at_user (add_outputs hash o) o.user_pubkey users)
      (change_user-Ascending (add_outputs hash o) o.user_pubkey users a)
    ∙ rw (find-at_user (add_outputs hash o) o.user_pubkey u users a)
        (elim (Bool-cases (bytes_eq o.user_pubkey u)) [
          | inl mine ↦
              rw (mine, (bytes_eq_iff o.user_pubkey u).0 mine)
                (same (map_find bytes_ordered u users))
          | inr other ↦ rw other refl
        ])
  where
    same :
        (x : Option ConsensedUser) → inputs_at (some (add_outputs hash o (or_new x))) ≡ inputs_at x
    same none = refl
    same (some user) = refl
