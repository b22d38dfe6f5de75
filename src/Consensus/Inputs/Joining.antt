-- ===== src/Consensus/Inputs/Joining.antt =====
-- Which inputs a closed ledger takes from the candidates, and for whom.
use hpcore.Base.{
  same_sym, append-nil, ◌≡◌, inl, inr, refl, sym, ◌∙◌, true, false, ◌||◌, List, [], ◌∷◌, ◌++◌,
  Bytes, bytes_eq, bytes_eq_iff, Option, none, some, arith, elem, NoDup, if◌then◌else◌, find, erase,
  find-erase, find-cong, map_find, Ascending, bytes_keyed, bytes_ordered, Bool-cases, append_assoc,
}
use hpcore.Util.MerkleHashTree.{root_hash}
use hpcore.Consensus.Types.{
  Proposal, Context, CandidateUserInput, ConsensedUserInput, ConsensedUser,
}
use hpcore.Consensus.Inputs.{
  Users, Inputs, Joined, join_input, join_inputs, populate_users, prepare_consensed_users, at_user,
  add_input,
}
use hpcore.Consensus.Inputs.UserMap.{
  inputs_at, inputs_of, or_new, change_user-Ascending, find-at_user, populate_users-Ascending,
  inputs-populate_users, inputs-move_outputs,
}

module _ (q : Bytes) where
  -- The candidate inputs that are left are those that the proposal does not name.
  find-join_inputs :
      (hs : List Bytes) (s : Joined)
      → find q (join_inputs hs s).inputs ≡ (if elem q hs then none else find q s.inputs)
  unfolding join_inputs join_input elem
  find-join_inputs [] s = refl
  find-join_inputs (h ∷ hs) s = step (find-join_inputs hs) (find h s.inputs) refl
    where
      step :
          ((t : Joined)
            → find q (join_inputs hs t).inputs ≡ (if elem q hs then none else find q t.inputs))
          → (o : Option CandidateUserInput) → find h s.inputs ≡ o
          → find q (join_inputs hs (join_input h o s)).inputs
            ≡ (if elem q (h ∷ hs) then none else find q s.inputs)
      step rest none absent =
          ground (arith, rest (join_input h none s), find-cong h q s.inputs, absent)
      step rest (some ci) present =
          ground (arith, rest (join_input h (some ci) s), find-erase h q s.inputs)

-- The named inputs that belong to a user, in the order of the names.
abbrev pub owned_one : Bytes → Bytes → Option CandidateUserInput → List ConsensedUserInput
owned_one u h none = []
owned_one u h (some ci) =
    if bytes_eq ci.user_pubkey u then record { ordered_hash = h; input = ci.input } ∷ [] else []

abbrev pub owned : Bytes → List Bytes → Inputs → List ConsensedUserInput
owned u [] candidates = []
owned u (h ∷ hs) candidates = owned_one u h (find h candidates) ++ owned u hs candidates

owned-erase :
    (u h : Bytes) (hs : List Bytes) (m : Inputs)
    → elem h hs ≡ false
    → owned u hs (erase h m) ≡ owned u hs m
unfolding elem
owned-erase u h [] m fresh = refl
owned-erase u h (k ∷ hs) m fresh =
    ground (arith, find-erase h k m, same_sym ⦃k = bytes_keyed⦄ h k, owned-erase u h hs m)

inputs_at_user :
    (u h : Bytes) (ci : CandidateUserInput) (users : Users)
    → Ascending bytes_ordered users
    → inputs_of u (at_user (add_input h ci) ci.user_pubkey users)
      ≡ inputs_of u users ++ owned_one u h (some ci)
inputs_at_user u h ci users s =
    rw (find-at_user (add_input h ci) ci.user_pubkey u users s)
      (elim (Bool-cases (bytes_eq ci.user_pubkey u)) [
        | inl mine ↦
            rw (mine, (bytes_eq_iff ci.user_pubkey u).0 mine)
              (added (map_find bytes_ordered u users))
        | inr other ↦ rw other (sym (append-nil (inputs_of u users)))
      ])
  where
    added :
        (o : Option ConsensedUser)
        → inputs_at (some (add_input h ci (or_new o)))
          ≡ inputs_at o ++ record { ordered_hash = h; input = ci.input } ∷ []
    added none = refl
    added (some user) = refl

nil_append : (xs : List ConsensedUserInput) → [] ++ xs ≡ xs
nil_append xs = refl

inputs-join_inputs :
    (u : Bytes) (hs : List Bytes) (s : Joined)
    → NoDup hs
    → Ascending bytes_ordered s.users
    → inputs_of u (join_inputs hs s).users ≡ inputs_of u s.users ++ owned u hs s.inputs
unfolding join_inputs join_input
inputs-join_inputs u [] s d a = sym (append-nil (inputs_of u s.users))
inputs-join_inputs u (h ∷ hs) s d a = step (λ t. inputs-join_inputs u hs t d.1) (find h s.inputs)
  where
    none_owned :
        inputs_of u s.users ++ owned u hs s.inputs
        ≡ inputs_of u s.users ++ (owned_one u h none ++ owned u hs s.inputs)
    none_owned = refl

    step :
        ((t : Joined)
          → Ascending bytes_ordered t.users
          → inputs_of u (join_inputs hs t).users ≡ inputs_of u t.users ++ owned u hs t.inputs)
        → (o : Option CandidateUserInput)
        → inputs_of u (join_inputs hs (join_input h o s)).users
          ≡ inputs_of u s.users ++ (owned_one u h o ++ owned u hs s.inputs)
    step rest none = rest (join_input h none s) a ∙ none_owned
    step rest (some ci) =
        rest (join_input h (some ci) s)
          (change_user-Ascending (add_input h ci) ci.user_pubkey s.users a)
        ∙ rw (inputs_at_user u h ci s.users a, owned-erase u h hs s.inputs d.0)
            (append_assoc (inputs_of u s.users) (owned_one u h (some ci)) (owned u hs s.inputs))

join_inputs-Ascending :
    (hs : List Bytes) (s : Joined)
    → Ascending bytes_ordered s.users
    → Ascending bytes_ordered (join_inputs hs s).users
unfolding join_inputs join_input
join_inputs-Ascending [] s a = a
join_inputs-Ascending (h ∷ hs) s a =
    join_inputs-Ascending hs (join_input h (find h s.inputs) s) (one (find h s.inputs))
  where
    one : (o : Option CandidateUserInput) → Ascending bytes_ordered (join_input h o s).users
    one none = a
    one (some ci) = change_user-Ascending (add_input h ci) ci.user_pubkey s.users a

-- A ledger that is closed takes, for every user, the candidate inputs of that user that the proposal
-- names, in the order in which it names them and whether or not the outcome is a success; exactly
-- the named inputs leave the candidates. The names of a proposal are different.
pub prepared_inputs :
    (cons_prop : Proposal) (ctx : Context)
    → NoDup cons_prop.input_ordered_hashes
    → let (ok, users, after) = prepare_consensed_users cons_prop [] ctx in
      ((u : Bytes)
        → inputs_of u users ≡ owned u cons_prop.input_ordered_hashes ctx.candidate_user_inputs)
      × ((q : Bytes)
          → find q after.candidate_user_inputs ≡ (
              if elem q cons_prop.input_ordered_hashes
              then none
              else find q ctx.candidate_user_inputs))
unfolding prepare_consensed_users find
prepared_inputs cons_prop ctx d =
    let joined = join_inputs cons_prop.input_ordered_hashes start in
    (
      λ u.
          elim (Bool-cases (
            ctx.sync_ongoing
            || bytes_eq cons_prop.output_hash (root_hash ctx.user_outputs_hashtree))) [
              | inl moved ↦ rw moved (
                  inputs-move_outputs u ctx.generated_user_outputs joined.users ascending ∙ taken u)
              | inr refused ↦ rw refused (taken u)
            ],
      λ q.
          elim (Bool-cases (
            ctx.sync_ongoing
            || bytes_eq cons_prop.output_hash (root_hash ctx.user_outputs_hashtree))) [
              | inl moved ↦ rw moved (find-join_inputs q cons_prop.input_ordered_hashes start)
              | inr refused ↦ rw refused (find-join_inputs q cons_prop.input_ordered_hashes start)
            ],
    )
  where
    start : Joined
    start = record {
      complete = true;
      users = populate_users cons_prop.users [];
      inputs = ctx.candidate_user_inputs;
    }

    ascending : Ascending bytes_ordered (join_inputs cons_prop.input_ordered_hashes start).users
    ascending =
        join_inputs-Ascending cons_prop.input_ordered_hashes start
          (populate_users-Ascending cons_prop.users [] tt)

    nothing :
        (u : Bytes)
        → inputs_of u [] ++ owned u cons_prop.input_ordered_hashes ctx.candidate_user_inputs
          ≡ owned u cons_prop.input_ordered_hashes ctx.candidate_user_inputs
    nothing u = nil_append (owned u cons_prop.input_ordered_hashes ctx.candidate_user_inputs)

    taken :
        (u : Bytes)
        → inputs_of u (join_inputs cons_prop.input_ordered_hashes start).users
          ≡ owned u cons_prop.input_ordered_hashes ctx.candidate_user_inputs
    taken u =
        inputs-join_inputs u cons_prop.input_ordered_hashes start d
          (populate_users-Ascending cons_prop.users [] tt)
        ∙ rw (inputs-populate_users u cons_prop.users [] tt) (nothing u)
