-- ===== src/Consensus/Execution/Signed.antt =====
-- The outputs of a run of the contract are held and signed with its state.
use hpcore.Base.{
  ℕ, ◌≤◌, ◌≡◌, ◌⊎◌, refl, ap, ◌∙◌, inl, inr, Bool-cases, true, false, not, ◌||◌, ◌++◌, List, [],
  ◌∷◌, none, some, Bytes, arith, length-append, is_nil, keys,
}
use hpcore.Util.SequenceHash.{H32, SequenceHash}
use hpcore.Util.MerkleHashTree.{Node, node, root_hash, empty_hash, clear}
use hpcore.Util.MerkleHashTree.Collapse.{IsHashed}
use hpcore.Util.MerkleHashTree.Groups.{leaves, populate_lem}
use hpcore.Consensus.Types.{Context}
use hpcore.Consensus.Proposing.{to_string_view}
use hpcore.Consensus.Inputs.{Users}
use hpcore.Ledger.Chain.{Hashes, get_list_hash}
use hpcore.Consensus.Execution.{
  BufMap, feed_user_inputs, extract_user_outputs, sign_outputs, Executor, execute_contract,
  finish_run, Run,
}

pub cleared :
    (block_size : ℕ) (root : Node)
    → root_hash (clear (record { block_size = block_size; root = root })) ≡ empty_hash
unfolding clear root_hash
cleared block_size (node h c r) = refl

-- The outputs of the run are held and signed with the state; without any, no signature and no tree is
-- left.
abbrev pub AreSigned : Hashes → (Bytes → Bytes) → H32 → Context → Type 0
AreSigned c sign state_hash ctx =
    ((ctx.generated_user_outputs ≡ [])
      × (ctx.user_outputs_our_sig ≡ [])
      × (root_hash ctx.user_outputs_hashtree ≡ empty_hash))
    ⊎ ((leaves ctx.user_outputs_hashtree.root
          ≡ keys ctx.generated_user_outputs ++ to_string_view state_hash ∷ [])
        × IsHashed (get_list_hash c) ctx.user_outputs_hashtree.root
        × (ctx.user_outputs_our_sig ≡ sign (root_hash ctx.user_outputs_hashtree)))

nil_of {ℓ} : {A : Type ℓ} (xs : List A) → is_nil xs ≡ true → xs ≡ []
nil_of [] h = refl
nil_of (x ∷ xs) h = cc

module _ (c : Hashes) (sign : Bytes → Bytes) (state_hash : H32) where
  sign_outputs-AreSigned :
      (ctx : Context)
      → 2 ≤ ctx.user_outputs_hashtree.block_size
      → ctx.user_outputs_our_sig ≡ []
      → root_hash ctx.user_outputs_hashtree ≡ empty_hash
      → AreSigned c sign state_hash (sign_outputs c sign state_hash ctx)
        × ((sign_outputs c sign state_hash ctx).generated_user_outputs ≡ ctx.generated_user_outputs)
  sign_outputs-AreSigned ctx two no_sig no_tree =
      let hashes = keys ctx.generated_user_outputs ++ to_string_view state_hash ∷ [] in
      let (tree, built, same, hashed, block) =
        populate_lem (get_list_hash c) hashes ctx.user_outputs_hashtree
          (omega (
            arith,
            length-append (keys ctx.generated_user_outputs) (to_string_view state_hash ∷ []),
          ))
          two in
      elim (Bool-cases (is_nil ctx.generated_user_outputs)) [
        | inl nothing ↦
            rw nothing ((inl (nil_of ctx.generated_user_outputs nothing, no_sig, no_tree)), refl)
        | inr some_outputs ↦ rw (some_outputs, built) ((inr (same, hashed, refl)), refl)
      ]

-- No output, no signature and no tree of a round before is left.
abbrev pub IsClean : Context → Type 0
IsClean ctx =
    (2 ≤ ctx.user_outputs_hashtree.block_size)
    × (ctx.user_outputs_our_sig ≡ [])
    × (root_hash ctx.user_outputs_hashtree ≡ empty_hash)
    × (ctx.generated_user_outputs ≡ [])

-- The run succeeded with that state, its outputs are held and signed, and the candidate inputs stay.
abbrev pub HasRun : Hashes → Executor → Run → Context → H32 → Context → Type 0
HasRun c x run before state_hash after =
    (bufmap : BufMap) × (run ≡ some (bufmap, state_hash))
    × (after.generated_user_outputs ≡ extract_user_outputs c bufmap [])
    × AreSigned c x.sign state_hash after
    × (after.candidate_user_inputs ≡ before.candidate_user_inputs)

module _ (c : Hashes) (x : Executor) where
  sign_outputs_inputs :
      (state_hash : H32) (ctx : Context)
      → (sign_outputs c x.sign state_hash ctx).candidate_user_inputs ≡ ctx.candidate_user_inputs
  sign_outputs_inputs state_hash ctx = ground arith

  finish_run-HasRun :
      (run : Run) (old : H32) (ctx : Context)
      → IsClean ctx
      → (finish_run c x run (old, ctx)).0 ≡ true
      → HasRun c x run ctx (finish_run c x run (old, ctx)).1 (finish_run c x run (old, ctx)).2
  finish_run-HasRun none old ctx clean h = absurd (cc)
  finish_run-HasRun (some (bufmap, state_hash)) old ctx (two, no_sig, no_tree, none_before) h =
      let ctx' = record ctx {
        generated_user_outputs = extract_user_outputs c bufmap ctx.generated_user_outputs;
      } in
      let (signed, same) = sign_outputs-AreSigned c x.sign state_hash ctx' two no_sig no_tree in
      (
        bufmap,
        refl,
        same ∙ ap (extract_user_outputs c bufmap) none_before,
        signed,
        sign_outputs_inputs state_hash ctx',
      )

  pub execute-HasRun :
      (time : ℕ) (users : Users) (lcl_id : SequenceHash) (old : H32) (ctx : Context)
      → x.execute ≡ true
      → ctx.is_shutting_down ≡ false
      → IsClean ctx
      → (execute_contract c x time users lcl_id (old, ctx)).0 ≡ true
      → HasRun c x
          (x.run time lcl_id (feed_user_inputs users []))
          ctx
          (execute_contract c x time users lcl_id (old, ctx)).1
          (execute_contract c x time users lcl_id (old, ctx)).2
  unfolding execute_contract
  execute-HasRun time users lcl_id old ctx on up clean h =
      let runs : (not x.execute || ctx.is_shutting_down) ≡ false = cc in
      rw runs (
        finish_run-HasRun (x.run time lcl_id (feed_user_inputs users [])) old ctx clean
          (rw runs at h))
