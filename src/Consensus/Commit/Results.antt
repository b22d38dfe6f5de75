-- ===== src/Consensus/Commit/Results.antt =====
-- What a commit leaves: the outputs of its own run of the contract, signed, and no expired input.
use hpcore.Base.{
  ℕ, ◌≤◌, ◌<◌, ◌≡◌, refl, sym, ap, subst, ◌∙◌, inl, inr, Bool-cases, Bool, true, false, List, [],
  ◌∷◌, some, Bytes, arith, All, All-append, leb,
}
use hpcore.Util.SequenceHash.{H32}
use hpcore.Util.MerkleHashTree.{MerkleHashTree, root_hash, clear}
use hpcore.Consensus.Types.{Proposal, CandidateUserInput, GeneratedUserOutput}
use hpcore.Consensus.Inputs.{
  Users, Inputs, Expiry, expire_from, expire_candidate_inputs, cleanup_output_collections,
}
use hpcore.Consensus.Timing.{refresh_time_config}
use hpcore.Ledger.Shards.{LedgerState, update_ledger}
use hpcore.Consensus.Execution.{BufMap, feed_user_inputs, extract_user_outputs}
use hpcore.Consensus.Commit.{
  PatchCalls, NodeState, apply_consensed_patch_file_changes, CommitCalls, Announced, finish_commit,
  commit_consensus_results,
}
use hpcore.Consensus.Execution.Signed.{cleared, AreSigned, IsClean, HasRun, execute-HasRun}

-- The ledger of the input is ahead.
abbrev pub IsAhead : ℕ → Bytes × CandidateUserInput → Type 0
IsAhead lcl_seq_no e = lcl_seq_no < e.1.max_ledger_seq_no

expire_from-IsAhead :
    (lcl_seq_no : ℕ) (inputs : Inputs) (e : Expiry)
    → All (IsAhead lcl_seq_no) e.kept
    → All (IsAhead lcl_seq_no) (expire_from lcl_seq_no inputs e).kept
unfolding expire_from
expire_from-IsAhead lcl_seq_no [] e h = h
expire_from-IsAhead lcl_seq_no ((key, ci) ∷ rest) e h =
    elim (Bool-cases (leb ci.max_ledger_seq_no lcl_seq_no)) [
      | inl over ↦ rw over (expire_from-IsAhead lcl_seq_no rest _ h)
      | inr ahead ↦ rw ahead (
          expire_from-IsAhead lcl_seq_no rest _
            (All-append (IsAhead lcl_seq_no) e.kept ((key, ci) ∷ []) h (ground arith, tt)))
    ]

all_at :
    {a b : LedgerState} {xs ys : Inputs} (f : LedgerState → ℕ)
    → a ≡ b
    → xs ≡ ys
    → All (IsAhead (f a)) xs
    → All (IsAhead (f b)) ys
all_at {a} {b} {xs} {ys} f e h all =
    subst (λ l. All (IsAhead (f l)) ys) e (subst (λ m. All (IsAhead (f a)) m) h all)

-- What the patch leaves alone.
abbrev kept_parts :
    NodeState
    → Bool × MerkleHashTree × Bytes × List (Bytes × GeneratedUserOutput) × Inputs × LedgerState
kept_parts n = (
  n.ctx.is_shutting_down, n.ctx.user_outputs_hashtree, n.ctx.user_outputs_our_sig,
  n.ctx.generated_user_outputs, n.ctx.candidate_user_inputs, n.ledger,
)

patch_keeps :
    (calls : PatchCalls) (prop_patch_hash : H32) (n : NodeState)
    → kept_parts (apply_consensed_patch_file_changes calls prop_patch_hash n).2 ≡ kept_parts n
unfolding apply_consensed_patch_file_changes refresh_time_config
patch_keeps calls prop_patch_hash n = ground arith

module _ (k : CommitCalls) (p : Proposal) (users : Users) where
  finish_commit-HasRun :
      (said : Announced) (n : NodeState)
      → (finish_commit k p users said n).0 ≡ true
      → k.executor.execute ≡ true
      → n.ctx.is_shutting_down ≡ false
      → IsClean n.ctx
      → let n' = (finish_commit k p users said n).2 in
        HasRun k.hashes k.executor
          (k.executor.run p.time n.ledger.lcl_id (feed_user_inputs users []))
          n.ctx
          n'.state_hash
          n'.ctx
        × (n'.ledger ≡ n.ledger)
  unfolding finish_commit
  finish_commit-HasRun said n h on up clean =
      let r = apply_consensed_patch_file_changes k.patch p.patch_hash n in
      let e = patch_keeps k.patch p.patch_hash n in
      let up' : r.2.ctx.is_shutting_down ≡ false = ap (λ t. t.0) e ∙ up in
      let clean' : IsClean r.2.ctx = (
        rw (ap (λ t. t.1) e) clean.0,
        ap (λ t. t.2) e ∙ clean.1,
        ap (λ t. root_hash t.1) e ∙ clean.2,
        ap (λ t. t.3) e ∙ clean.3,
      ) in
      elim (Bool-cases r.0) [
        | inl ok ↦
            let (bufmap, ran, outputs, signed, inputs) =
              execute-HasRun k.hashes k.executor p.time users r.2.ledger.lcl_id r.2.state_hash
                r.2.ctx on up' clean' (rw ok at h) in
            rw ok (
              (
                bufmap,
                sym (ap (λ t. k.executor.run p.time t.5.lcl_id (feed_user_inputs users [])) e)
                    ∙ ran,
                outputs,
                signed,
                inputs ∙ ap (λ t. t.4) e,
              ),
              ap (λ t. t.5) e,
            )
        | inr bad ↦ let h' : false ≡ true = rw bad at h in absurd (cc)
      ]

  -- If a commit succeeds on a node that executes contracts and is not shutting down, with blocks of two or
  -- more in its hash tree, then the contract ran at the new ledger with the consensed inputs, the node has
  -- the state hash of that run, the outputs it holds are exactly those of that run, they are signed with
  -- the state (with no signature and no tree left if there are none), and every candidate input that is
  -- left has a ledger ahead of the new one.
  pub commit_lem :
      (n : NodeState)
      → (commit_consensus_results k p users n).0 ≡ true
      → k.executor.execute ≡ true
      → n.ctx.is_shutting_down ≡ false
      → 2 ≤ n.ctx.user_outputs_hashtree.block_size
      → let n' = (commit_consensus_results k p users n).2 in
        ((bufmap : BufMap) × (k.executor.run p.time n'.ledger.lcl_id (feed_user_inputs users [])
            ≡ some (bufmap, n'.state_hash))
          × (n'.ctx.generated_user_outputs ≡ extract_user_outputs k.hashes bufmap [])
          × AreSigned k.hashes k.executor.sign n'.state_hash n'.ctx)
        × All (IsAhead n'.ledger.lcl_id.seq_no) n'.ctx.candidate_user_inputs
  unfolding commit_consensus_results expire_candidate_inputs cleanup_output_collections clear
  commit_lem n h on up two =
      let (written, ledger) =
        update_ledger k.hashes k.history k.ledger_session k.primary k.raw p users n.ledger in
      elim (Bool-cases written) [
        | inl ok ↦
            let ((bufmap, ran, outputs, signed, inputs), same) =
              finish_commit-HasRun _ _ (rw ok at h) on up (
                two,
                refl,
                cleared n.ctx.user_outputs_hashtree.block_size n.ctx.user_outputs_hashtree.root,
                refl,
              ) in
            rw ok (
              (
                bufmap,
                ap (λ l. k.executor.run p.time l.lcl_id (feed_user_inputs users [])) same ∙ ran,
                outputs,
                signed,
              ),
              all_at (λ l. l.lcl_id.seq_no) (sym same) (sym inputs)
                  (expire_from-IsAhead ledger.lcl_id.seq_no n.ctx.candidate_user_inputs
                    (record { kept = []; rejections = []; purged = [] }) tt),
            )
        | inr failed ↦ let h' : false ≡ true = rw failed at h in absurd (cc)
      ]
