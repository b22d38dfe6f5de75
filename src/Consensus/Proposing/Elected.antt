-- ===== src/Consensus/Proposing/Elected.antt =====
-- The users and inputs that go into the proposal of stages 1 to 3.
use hpcore.Base.{
  ℕ, ◌≡◌, refl, Bool, false, List, [], ◌∷◌, ◌++◌, Bytes, Option, none, some, bytes_keyed,
  bytes_ordered, nat_ordered,
}
use hpcore.Consensus.Types.{Proposal, Context, ConsensusConfig}
use hpcore.Consensus.Candidates.{Proposals}
use hpcore.Consensus.Votes.{count_votes}
use hpcore.Consensus.VoteStatus.{VoteCounter, reported}
use hpcore.Consensus.Proposing.{vote_for, vote_for_all, passes}

-- Everything that the candidates name, in turn.
abbrev pub named : (Proposal → List Bytes) → Proposals → List Bytes
named field [] = []
named field ((k, cp) ∷ a) = field cp ++ named field a

module _ (now : ℕ) (cfg : ConsensusConfig) (ctx : Context) where
  pub voted_outputs :
      (a : Proposals) (v : VoteCounter)
      → (vote_for_all now cfg ctx a v).output_hash
        ≡ count_votes bytes_ordered (reported (λ cp. cp.output_hash) a) v.output_hash
  unfolding vote_for_all vote_for count_votes
  voted_outputs [] v = refl
  voted_outputs ((k, cp) ∷ a) v = voted_outputs a (vote_for now cfg ctx cp v)

abbrev passes_some : ℕ → ℕ → Option ℕ → Bool
passes_some required stage none = false
passes_some required stage (some n) = passes required stage n
