-- ===== src/Consensus/Votes.antt =====
-- src/consensus.cpp: the voting tables (`increment`), and the loop that elects the entry with most
-- votes. A table is a `std::map` from candidates to their votes.
pub mod Tally
pub mod Quorum
use hpcore.Base.{
  ℕ, suc, ◌+◌, List, [], ◌∷◌, Option, none, some, ltb, if◌then◌else◌, wrap32, Ordered, map_find,
  map_put, map_emplace,
}

abbrev pub Table {ℓ} : Type ℓ → Type ℓ
Table K = List (K × ℕ)

module _ {ℓ} {K : Type ℓ} (o : Ordered K) where
  increment_at : K → Option ℕ → Table K → Table K
  increment_at candidate none counter = map_emplace o candidate 1 counter
  increment_at candidate (some n) counter = map_put o candidate (wrap32 (n + 1)) counter

  unfoldable pub increment : K → Table K → Table K
  unfolding increment_at
  increment candidate counter = increment_at candidate (map_find o candidate counter) counter

  -- One vote for each of the candidates, in turn.
  unfoldable pub count_votes : List K → Table K → Table K
  count_votes [] counter = counter
  count_votes (candidate ∷ rest) counter = count_votes rest (increment candidate counter)

-- The loop over a table that keeps the first entry with strictly more votes than those before.
unfoldable pub elect {ℓ} : {K : Type ℓ} → Table K → K → ℕ → K × ℕ
elect [] winner winning_votes = (winner, winning_votes)
elect ((candidate, votes) ∷ rest) winner winning_votes =
    if ltb winning_votes votes then elect rest candidate votes else elect rest winner winning_votes
