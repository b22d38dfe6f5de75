-- ===== src/Status/Latencies.antt =====
-- The averages that are reported lie between the least and the greatest latency.
use hpcore.Base.{ℕ, ◌-◌, ◌*◌, ◌^◌, ◌≤◌, ◌≡◌, List, All}
use hpcore.Consensus.Types.{Proposal}
use hpcore.Status.{Status, Latency, comm_latency, read_latency}

-- The sum of `count` latencies below the bound lies between so many times the least and the greatest.
record IsBetween (bound count : ℕ) (l : Latency) : Type 0 where
  fresh : (count ≡ 0) → (l.least ≡ 2 ^ 64 - 1) × (l.greatest ≡ 0)
  above_least : count * l.least ≤ l.total
  below_greatest : l.total ≤ count * l.greatest
  within : l.total ≤ count * bound

-- Every latency of a batch is within the bound.
abbrev pub AreWithin : ℕ → ℕ → List Proposal → Type 0
AreWithin bound now = All (λ p. (comm_latency p ≤ bound) × (read_latency now p ≤ bound))
