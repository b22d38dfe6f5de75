-- ===== src/P2p/Messages/Capacity.antt =====
-- The capacity that a node announces to its peers.
use hpcore.Base.{ℕ, ◌-◌, ◌^◌, ◌<◌, ◌≡◌, none, some, arith, ltb, if◌then◌else◌}
use hpcore.P2p.Messages.{calculate_available_capacity, announced_capacity}

-- A node with a limit on its connections, and no limit of their own on the known ones, announces the
-- connections that are left; with more connections than the limit it announces no limit at all. The
-- limit is positive and the numbers are below 2^15.
pub announced_capacity_lem :
    (max_connections connections known_remote_count : ℕ)
    → 0 < max_connections
    → max_connections < 2 ^ 15
    → connections < 2 ^ 15
    → announced_capacity
        (calculate_available_capacity max_connections 0 connections known_remote_count)
      ≡ (if ltb max_connections connections then none else some (max_connections - connections))
unfolding calculate_available_capacity
announced_capacity_lem max_connections connections known_remote_count pos small few = ground arith
