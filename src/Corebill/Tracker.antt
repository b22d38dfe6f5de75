-- ===== src/Corebill/Tracker.antt =====
-- src/corebill/tracker.cpp and corebill.hpp. The mutex serialises the operations, so each is one
-- function on the state. The clock is an argument; the reason is only logged, and left out.
pub mod Bans
use hpcore.Base.{
  ℕ, ◌+◌, ◌*◌, Bool, true, false, ◌&&◌, ◌||◌, ◌++◌, List, [], ◌∷◌, Option, none, some, Bytes, find,
  put, erase, ltb, leb, ◌==◌, if◌then◌else◌, bytes_keyed, wrap32, sub64,
}
use hpcore.Util.TtlSet.{TtlSet}
use hpcore.Util.TtlSet

abbrev pub violation_threshold : ℕ
violation_threshold = 5

-- In milliseconds.
abbrev pub violation_refresh_interval : ℕ
violation_refresh_interval = 600000

abbrev pub ban_ttl_sec : ℕ
ban_ttl_sec = 600

pub record ViolationStat : Type 0 where
  pub counter : ℕ
  pub timestamp : ℕ

pub record BanUpdate : Type 0 where
  pub is_ban : Bool
  pub is_ipv4 : Bool
  pub host : Bytes
  pub ttl_sec : ℕ

pub record Tracker : Type 0 where
  pub violation_counter : List (Bytes × ViolationStat)
  pub banned_hosts : TtlSet
  -- The queue that hpws reads, oldest first.
  pub ban_updates : List BanUpdate

abbrev pub init : Tracker
init = record { violation_counter = []; banned_hosts = TtlSet.empty; ban_updates = [] }

-- `violation_counter[host]` makes a zero entry for a host that has none.
abbrev pub stat_of : Option ViolationStat → ViolationStat
stat_of none = record { counter = 0; timestamp = 0 }
stat_of (some stat) = stat

ban : Bytes → Bool → ℕ → Tracker → Tracker
ban host ipv4 now t = record {
  violation_counter = erase host t.violation_counter;
  banned_hosts = TtlSet.emplace host (ban_ttl_sec * 1000) now t.banned_hosts;
  ban_updates =
      t.ban_updates
      ++ record { is_ban = true; is_ipv4 = ipv4; host = host; ttl_sec = ban_ttl_sec } ∷ [];
}

abbrev pub next_stat : ViolationStat → ℕ → ViolationStat
next_stat stat now =
    if (stat.timestamp == 0) || ltb violation_refresh_interval (sub64 now stat.timestamp)
    then record { counter = 1; timestamp = now }
    else record stat { counter = wrap32 (stat.counter + 1) }

-- Whether one more violation passes the threshold within the time window.
exceeds : ViolationStat → ℕ → Bool
exceeds stat now =
    leb (sub64 now stat.timestamp) violation_refresh_interval
    && ltb violation_threshold (wrap32 (stat.counter + 1))

unfoldable pub report_violation : Bytes → Bool → ℕ → Tracker → Tracker
unfolding exceeds ban
report_violation host ipv4 now t =
    let stat = stat_of (find host t.violation_counter) in
    if exceeds stat now
    then ban host ipv4 now t
    else record t { violation_counter = put host (next_stat stat now) t.violation_counter }

unfoldable pub is_banned : Bytes → ℕ → Tracker → Bool × Tracker
is_banned host now t =
    let (banned, hosts) = TtlSet.exists host now t.banned_hosts in
    (banned, record t { banned_hosts = hosts })
