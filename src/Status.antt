-- ===== src/Status.antt =====
-- src/status.cpp and src/status.hpp: what the node tells of itself, and the queue of change events.
-- Whether the queue takes one more event is decided by its library, and is an argument.
pub mod Latencies
use hpcore.Base.{
  ℕ, ◌+◌, ◌-◌, ◌*◌, ◌/◌, ◌^◌, Bool, true, false, not, ◌&&◌, ◌++◌, List, [], ◌∷◌, Bytes, length, ltb,
  ◌==◌, if◌then◌else◌, wrap64, sub64,
}
use hpcore.Util.SequenceHash.{SequenceHash}
use hpcore.Consensus.Types.{Proposal}
use hpcore.Consensus.VoteStatus.{VoteStatus, unknown, unreliable, desync, synced}
use hpcore.P2p.Types.{PeerIpPort}
use hpcore.Ledger.Records.{LedgerRecord}

pub record ProposalHealth : Type 0 where
  pub comm_latency_min : ℕ
  pub comm_latency_max : ℕ
  pub comm_latency_avg : ℕ
  pub read_latency_min : ℕ
  pub read_latency_max : ℕ
  pub read_latency_avg : ℕ
  pub batch_size : ℕ

pub record ConnectivityHealth : Type 0 where
  pub peer_count : ℕ
  pub is_weakly_connected : Bool

pub data ChangeEvent : Type 0 where
  unl_change : List Bytes → ChangeEvent
  ledger_created_event : LedgerRecord → ChangeEvent
  vote_status_change : VoteStatus → ChangeEvent
  proposal_health : ProposalHealth → ChangeEvent
  connectivity_health : ConnectivityHealth → ChangeEvent

-- The capacity is a 16-bit pattern.
pub record Status : Type 0 where
  pub lcl_id : SequenceHash
  pub last_ledger : LedgerRecord
  pub vote_status : VoteStatus
  pub unl : List Bytes
  pub peers : List PeerIpPort
  pub peer_count : ℕ
  pub weakly_connected : Bool
  pub available_mesh_capacity : ℕ
  pub phealth : ProposalHealth
  pub event_queue : List ChangeEvent

pub record HealthConfig : Type 0 where
  pub proposal_stats : Bool
  pub connectivity_stats : Bool

abbrev pub status_number : VoteStatus → ℕ
status_number unknown = 0
status_number unreliable = 1
status_number desync = 2
status_number synced = 3

abbrev pub same_bool : Bool → Bool → Bool
same_bool true b = b
same_bool false b = not b

module _ (room : List ChangeEvent → Bool) where
  abbrev pub try_enqueue : ChangeEvent → Status → Status
  try_enqueue e s =
      if room s.event_queue then record s { event_queue = s.event_queue ++ e ∷ [] } else s

  unfoldable pub ledger_created : SequenceHash → LedgerRecord → Status → Status
  ledger_created ledger_id ledger s =
      try_enqueue (ledger_created_event ledger)
        (record s { lcl_id = ledger_id; last_ledger = ledger })

  unfoldable pub set_vote_status : VoteStatus → Status → Status
  set_vote_status new_status s =
      if status_number new_status == status_number s.vote_status
      then s
      else try_enqueue (vote_status_change new_status) (record s { vote_status = new_status })

  unfoldable pub unl_changed : List Bytes → Status → Status
  unl_changed new_unl s = try_enqueue (unl_change new_unl) (record s { unl = new_unl })

  abbrev pub tell_connectivity : HealthConfig → Status → Status
  tell_connectivity cfg s =
      if cfg.connectivity_stats
      then try_enqueue
          (connectivity_health
            (record { peer_count = s.peer_count; is_weakly_connected = s.weakly_connected }))
          s
      else s

  unfoldable pub set_peers : HealthConfig → List PeerIpPort → Status → Status
  set_peers cfg updated_peers s =
      let s' = record s { peers = updated_peers } in
      if length updated_peers == s.peer_count
      then s'
      else tell_connectivity cfg (record s' { peer_count = length updated_peers })

  unfoldable pub set_weakly_connected : HealthConfig → Bool → Status → Status
  set_weakly_connected cfg is_weakly_connected s =
      if same_bool s.weakly_connected is_weakly_connected
      then s
      else tell_connectivity cfg (record s { weakly_connected = is_weakly_connected })

  unfoldable pub emit_proposal_health : HealthConfig → Status → Status
  emit_proposal_health cfg s =
      if cfg.proposal_stats then try_enqueue (proposal_health s.phealth) s else s

unfoldable pub init_ledger : SequenceHash → LedgerRecord → Status → Status
init_ledger ledger_id ledger s = record s { lcl_id = ledger_id; last_ledger = ledger }

unfoldable pub init_unl : List Bytes → Status → Status
init_unl unl s = record s { unl = unl }

unfoldable pub set_available_mesh_capacity : ℕ → Status → Status
set_available_mesh_capacity new_capacity s = record s { available_mesh_capacity = new_capacity }

-- The least, the greatest and the sum of a latency.
pub record Latency : Type 0 where
  pub least : ℕ
  pub greatest : ℕ
  pub total : ℕ

abbrev pub no_latency : Latency
no_latency = record { least = 2 ^ 64 - 1; greatest = 0; total = 0 }

unfoldable pub add_latency : ℕ → Latency → Latency
add_latency latency l = record {
  least = if ltb latency l.least then latency else l.least;
  greatest = if ltb l.greatest latency then latency else l.greatest;
  total = wrap64 (l.total + latency);
}

abbrev pub comm_latency : Proposal → ℕ
comm_latency p =
    if ltb p.sent_timestamp p.recv_timestamp then p.recv_timestamp - p.sent_timestamp else 0

abbrev pub read_latency : ℕ → Proposal → ℕ
read_latency now p = sub64 now p.recv_timestamp

unfoldable pub add_latencies : ℕ → List Proposal → Latency × Latency → Latency × Latency
add_latencies now [] ls = ls
add_latencies now (p ∷ ps) (comm, read) =
    add_latencies now ps (add_latency (comm_latency p) comm, add_latency (read_latency now p) read)

abbrev pub health_of : Latency → Latency → ℕ → ProposalHealth
health_of comm read batch_size = record {
  comm_latency_min = comm.least;
  comm_latency_max = comm.greatest;
  comm_latency_avg = comm.total / batch_size;
  read_latency_min = read.least;
  read_latency_max = read.greatest;
  read_latency_avg = read.total / batch_size;
  batch_size = batch_size;
}

-- Of an empty batch the least latencies stay at the greatest number of 64 bits.
unfoldable pub report_proposal_batch : HealthConfig → ℕ → List Proposal → Status → Status
report_proposal_batch cfg now proposals s =
    let (comm, read) = add_latencies now proposals (no_latency, no_latency) in
    if not cfg.proposal_stats
    then s
    else if length proposals == 0
    then record s { phealth = record (health_of no_latency no_latency 1) { batch_size = 0 } }
    else record s { phealth = health_of comm read (length proposals) }
