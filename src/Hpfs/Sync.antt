-- ===== src/Hpfs/Sync.antt =====
-- src/hpfs/hpfs_sync.cpp: the worker that syncs a file system towards its targets. The file system,
-- the messages of peers and the hash functions are arguments; a request that is sent comes back as a
-- value. The checks for the shutdown of the node, after which the worker stops, are left out.
-- The walk over the submitted requests ends where all targets are abandoned: there the source clears
-- the container that it is walking over.
pub mod Covered
pub mod Requests
pub mod Losses
pub mod Keyed
use hpcore.Base.{
  is_prefix, is_nil, ℕ, zero, suc, ◌+◌, ◌-◌, ◌%◌, ◌^◌, Bool, true, false, not, ◌&&◌, ◌||◌, ◌++◌,
  List, [], ◌∷◌, Option, none, some, Bytes, bytes_eq, bytes_keyed, if◌then◌else◌, find, contains,
  put, erase, remove_if, select, length, ltb, leb, ◌==◌, set_insert, wrap32,
}
use hpcore.Util.SequenceHash.{H32, h32_eq, h32_ne, h32_empty}
use hpcore.Consensus.Proposing.{to_string_view}
use hpcore.Hpfs.Items.{SyncItem, SyncItemType, dir, file, block, item_ordered}

pub record HpfsSync : Type 0 where
  pub incoming_targets : List SyncItem
  pub ongoing_targets : List SyncItem
  pub pending_requests : List SyncItem
  pub submitted_requests : List (Bytes × SyncItem)
  pub resubmissions_count : ℕ
  pub rw_session_active : Bool
  pub is_syncing : Bool

abbrev pub idle_wait : ℕ
idle_wait = 40

abbrev pub max_awaiting_requests : ℕ
max_awaiting_requests = 4

abbrev pub abandon_threshold : ℕ
abandon_threshold = 20

abbrev pub new_target : Bool → Bytes → H32 → Bool → SyncItem
new_target is_dir vpath hash high_priority = record {
  item_type = if is_dir then dir else file;
  vpath = vpath;
  block_id = none;
  expected_hash = hash;
  high_priority = high_priority;
  waiting_time = 0;
}

unfoldable pub set_target : Bool → Bytes → H32 → Bool → HpfsSync → HpfsSync
set_target is_dir vpath hash high_priority s = record s {
  incoming_targets =
      set_insert item_ordered (new_target is_dir vpath hash high_priority) s.incoming_targets;
  is_syncing = true;
}

-- `std::find_if` among the targets, and the removal of what it finds.
unfoldable pub find_target : (SyncItem → Bool) → List SyncItem → Option SyncItem
find_target p [] = none
find_target p (t ∷ ts) = if p t then some t else find_target p ts

unfoldable pub erase_target : (SyncItem → Bool) → List SyncItem → List SyncItem
erase_target p [] = []
erase_target p (t ∷ ts) = let rest = erase_target p ts in if p t then ts else t ∷ rest

-- `TARGET_OF_REQUEST`: the targets whose path is an ancestor of the path.
abbrev pub is_target_of : Bytes → SyncItem → Bool
is_target_of vpath t = is_prefix t.vpath vpath

abbrev pub is_at : Bytes → SyncItem → Bool
is_at vpath t = bytes_eq t.vpath vpath

-- Clears the target that a test has found, with the requests under it.
unfoldable pub clear_target : (SyncItem → Bool) → Bytes → HpfsSync → HpfsSync
clear_target found vpath s = record s {
  pending_requests = select (λ r. not (is_prefix vpath r.vpath)) s.pending_requests;
  submitted_requests = remove_if (λ r. is_prefix vpath r.vpath) s.submitted_requests;
  ongoing_targets = erase_target found s.ongoing_targets;
}

abbrev pub add_target : SyncItem → HpfsSync → HpfsSync
add_target target s = record s {
  ongoing_targets = s.ongoing_targets ++ target ∷ [];
  pending_requests = set_insert item_ordered target s.pending_requests;
}

abbrev pub take_target : SyncItem → Option SyncItem → HpfsSync → HpfsSync
take_target target none s = add_target target s
take_target target (some ex) s =
    if h32_ne ex.expected_hash target.expected_hash
    then add_target target (clear_target (is_at target.vpath) ex.vpath s)
    else s

unfoldable pub take_targets : List SyncItem → HpfsSync → HpfsSync
take_targets [] s = s
take_targets (target ∷ rest) s =
    take_targets rest (take_target target (find_target (is_at target.vpath) s.ongoing_targets) s)

-- Whether the worker goes on. The file system says whether it acquires and releases its session.
unfoldable pub check_incoming_targets : Bool → Bool → HpfsSync → Bool × HpfsSync
check_incoming_targets acquires releases s =
    let t = record (take_targets s.incoming_targets s) { incoming_targets = [] } in
    let idle = is_nil t.ongoing_targets in
    if not t.rw_session_active && not idle
    then (if acquires then (true, record t { rw_session_active = true }) else (false, t))
    else if t.rw_session_active && idle
    then (if releases then (true, record t { rw_session_active = false }) else (false, t))
    else (true, t)

unfoldable pub update_sync_status : HpfsSync → HpfsSync
update_sync_status s = record s {
  is_syncing = not (is_nil s.incoming_targets) || not (is_nil s.ongoing_targets);
}

-- The path with the bytes of the hash.
abbrev pub request_key : SyncItem → Bytes
request_key request = request.vpath ++ to_string_view request.expected_hash

abbrev pub try_emplace : Bytes → SyncItem → List (Bytes × SyncItem) → List (Bytes × SyncItem)
try_emplace key request m = if contains key m then m else put key request m

-- Starts to watch for the response; what is sent to a peer is the caller's to return.
unfoldable pub submit_request : SyncItem → HpfsSync → HpfsSync
submit_request request s = record s {
  submitted_requests = try_emplace (request_key request) request s.submitted_requests;
}

-- What happens to a submitted request in a round of the worker: it waits, or the resubmissions are
-- counted, and it is sent again or everything is given up.
pub data Visit : Type 0 where
  waits : Visit
  resubmits gives_up : ℕ → Visit

abbrev pub count_resubmission : ℕ → Visit
count_resubmission count = if ltb abandon_threshold count then gives_up count else resubmits count

unfoldable pub visit : ℕ → ℕ → SyncItem → Visit
visit timeout count request =
    if ltb request.waiting_time timeout then waits else count_resubmission ((count + 1) % 2 ^ 16)

-- The requests after the walk, those that are sent again, the counter, and whether to give up.
pub record Walk : Type 0 where
  pub submitted : List (Bytes × SyncItem)
  pub sent : List SyncItem
  pub count : ℕ
  pub abandoned : Bool

abbrev pub count_after : ℕ → Visit → ℕ
count_after count waits = count
count_after count (resubmits c) = c
count_after count (gives_up c) = c

abbrev pub walk_on : Bytes → SyncItem → Visit → Walk → Walk
walk_on key request waits w = record w {
  submitted =
      (key, record request { waiting_time = wrap32 (request.waiting_time + idle_wait) })
      ∷ w.submitted;
}
walk_on key request (resubmits c) w = record w {
  submitted = (key, record request { waiting_time = 0 }) ∷ w.submitted;
  sent = record request { waiting_time = 0 } ∷ w.sent;
}
walk_on key request (gives_up c) w = record {
  submitted = [];
  sent = [];
  count = c;
  abandoned = true;
}

unfoldable pub walk_submitted : ℕ → ℕ → List (Bytes × SyncItem) → Walk
walk_submitted timeout count [] = record {
  submitted = [];
  sent = [];
  count = count;
  abandoned = false;
}
walk_submitted timeout count ((key, request) ∷ rest) =
    let v = visit timeout count request in
    walk_on key request v (walk_submitted timeout (count_after count v) rest)

abbrev pub abandon : HpfsSync → HpfsSync
abandon s =
    update_sync_status
      (record s { pending_requests = []; submitted_requests = []; ongoing_targets = [] })

-- As many of the pending requests as there are slots, in the order of their priority.
unfoldable pub submit_pending : ℕ → List SyncItem → HpfsSync → List SyncItem × HpfsSync
submit_pending zero pending s = ([], record s { pending_requests = pending })
submit_pending (suc slots) [] s = ([], record s { pending_requests = [] })
submit_pending (suc slots) (r ∷ rest) s =
    let (sent, t) = submit_pending slots rest (submit_request r s) in (r ∷ sent, t)

-- The requests that are sent, whether the targets are given up (which the source only logs), and the state.
unfoldable pub perform_request_submissions : ℕ → HpfsSync → (List SyncItem × Bool) × HpfsSync
perform_request_submissions timeout s =
    let w = walk_submitted timeout s.resubmissions_count s.submitted_requests in
    let walked = record s { submitted_requests = w.submitted; resubmissions_count = w.count } in
    let slots = max_awaiting_requests - length w.submitted in
    let (sent, t) = submit_pending slots s.pending_requests walked in
    if w.abandoned then ((w.sent, true), abandon walked) else ((w.sent ++ sent, false), t)
