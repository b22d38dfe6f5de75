-- ===== src/Tests/SyncTests.antt =====
-- The sync worker at concrete inputs: a target that is set, looked at and requested.
use hpcore.Base.{
  ◌⊎◌, ℕ, ◌-◌, ◌<◌, ◌≡◌, refl, true, false, List, [], ◌∷◌, ◌++◌, Bytes, bytes_eq, arith,
  bytes_keyed, contains, length,
}
use hpcore.Util.SequenceHash.{h32_empty}
use hpcore.Consensus.Proposing.{to_string_view}
use hpcore.Hpfs.Items.{SyncItem}
use hpcore.Hpfs.Sync.{
  visit, HpfsSync, set_target, check_incoming_targets, perform_request_submissions, walk_submitted,
  max_awaiting_requests, abandon_threshold, new_target,
}
use hpcore.Hpfs.Sync.Requests.{IsDue, abandons_exactly}
use hpcore.Hpfs.Sync.Losses.{Submits, no_request_lost}
use hpcore.Hpfs.Responses.Handlers.{IsSound}
use hpcore.Hpfs.Responses.Targets.{
  idle, Reachable, start, next, sets, looks, submits, Reachable-IsSound,
}

abbrev path : Bytes
path = 47 ∷ 115 ∷ []

abbrev target_set : HpfsSync
target_set = set_target false path h32_empty true idle

abbrev looked : HpfsSync
looked = (check_incoming_targets true true target_set).1

abbrev requested : HpfsSync
requested = (perform_request_submissions 1000 looked).1

abbrev reached : Reachable requested
reached =
    next looked requested
      (next target_set looked (next idle target_set start (sets false path h32_empty true idle))
        (looks true true target_set))
      (submits 1000 looked)

Reachable-IsSound_example : IsSound requested
Reachable-IsSound_example = Reachable-IsSound requested reached

abbrev waiting : ℕ → ℕ → HpfsSync
waiting time count = record idle {
  submitted_requests = (path ++ to_string_view h32_empty, late) ∷ [];
  pending_requests = late ∷ [];
  resubmissions_count = count;
}
  where
    late : SyncItem
    late = record (new_target true path h32_empty false) { waiting_time = time }

no_request_lost_example :
    let t = (perform_request_submissions 1000 (waiting 40 0)).1 in
    let w = walk_submitted 1000 0 (waiting 40 0).submitted_requests in
    (contains (path ++ to_string_view h32_empty) t.submitted_requests ≡ true)
    × ((sent : List SyncItem) × ((perform_request_submissions 1000 (waiting 40 0)).0.0
          ≡ w.sent ++ sent)
        × Submits
            (max_awaiting_requests - length w.submitted)
            (waiting 40 0).pending_requests
            sent
            t)
unfolding perform_request_submissions walk_submitted visit contains bytes_eq
no_request_lost_example =
    no_request_lost 1000 (waiting 40 0) (path ++ to_string_view h32_empty) refl refl

abandons_exactly_example :
    let t = (perform_request_submissions 1000 (waiting 2000 20)).1 in
    (IsDue 1000 (waiting 2000 20)
      × (t.ongoing_targets ≡ [])
      × (t.pending_requests ≡ [])
      × (t.submitted_requests ≡ [])
      × (abandon_threshold < t.resubmissions_count))
    ⊎ ((IsDue 1000 (waiting 2000 20) → ⊥) × (t.ongoing_targets ≡ (waiting 2000 20).ongoing_targets))
abandons_exactly_example = abandons_exactly 1000 (waiting 2000 20) (omega arith)
