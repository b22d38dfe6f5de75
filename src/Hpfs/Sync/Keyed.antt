-- ===== src/Hpfs/Sync/Keyed.antt =====
-- Every submitted request stands under the key of its path and hash.
use hpcore.Base.{
  is_prefix, ℕ, zero, suc, ◌-◌, ◌≡◌, refl, Bool, true, false, List, [], ◌∷◌, Option, none, some,
  Bytes, bytes_eq, All, bytes_keyed, put, erase, contains, remove_if, length, arith, Bool-cases,
  inl, inr,
}
use hpcore.Util.SequenceHash.{h32_ne}
use hpcore.Hpfs.Items.{SyncItem}
use hpcore.Hpfs.Sync.{
  HpfsSync, find_target, is_at, clear_target, take_target, take_targets, check_incoming_targets,
  submit_request, request_key, visit, Visit, waits, resubmits, gives_up, count_after, Walk, walk_on,
  walk_submitted, submit_pending, perform_request_submissions, update_sync_status,
  max_awaiting_requests,
}

abbrev pub Submitted : Type 0
Submitted = Bytes × SyncItem

-- A submitted request stands under the key of its path and hash.
abbrev pub IsKeyed : HpfsSync → Type 0
IsKeyed s = All (λ (e : Submitted). e.0 ≡ request_key e.1) s.submitted_requests

module _ (P : Submitted → Type 0) where
  put_new-All :
      (q : Bytes) (v : SyncItem) (m : List Submitted)
      → P (q, v)
      → contains q m ≡ false
      → All P m
      → All P (put q v m)
  unfolding put contains
  put_new-All q v [] h absent hs = (h, tt)
  put_new-All q v ((j, w) ∷ m) h absent hs = elim (Bool-cases (bytes_keyed.same j q)) [
    | inl same ↦ let there : true ≡ false = rw same at absent in cc
    | inr other ↦ rw other (hs.0, put_new-All q v m h (rw other at absent) hs.1)
  ]

  pub erase-All : (q : Bytes) (m : List Submitted) → All P m → All P (erase q m)
  unfolding erase
  erase-All q [] hs = tt
  erase-All q ((j, w) ∷ m) hs = elim (Bool-cases (bytes_keyed.same j q)) [
    | inl same ↦ rw same (erase-All q m hs.1)
    | inr other ↦ rw other (hs.0, erase-All q m hs.1)
  ]

  pub remove_if-still : (p : SyncItem → Bool) (m : List Submitted) → All P m → All P (remove_if p m)
  unfolding remove_if
  remove_if-still p [] hs = tt
  remove_if-still p ((j, w) ∷ m) hs = elim (Bool-cases (p w)) [
    | inl goes ↦ rw goes (remove_if-still p m hs.1)
    | inr stays ↦ rw stays (hs.0, remove_if-still p m hs.1)
  ]

  -- The entry that a key is found under.
  pub contains-All :
      (q : Bytes) (m : List Submitted)
      → contains q m ≡ true
      → All P m
      → (e : Submitted) × (bytes_eq e.0 q ≡ true) × P e
  unfolding contains
  contains-All q [] h hs = cc
  contains-All q ((j, w) ∷ m) h hs = elim (Bool-cases (bytes_keyed.same j q)) [
    | inl same ↦ ((j, w), same, hs.0)
    | inr other ↦ contains-All q m (rw other at h) hs.1
  ]

pub submit_request-IsKeyed :
    (r : SyncItem) (s : HpfsSync) → IsKeyed s → IsKeyed (submit_request r s)
unfolding submit_request
submit_request-IsKeyed r s k = elim (Bool-cases (contains (request_key r) s.submitted_requests)) [
  | inl there ↦ rw there k
  | inr absent ↦ rw absent (
      put_new-All (λ e. e.0 ≡ request_key e.1) (request_key r) r s.submitted_requests refl absent k)
]

pub clear_target-IsKeyed :
    (found : SyncItem → Bool) (vpath : Bytes) (s : HpfsSync)
    → IsKeyed s
    → IsKeyed (clear_target found vpath s)
unfolding clear_target
clear_target-IsKeyed found vpath s k =
    remove_if-still (λ e. e.0 ≡ request_key e.1) (λ r. is_prefix vpath r.vpath) s.submitted_requests
      k

take_target-IsKeyed :
    (target : SyncItem) (o : Option SyncItem) (s : HpfsSync)
    → IsKeyed s
    → IsKeyed (take_target target o s)
take_target-IsKeyed target none s k = k
take_target-IsKeyed target (some ex) s k =
    elim (Bool-cases (h32_ne ex.expected_hash target.expected_hash)) [
      | inl obsolete ↦ rw obsolete (clear_target-IsKeyed (is_at target.vpath) ex.vpath s k)
      | inr same ↦ rw same k
    ]

take_targets-IsKeyed :
    (targets : List SyncItem) (s : HpfsSync) → IsKeyed s → IsKeyed (take_targets targets s)
unfolding take_targets
take_targets-IsKeyed [] s k = k
take_targets-IsKeyed (t ∷ ts) s k =
    let o = find_target (is_at t.vpath) s.ongoing_targets in
    take_targets-IsKeyed ts (take_target t o s) (take_target-IsKeyed t o s k)

pub check_incoming_targets-IsKeyed :
    (acquires releases : Bool) (s : HpfsSync)
    → IsKeyed s
    → IsKeyed (check_incoming_targets acquires releases s).1
unfolding check_incoming_targets
check_incoming_targets-IsKeyed acquires releases s k =
    let kept : (check_incoming_targets acquires releases s).1.submitted_requests
        ≡ (take_targets s.incoming_targets s).submitted_requests =
      ground arith in
    rw kept (take_targets-IsKeyed s.incoming_targets s k)

walk_on-IsKeyed :
    (key : Bytes) (r : SyncItem) (v : Visit) (w : Walk)
    → key ≡ request_key r
    → All (λ (e : Submitted). e.0 ≡ request_key e.1) w.submitted
    → All (λ (e : Submitted). e.0 ≡ request_key e.1) (walk_on key r v w).submitted
walk_on-IsKeyed key r waits w h hs = (h, hs)
walk_on-IsKeyed key r (resubmits c) w h hs = (h, hs)
walk_on-IsKeyed key r (gives_up c) w h hs = tt

walk_submitted-IsKeyed :
    (timeout n : ℕ) (m : List Submitted)
    → All (λ (e : Submitted). e.0 ≡ request_key e.1) m
    → All (λ (e : Submitted). e.0 ≡ request_key e.1) (walk_submitted timeout n m).submitted
unfolding walk_submitted
walk_submitted-IsKeyed timeout n [] hs = tt
walk_submitted-IsKeyed timeout n ((key, r) ∷ m) hs =
    let v = visit timeout n r in
    walk_on-IsKeyed key r v (walk_submitted timeout (count_after n v) m) hs.0
      (walk_submitted-IsKeyed timeout (count_after n v) m hs.1)

submit_pending-IsKeyed :
    (slots : ℕ) (pending : List SyncItem) (s : HpfsSync)
    → IsKeyed s
    → IsKeyed (submit_pending slots pending s).1
unfolding submit_pending
submit_pending-IsKeyed zero pending s k = k
submit_pending-IsKeyed (suc slots) [] s k = k
submit_pending-IsKeyed (suc slots) (r ∷ rest) s k =
    submit_pending-IsKeyed slots rest (submit_request r s) (submit_request-IsKeyed r s k)

pub perform_request_submissions-IsKeyed :
    (timeout : ℕ) (s : HpfsSync) → IsKeyed s → IsKeyed (perform_request_submissions timeout s).1
unfolding perform_request_submissions update_sync_status
perform_request_submissions-IsKeyed timeout s k =
    let w = walk_submitted timeout s.resubmissions_count s.submitted_requests in
    let walked : HpfsSync = record s {
      submitted_requests = w.submitted;
      resubmissions_count = w.count;
    } in
    elim (Bool-cases w.abandoned) [
      | inl given_up ↦ rw given_up tt
      | inr goes_on ↦ rw goes_on (
          submit_pending-IsKeyed (max_awaiting_requests - length w.submitted) s.pending_requests
            walked (walk_submitted-IsKeyed timeout s.resubmissions_count s.submitted_requests k))
    ]
