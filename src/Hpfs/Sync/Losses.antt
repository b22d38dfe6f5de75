-- ===== src/Hpfs/Sync/Losses.antt =====
-- No request is lost on its way from the pending to the submitted ones.
use hpcore.Base.{
  ℕ, zero, suc, ◌-◌, ◌≡◌, ◌⊎◌, inl, inr, refl, ap, ◌∙◌, Bool, true, false, ◌++◌, List, [], ◌∷◌,
  Bytes, arith, if◌then◌else◌, All, bytes_keyed, put, contains, length, Bool-cases,
}
use hpcore.Hpfs.Items.{SyncItem}
use hpcore.Hpfs.Sync.{
  HpfsSync, submit_request, request_key, visit, Visit, waits, resubmits, gives_up, count_after,
  Walk, walk_on, walk_submitted, submit_pending, perform_request_submissions, max_awaiting_requests,
}

-- The worker watches for the response to a request.
abbrev pub IsWatched : HpfsSync → SyncItem → Type 0
IsWatched s r = contains (request_key r) s.submitted_requests ≡ true

contains-put :
    (q p : Bytes) (v : SyncItem) (m : List (Bytes × SyncItem))
    → contains p (put q v m) ≡ (if bytes_keyed.same q p then true else contains p m)
unfolding contains put
contains-put q p v [] = refl
contains-put q p v ((j, w) ∷ m) = ground (arith, bytes_keyed.same_cong j q p, contains-put q p v m)

submit-watches : (r : SyncItem) (s : HpfsSync) → IsWatched (submit_request r s) r
unfolding submit_request
submit-watches r s = ground (
  arith,
  contains-put (request_key r) (request_key r) r s.submitted_requests,
  bytes_keyed.same_refl (request_key r),
)

submit-keeps :
    (key : Bytes) (r : SyncItem) (s : HpfsSync)
    → contains key s.submitted_requests ≡ true
    → contains key (submit_request r s).submitted_requests ≡ true
unfolding submit_request
submit-keeps key r s h = ground (arith, contains-put (request_key r) key r s.submitted_requests)

pending-keeps :
    (slots : ℕ) (pending : List SyncItem) (key : Bytes) (s : HpfsSync)
    → contains key s.submitted_requests ≡ true
    → contains key (submit_pending slots pending s).1.submitted_requests ≡ true
unfolding submit_pending
pending-keeps zero pending key s h = h
pending-keeps (suc slots) [] key s h = h
pending-keeps (suc slots) (r ∷ rest) key s h =
    pending-keeps slots rest key (submit_request r s) (submit-keeps key r s h)

-- The requests that are sent are the first pending ones, the rest stays, and what is sent is watched.
abbrev pub Submits : ℕ → List SyncItem → List SyncItem → HpfsSync → Type 0
Submits slots pending sent t =
    (pending ≡ sent ++ t.pending_requests)
    × All (IsWatched t) sent
    × ((length sent ≡ slots) ⊎ (t.pending_requests ≡ []))

submits :
    (slots : ℕ) (pending : List SyncItem) (s : HpfsSync)
    → Submits slots pending (submit_pending slots pending s).0 (submit_pending slots pending s).1
unfolding submit_pending
submits zero pending s = (refl, tt, inl refl)
submits (suc slots) [] s = (refl, tt, inr refl)
submits (suc slots) (r ∷ rest) s =
    let (split, watched, full) = submits slots rest (submit_request r s) in
    (
      ap (λ (rs : List SyncItem). r ∷ rs) split,
      (pending-keeps slots rest (request_key r) (submit_request r s) (submit-watches r s), watched),
      elim full [ inl n ↦ inl (ap suc n) | inr none_left ↦ inr none_left ],
    )

walk-keeps :
    (timeout n : ℕ) (key : Bytes) (m : List (Bytes × SyncItem))
    → (walk_submitted timeout n m).abandoned ≡ false
    → contains key (walk_submitted timeout n m).submitted ≡ contains key m
unfolding walk_submitted contains
walk-keeps timeout n key [] h = refl
walk-keeps timeout n key ((j, r) ∷ m) h =
    on (visit timeout n r) (walk_submitted timeout (count_after n (visit timeout n r)) m)
      (walk-keeps timeout (count_after n (visit timeout n r)) key m) h
  where
    on :
        (v : Visit) (w : Walk)
        → (w.abandoned ≡ false → contains key w.submitted ≡ contains key m)
        → (walk_on j r v w).abandoned ≡ false
        → contains key (walk_on j r v w).submitted
          ≡ (if bytes_keyed.same j key then true else contains key m)
    on waits w same h = ap (λ (b : Bool). if bytes_keyed.same j key then true else b) (same h)
    on (resubmits c) w same h =
        ap (λ (b : Bool). if bytes_keyed.same j key then true else b) (same h)
    on (gives_up c) w same h = cc

-- In a round that does not give up, a request that was watched still is. Of the pending requests
-- the first ones, in the order of priority, are sent after those that are sent again, and are
-- watched; the others stay pending. As many are sent as there are slots, or none stays.
pub no_request_lost :
    (timeout : ℕ) (s : HpfsSync) (key : Bytes)
    → (perform_request_submissions timeout s).0.1 ≡ false
    → contains key s.submitted_requests ≡ true
    → let t = (perform_request_submissions timeout s).1 in
      let w = walk_submitted timeout s.resubmissions_count s.submitted_requests in
      (contains key t.submitted_requests ≡ true)
      × ((sent : List SyncItem) × ((perform_request_submissions timeout s).0.0 ≡ w.sent ++ sent)
          × Submits (max_awaiting_requests - length w.submitted) s.pending_requests sent t)
unfolding perform_request_submissions
no_request_lost timeout s key stays h =
    let w = walk_submitted timeout s.resubmissions_count s.submitted_requests in
    let walked : HpfsSync = record s {
      submitted_requests = w.submitted;
      resubmissions_count = w.count;
    } in
    let slots = max_awaiting_requests - length w.submitted in
    elim (Bool-cases w.abandoned) [
      | inl given_up ↦ let gave_up : true ≡ false = rw given_up at stays in cc
      | inr goes_on ↦ rw goes_on (
        pending-keeps slots s.pending_requests key walked
            (walk-keeps timeout s.resubmissions_count key s.submitted_requests goes_on ∙ h),
        (
          (submit_pending slots s.pending_requests walked).0,
          refl,
          submits slots s.pending_requests walked,
        ),
      )
    ]
