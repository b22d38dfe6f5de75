-- ===== src/Hpfs/Sync/Requests.antt =====
-- What a round of the worker does with the requests: how many wait at a time, that none is lost, and
-- when everything is given up.
use hpcore.Base.{
  sym, ◌∙◌, ◌⊎◌, false, ℕ, zero, suc, ◌+◌, ◌-◌, ◌%◌, ◌^◌, ◌≤◌, ◌<◌, ◌≡◌, ◌↔◌, refl, Bool, true, not,
  List, [], ◌∷◌, Bytes, arith, All, bytes_keyed, length, count, ltb, length-put-le, Bool-cases, inl,
  inr,
}
use hpcore.Hpfs.Items.{SyncItem}
use hpcore.Hpfs.Sync.{
  HpfsSync, submit_request, request_key, visit, Visit, waits, resubmits, gives_up, count_after,
  Walk, walk_on, walk_submitted, submit_pending, perform_request_submissions, max_awaiting_requests,
  abandon_threshold, update_sync_status,
}
use hpcore.Hpfs.Sync.Covered.{CoveredBy, IsCovered, submit_request-IsCovered}

abbrev Requests : Type 0
Requests = List (Bytes × SyncItem)

walk_on-All :
    (ts : List SyncItem) (key : Bytes) (r : SyncItem) (v : Visit) (w : Walk)
    → CoveredBy ts r
    → All (λ e. CoveredBy ts e.1) w.submitted
    → All (λ e. CoveredBy ts e.1) (walk_on key r v w).submitted
walk_on-All ts key r waits w h hs = (h, hs)
walk_on-All ts key r (resubmits c) w h hs = (h, hs)
walk_on-All ts key r (gives_up c) w h hs = tt

walk_submitted-All :
    (timeout n : ℕ) (ts : List SyncItem) (m : Requests)
    → All (λ e. CoveredBy ts e.1) m
    → All (λ e. CoveredBy ts e.1) (walk_submitted timeout n m).submitted
unfolding walk_submitted
walk_submitted-All timeout n ts [] hs = tt
walk_submitted-All timeout n ts ((key, r) ∷ m) hs =
    let v = visit timeout n r in
    walk_on-All ts key r v (walk_submitted timeout (count_after n v) m) hs.0
      (walk_submitted-All timeout (count_after n v) ts m hs.1)

submit_pending-IsCovered :
    (slots : ℕ) (pending : List SyncItem) (s : HpfsSync)
    → All (CoveredBy s.ongoing_targets) pending
    → IsCovered s
    → IsCovered (submit_pending slots pending s).1
unfolding submit_pending submit_request
submit_pending-IsCovered zero pending s hs c = (hs, c.1)
submit_pending-IsCovered (suc slots) [] s hs c = (tt, c.1)
submit_pending-IsCovered (suc slots) (r ∷ rest) s hs c =
    submit_pending-IsCovered slots rest (submit_request r s) hs.1
      (submit_request-IsCovered r s hs.0 c)

pub perform_request_submissions-IsCovered :
    (timeout : ℕ) (s : HpfsSync) → IsCovered s → IsCovered (perform_request_submissions timeout s).1
unfolding perform_request_submissions update_sync_status
perform_request_submissions-IsCovered timeout s c =
    let w = walk_submitted timeout s.resubmissions_count s.submitted_requests in
    let walked : HpfsSync = record s {
      submitted_requests = w.submitted;
      resubmissions_count = w.count;
    } in
    let all =
      walk_submitted-All timeout s.resubmissions_count s.ongoing_targets s.submitted_requests c.1 in
    elim (Bool-cases w.abandoned) [
      | inl given_up ↦ rw given_up (tt, tt)
      | inr goes_on ↦ rw goes_on (
          submit_pending-IsCovered (max_awaiting_requests - length w.submitted) s.pending_requests
            walked c.0 (c.0, all))
    ]

walk_on-length :
    (key : Bytes) (r : SyncItem) (v : Visit) (w : Walk)
    → length (walk_on key r v w).submitted ≤ suc (length w.submitted)
walk_on-length key r waits w = omega arith
walk_on-length key r (resubmits c) w = omega arith
walk_on-length key r (gives_up c) w = omega arith

length-walk_submitted :
    (timeout n : ℕ) (m : Requests) → length (walk_submitted timeout n m).submitted ≤ length m
unfolding walk_submitted
length-walk_submitted timeout n [] = omega arith
length-walk_submitted timeout n ((key, r) ∷ m) =
    let v = visit timeout n r in
    omega (
      arith,
      walk_on-length key r v (walk_submitted timeout (count_after n v) m),
      length-walk_submitted timeout (count_after n v) m,
    )

length-submit_request :
    (r : SyncItem) (s : HpfsSync)
    → length (submit_request r s).submitted_requests ≤ suc (length s.submitted_requests)
unfolding submit_request
length-submit_request r s = ground (arith, length-put-le (request_key r) r s.submitted_requests)

length-submit_pending :
    (slots : ℕ) (pending : List SyncItem) (s : HpfsSync)
    → length (submit_pending slots pending s).1.submitted_requests
      ≤ slots + length s.submitted_requests
unfolding submit_pending
length-submit_pending zero pending s = omega arith
length-submit_pending (suc slots) [] s = omega arith
length-submit_pending (suc slots) (r ∷ rest) s =
    omega (arith, length-submit_pending slots rest (submit_request r s), length-submit_request r s)

-- After a round at most four requests wait for responses, or no more than before when there were
-- more, as the hints of peers can bring in any number.
pub awaiting_requests_bounded :
    (timeout n : ℕ) (s : HpfsSync)
    → max_awaiting_requests ≤ n
    → length s.submitted_requests ≤ n
    → length (perform_request_submissions timeout s).1.submitted_requests ≤ n
unfolding perform_request_submissions update_sync_status
awaiting_requests_bounded timeout n s low few =
    let w = walk_submitted timeout s.resubmissions_count s.submitted_requests in
    let walked : HpfsSync = record s {
      submitted_requests = w.submitted;
      resubmissions_count = w.count;
    } in
    let fewer = length-walk_submitted timeout s.resubmissions_count s.submitted_requests in
    let more =
      length-submit_pending (max_awaiting_requests - length w.submitted) s.pending_requests
        walked in
    elim (Bool-cases w.abandoned) [
      | inl given_up ↦ rw given_up (omega arith)
      | inr goes_on ↦ rw goes_on (omega (arith, more, fewer, low, few))
    ]

-- The submitted requests that have waited for long enough.
abbrev pub timed_out : ℕ → SyncItem → Bool
timed_out timeout r = not (ltb r.waiting_time timeout)

abbrev pub overdue : ℕ → Requests → ℕ
overdue timeout = count (λ e. timed_out timeout e.1)

abbrev pub Ending : ℕ → ℕ → Walk → Type 0
Ending n more w =
    ((w.abandoned ≡ true) ↔ ((0 < more) × (abandon_threshold < n + more)))
    × (w.abandoned ≡ true → abandon_threshold < w.count)

walk_lem :
    (timeout n : ℕ) (m : Requests)
    → n + length m < 2 ^ 16
    → Ending n (overdue timeout m) (walk_submitted timeout n m)
unfolding walk_submitted visit
walk_lem timeout n [] small = ground arith
walk_lem timeout n ((key, r) ∷ m) small = elim (Bool-cases (ltb r.waiting_time timeout)) [
  | inl early ↦ rw early (waiting (walk_lem timeout n m (omega (arith, small))))
  | inr late ↦
      let next : (n + 1) % 2 ^ 16 ≡ n + 1 = omega (arith, small) in
      elim (Bool-cases (ltb abandon_threshold (n + 1))) [
        | inl over ↦ rw (late, next, over) (ground (arith, over))
        | inr under ↦
            let rest = walk_lem timeout (n + 1) m (omega (arith, small)) in
            rw (late, next, under) (ground (arith, rest.0, rest.1, under))
      ]
]
  where
    waiting :
        Ending n (overdue timeout m) (walk_submitted timeout n m)
        → Ending n (overdue timeout m) (walk_on key r waits (walk_submitted timeout n m))
    waiting h = h

-- The result that tells of giving up.
abandons_flag :
    (timeout : ℕ) (s : HpfsSync)
    → s.resubmissions_count + length s.submitted_requests < 2 ^ 16
    → let late = overdue timeout s.submitted_requests in
      let (sent, abandoned) = (perform_request_submissions timeout s).0 in
      let t = (perform_request_submissions timeout s).1 in
      ((abandoned ≡ true) ↔ ((0 < late) × (abandon_threshold < s.resubmissions_count + late)))
      × ((abandoned ≡ false)
          ⊎ ((t.ongoing_targets ≡ [])
              × (t.pending_requests ≡ [])
              × (t.submitted_requests ≡ [])
              × (abandon_threshold < t.resubmissions_count)))
unfolding perform_request_submissions update_sync_status
abandons_flag timeout s small =
    let ending = walk_lem timeout s.resubmissions_count s.submitted_requests small in
    let w = walk_submitted timeout s.resubmissions_count s.submitted_requests in
    elim (Bool-cases w.abandoned) [
      | inl given_up ↦
          rw given_up
            ((λ h. ending.0.0 given_up, λ h. refl), inr (refl, refl, refl, ending.1 given_up))
      | inr goes_on ↦ rw goes_on ((λ h. cc, λ h. ground (arith, ending.0.1 h, goes_on)), inl refl)
    ]

submit_pending_targets :
    (slots : ℕ) (pending : List SyncItem) (s : HpfsSync)
    → (submit_pending slots pending s).1.ongoing_targets ≡ s.ongoing_targets
unfolding submit_pending submit_request
submit_pending_targets zero pending s = refl
submit_pending_targets (suc slots) [] s = refl
submit_pending_targets (suc slots) (r ∷ rest) s =
    submit_pending_targets slots rest (submit_request r s)

going_on_targets :
    (timeout : ℕ) (s : HpfsSync)
    → (perform_request_submissions timeout s).0.1 ≡ false
    → (perform_request_submissions timeout s).1.ongoing_targets ≡ s.ongoing_targets
unfolding perform_request_submissions
going_on_targets timeout s h =
    let w = walk_submitted timeout s.resubmissions_count s.submitted_requests in
    let walked : HpfsSync = record s {
      submitted_requests = w.submitted;
      resubmissions_count = w.count;
    } in
    elim (Bool-cases w.abandoned) [
      | inl given_up ↦ let gave_up : true ≡ false = rw given_up at h in cc
      | inr goes_on ↦ rw goes_on (
          submit_pending_targets (max_awaiting_requests - length w.submitted) s.pending_requests
            walked)
    ]

-- Giving up is due when some request has waited for the timeout and the resubmissions since the last
-- response, with those of this round, pass the limit of twenty.
abbrev pub IsDue : ℕ → HpfsSync → Type 0
IsDue timeout s =
    (0 < overdue timeout s.submitted_requests)
    × (abandon_threshold < s.resubmissions_count + overdue timeout s.submitted_requests)

-- If the resubmissions fit into 16 bits, then either giving up is due and after the round no target and no
-- request is left, with a counter above twenty, or it is not due and the targets are as before.
pub abandons_exactly :
    (timeout : ℕ) (s : HpfsSync)
    → s.resubmissions_count + length s.submitted_requests < 2 ^ 16
    → let t = (perform_request_submissions timeout s).1 in
      (IsDue timeout s
        × (t.ongoing_targets ≡ [])
        × (t.pending_requests ≡ [])
        × (t.submitted_requests ≡ [])
        × (abandon_threshold < t.resubmissions_count))
      ⊎ ((¬ (IsDue timeout s)) × (t.ongoing_targets ≡ s.ongoing_targets))
abandons_exactly timeout s small =
    let (flag, rest) = abandons_flag timeout s small in
    elim (Bool-cases (perform_request_submissions timeout s).0.1) [
      | inl given_up ↦ elim rest [
        | inl went_on ↦ let gave_up : true ≡ false = sym given_up ∙ went_on in cc
        | inr (targets, pending, submitted, over) ↦
            inl (flag.0 given_up, targets, pending, submitted, over)
      ]
      | inr goes_on ↦ inr (
        λ due. let gave_up : false ≡ true = sym goes_on ∙ flag.1 due in cc,
        going_on_targets timeout s goes_on,
      )
    ]

-- Giving up does not reset the counter of resubmissions: until a response arrives, any later round in
-- which some request has waited for the timeout gives up again, at the first resubmission. The
-- resubmissions fit into 16 bits.
pub abandons_again :
    (timeout : ℕ) (s u : HpfsSync)
    → s.resubmissions_count + length s.submitted_requests < 2 ^ 16
    → u.resubmissions_count + length u.submitted_requests < 2 ^ 16
    → (perform_request_submissions timeout s).0.1 ≡ true
    → u.resubmissions_count ≡ (perform_request_submissions timeout s).1.resubmissions_count
    → 0 < overdue timeout u.submitted_requests
    → (perform_request_submissions timeout u).0.1 ≡ true
abandons_again timeout s u small_s small_u gave_up kept late =
    elim (abandons_flag timeout s small_s).1 [
      | inl went_on ↦ cc
      | inr (targets, pending, submitted, over) ↦
          (abandons_flag timeout u small_u).0.1 (late, omega (arith, over, kept))
    ]
