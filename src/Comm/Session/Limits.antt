-- ===== src/Comm/Session/Limits.antt =====
-- When a session is closed for its traffic or its silence, and that it is closed once.
use hpcore.Base.{
  ℕ, ◌+◌, ◌^◌, ◌<◌, ◌≤◌, ◌≡◌, refl, ap, ◌∙◌, ap, ◌∙◌, ◌↔◌, inl, inr, true, false, List, [], ◌∷◌,
  All, arith, if◌then◌else◌, Bool-cases,
}
use hpcore.Corebill.Tracker.{Tracker, report_violation}
use hpcore.Comm.Session.{
  Session, SessionThreshold, ThresholdType, CloseViolation, ChallengeStatus, challenge_verified,
  must_close, max_rawbytes_per_minute, max_dupmsgs_per_minute, max_badsigmsgs_per_minute,
  max_badmsgs_per_minute, idle_connection_timeout, violation_threshold_exceeded, mark_for_closure,
  is_closing, increment_metric, store, same_type, check_last_activity_rules, activity_timeout,
}

abbrev pub timeout_of : ChallengeStatus → ℕ → ℕ
timeout_of challenge_verified limit = limit
timeout_of _ limit = 5000

-- A session that is marked for closure stays as it is under further marks, and reports no further
-- violation: only the first reason counts.
pub mark_for_closure_once :
    (first second : CloseViolation) (now later : ℕ) (x : Session × Tracker)
    → mark_for_closure second later (mark_for_closure first now x) ≡ mark_for_closure first now x
unfolding mark_for_closure
mark_for_closure_once first second now later (s, tracker) = elim (Bool-cases (is_closing s.state)) [
  | inl e ↦ rw (e, e) refl
  | inr e ↦ rw e refl
]

same_type_refl : (type : ThresholdType) → same_type type type ≡ true
same_type_refl max_rawbytes_per_minute = refl
same_type_refl max_dupmsgs_per_minute = refl
same_type_refl max_badsigmsgs_per_minute = refl
same_type_refl max_badmsgs_per_minute = refl
same_type_refl idle_connection_timeout = refl

-- Increments of one metric, each an amount and its time.
pub increment_all : ThresholdType → List (ℕ × ℕ) → Session × Tracker → Session × Tracker
increment_all type [] x = x
increment_all type ((amount, now) ∷ es) x =
    increment_all type es (increment_metric type amount now x)

unfoldable pub total : List (ℕ × ℕ) → ℕ
total [] = 0
total ((amount, now) ∷ es) = amount + total es

module _ (type : ThresholdType) (limit interval start : ℕ) (positive : 0 < limit)
    (small : limit < 2 ^ 64) where
  abbrev threshold : ℕ → SessionThreshold
  threshold c = record {
    threshold_limit = limit;
    intervalms = interval;
    counter_value = c;
    timestamp = start;
  }

  abbrev InInterval : ℕ → Type 0
  InInterval now = (start ≤ now) × (now ≤ start + interval) × (now < 2 ^ 64)

  increment_counts :
      (c amount now : ℕ) (s : Session) (tracker : Tracker)
      → s.thresholds type ≡ threshold c
      → 0 < start
      → c + amount ≤ limit
      → InInterval now
      → increment_metric type amount now (s, tracker)
        ≡ (store type (threshold (c + amount)) s, tracker)
  unfolding increment_metric
  increment_counts c amount now s tracker e h le w = rw e (ground arith)

  increment_exceeds :
      (c amount now : ℕ) (s : Session) (tracker : Tracker)
      → s.thresholds type ≡ threshold c
      → 0 < start
      → limit < c + amount
      → c + amount < 2 ^ 64
      → InInterval now
      → increment_metric type amount now (s, tracker)
        ≡ mark_for_closure violation_threshold_exceeded now
            (store type (record (threshold 0) { timestamp = 0 }) s, tracker)
  unfolding increment_metric
  increment_exceeds c amount now s tracker e h over fits w = rw e (ground arith)

  increment_all_counts :
      (es : List (ℕ × ℕ)) (c : ℕ) (s : Session) (tracker : Tracker)
      → s.thresholds type ≡ threshold c
      → 0 < start
      → c + total es ≤ limit
      → All (λ e. InInterval e.1) es
      → let q = increment_all type es (s, tracker) in
        (q.0.thresholds type ≡ threshold (c + total es))
        × (q ≡ (record s { thresholds = q.0.thresholds }, tracker))
  unfolding increment_all total
  increment_all_counts [] c s tracker e h le w = (e ∙ ap threshold (omega arith), refl)
  increment_all_counts ((amount, now) ∷ es) c s tracker e h le w =
      let next = store type (threshold (c + amount)) s in
      let hit : next.thresholds type ≡ threshold (c + amount) = rw (same_type_refl type) in
      let ih = increment_all_counts es (c + amount) next tracker hit h (omega arith) w.1 in
      rw (increment_all, total, increment_counts c amount now s tracker e h (omega arith) w.0)
        (ih.0 ∙ ap threshold (omega arith), ih.1)

  abbrev fresh : SessionThreshold
  fresh = record {
    threshold_limit = limit;
    intervalms = interval;
    counter_value = 0;
    timestamp = 0;
  }

  increment_first :
      (amount : ℕ) (s : Session) (tracker : Tracker)
      → s.thresholds type ≡ fresh
      → amount ≤ limit
      → start < 2 ^ 64
      → increment_metric type amount start (s, tracker) ≡ (store type (threshold amount) s, tracker)
  unfolding increment_metric
  increment_first amount s tracker e le h = rw e (ground arith)

  close_reports :
      (now : ℕ) (t : SessionThreshold) (s : Session) (tracker : Tracker)
      → is_closing s.state ≡ false
      → let q = mark_for_closure violation_threshold_exceeded now (store type t s, tracker) in
        (q.0.state ≡ must_close)
        × (q.1 ≡ (
            if s.corebill_enabled
            then report_violation s.host_address s.is_ipv4 now tracker
            else tracker))
  unfolding mark_for_closure
  close_reports now t s tracker e = ground arith

  after_reports :
      (now : ℕ) (t : SessionThreshold) (p : Session × Tracker) (s : Session) (tracker : Tracker)
      (thresholds : ThresholdType → SessionThreshold)
      → p ≡ (record s { thresholds = thresholds }, tracker)
      → is_closing s.state ≡ false
      → let q = mark_for_closure violation_threshold_exceeded now (store type t p.0, p.1) in
        (q.0.state ≡ must_close)
        × (q.1 ≡ (
            if s.corebill_enabled
            then report_violation s.host_address s.is_ipv4 now tracker
            else tracker))
  after_reports now t p s tracker thresholds e live =
      rw e (close_reports now t (record s { thresholds = thresholds }) tracker live)

  -- The traffic of one interval, from the first increment of a fresh counter at `start`. While the
  -- total is within the limit, nothing changes but the thresholds; the increment that takes the
  -- total over the limit marks the session for closure, and reports the host to the tracker if the
  -- session is subject to it.
  pub over_limit_closes :
      (first : ℕ) (es : List (ℕ × ℕ)) (amount now : ℕ) (s : Session) (tracker : Tracker)
      → s.thresholds type ≡ fresh
      → is_closing s.state ≡ false
      → 0 < start
      → start < 2 ^ 64
      → All (λ e. InInterval e.1) es
      → first + total es ≤ limit
      → InInterval now
      → limit < first + total es + amount
      → first + total es + amount < 2 ^ 64
      → let p = increment_all type ((first, start) ∷ es) (s, tracker) in
        let q = increment_metric type amount now p in
        (p ≡ (record s { thresholds = p.0.thresholds }, tracker))
        × ((q.0.state ≡ must_close)
            × (q.1 ≡ (
                if s.corebill_enabled
                then report_violation s.host_address s.is_ipv4 now tracker
                else tracker)))
  unfolding increment_all
  over_limit_closes first es amount now s tracker e live pos fits w le inside over sum =
      let next = store type (threshold first) s in
      let hit : next.thresholds type ≡ threshold first = rw (same_type_refl type) in
      let (at_total, kept) = increment_all_counts es first next tracker hit pos le w in
      let p = increment_all type es (next, tracker) in
      let closes =
        increment_exceeds (first + total es) amount now p.0 p.1 at_total pos over sum inside in
      rw (increment_all, increment_first first s tracker e (omega arith) fits)
        (kept, rw closes (after_reports now fresh p s tracker p.0.thresholds kept live))

activity_timeout_lem :
    (s : Session) (c : ChallengeStatus) (limit : ℕ)
    → (s.thresholds idle_connection_timeout).threshold_limit ≡ limit
    → limit < 2 ^ 32
    → activity_timeout s c ≡ timeout_of c limit
unfolding activity_timeout
activity_timeout_lem s challenge_verified limit e small = rw e (omega arith)
activity_timeout_lem s _ limit e small = refl

-- A session is marked for inactivity exactly when it is not closing already, its timeout is not
-- zero, and the timeout has passed since its last activity; the timeout is five seconds until the
-- session is verified, and the idle limit from then on.
pub check_last_activity_rules_lem :
    (now limit : ℕ) (s : Session) (tracker : Tracker)
    → (s.thresholds idle_connection_timeout).threshold_limit ≡ limit
    → limit < 2 ^ 32
    → s.last_activity_timestamp ≤ now
    → now < 2 ^ 64
    → is_closing s.state ≡ false
    → let timeout = timeout_of s.challenge_status limit in
      ((check_last_activity_rules now (s, tracker)).0.state ≡ must_close)
      ↔ ((0 < timeout) × (s.last_activity_timestamp + timeout ≤ now))
unfolding check_last_activity_rules mark_for_closure
check_last_activity_rules_lem now limit s tracker e small past fits live =
    rw (activity_timeout_lem s s.challenge_status limit e small) (ground arith, ground arith)
