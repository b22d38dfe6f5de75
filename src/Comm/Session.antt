-- ===== src/Comm/Session.antt =====
-- src/comm/comm_session.cpp, comm_session.hpp and comm_session_threshold.hpp: the state of a
-- session, its traffic thresholds and the way it is marked for closure. Each operation takes the
-- violation tracker that the session refers to, and the clock. The queues, the threads and the
-- socket are left out, and so is the text of a violation, which is only logged.
pub mod Limits
use hpcore.Base.{
  ℕ, ◌+◌, Bool, true, false, not, ◌&&◌, ◌||◌, Bytes, ltb, leb, ◌==◌, if◌then◌else◌, wrap32, wrap64,
  sub64,
}
use hpcore.Corebill.Tracker.{Tracker, report_violation}

pub data ThresholdType : Type 0 where
  max_rawbytes_per_minute max_dupmsgs_per_minute : ThresholdType
  max_badsigmsgs_per_minute max_badmsgs_per_minute idle_connection_timeout : ThresholdType

pub record SessionThreshold : Type 0 where
  pub threshold_limit : ℕ
  pub intervalms : ℕ
  pub counter_value : ℕ
  pub timestamp : ℕ

pub data ChallengeStatus : Type 0 where
  not_issued challenge_issued challenge_verified : ChallengeStatus

pub data SessionState : Type 0 where
  unset active must_close closed : SessionState

pub data CloseViolation : Type 0 where
  violation_none violation_msg_read violation_read_error : CloseViolation
  violation_threshold_exceeded violation_inactivity violation_irrelevant_known_peer : CloseViolation

-- The vector of thresholds has one entry for each type, and is indexed by the type.
pub record Session : Type 0 where
  pub thresholds : ThresholdType → SessionThreshold
  pub corebill_enabled : Bool
  pub host_address : Bytes
  pub is_ipv4 : Bool
  pub state : SessionState
  pub challenge_status : ChallengeStatus
  pub last_activity_timestamp : ℕ

abbrev pub intervalms : ℕ
intervalms = 60000

abbrev pub unverified_inactive_timeout : ℕ
unverified_inactive_timeout = 5000

abbrev same_type : ThresholdType → ThresholdType → Bool
same_type max_rawbytes_per_minute max_rawbytes_per_minute = true
same_type max_dupmsgs_per_minute max_dupmsgs_per_minute = true
same_type max_badsigmsgs_per_minute max_badsigmsgs_per_minute = true
same_type max_badmsgs_per_minute max_badmsgs_per_minute = true
same_type idle_connection_timeout idle_connection_timeout = true
same_type _ _ = false

-- `thresholds[type] = t`.
abbrev pub store : ThresholdType → SessionThreshold → Session → Session
store type t s = record s {
  thresholds = λ other. if same_type type other then t else s.thresholds other;
}

pub create : Bytes → Bool → (ThresholdType → ℕ) → Bool → Session
create host_address is_ipv4 metric_thresholds corebill_enabled = record {
  thresholds = λ type. record {
    threshold_limit = metric_thresholds type;
    intervalms = intervalms;
    counter_value = 0;
    timestamp = 0;
  };
  corebill_enabled = corebill_enabled;
  host_address = host_address;
  is_ipv4 = is_ipv4;
  state = unset;
  challenge_status = not_issued;
  last_activity_timestamp = 0;
}

pub set_threshold : ThresholdType → ℕ → ℕ → Session → Session
set_threshold type limit interval s =
    store type
      (record (s.thresholds type) {
        counter_value = 0;
        intervalms = interval;
        threshold_limit = limit;
      })
      s

is_violation : CloseViolation → Bool
is_violation violation_none = false
is_violation _ = true

unfoldable pub is_closing : SessionState → Bool
is_closing must_close = true
is_closing closed = true
is_closing _ = false

unfoldable pub mark_for_closure : CloseViolation → ℕ → Session × Tracker → Session × Tracker
unfolding is_violation is_closing
mark_for_closure reason now (s, tracker) = if is_closing s.state then (s, tracker) else (
  record s { state = must_close },
  if s.corebill_enabled && is_violation reason
      then report_violation s.host_address s.is_ipv4 now tracker
      else tracker,
)

-- `handle_connect`, which the derived classes override, is given by whether it failed.
init_at : SessionState → Bool → ℕ → Session × Tracker → Session × Tracker
init_at unset failed now (s, tracker) =
    if failed
    then mark_for_closure violation_none now (s, tracker)
    else (record s { state = active; last_activity_timestamp = now }, tracker)
init_at _ failed now x = x

pub init : Bool → ℕ → Session × Tracker → Session × Tracker
unfolding init_at mark_for_closure
init failed now (s, tracker) = init_at s.state failed now (s, tracker)

abbrev counted : SessionThreshold → ℕ → ℕ → SessionThreshold
counted t amount now = record t {
  counter_value = wrap64 (t.counter_value + amount);
  timestamp = if t.timestamp == 0 then now else t.timestamp;
}

-- The checks of `increment_metric`, after the counter is increased to `t`.
check_threshold : ThresholdType → SessionThreshold → ℕ → ℕ → Session × Tracker → Session × Tracker
check_threshold type t amount now (s, tracker) =
    let elapsed_time = sub64 now t.timestamp in
    if leb elapsed_time t.intervalms && ltb t.threshold_limit t.counter_value
    then mark_for_closure violation_threshold_exceeded now
        (store type (record t { timestamp = 0; counter_value = 0 }) s, tracker)
    else if ltb t.intervalms elapsed_time
    then (store type (record t { timestamp = now; counter_value = amount }) s, tracker)
    else (store type t s, tracker)

unfoldable pub increment_metric : ThresholdType → ℕ → ℕ → Session × Tracker → Session × Tracker
unfolding check_threshold
increment_metric type amount now (s, tracker) =
    let t = s.thresholds type in
    if t.threshold_limit == 0
    then (s, tracker)
    else check_threshold type (counted t amount now) amount now (s, tracker)

-- The limit of a verified session is narrowed to 32 bits.
activity_timeout : Session → ChallengeStatus → ℕ
activity_timeout s challenge_verified =
    wrap32 (s.thresholds idle_connection_timeout).threshold_limit
activity_timeout s _ = unverified_inactive_timeout

unfoldable pub check_last_activity_rules : ℕ → Session × Tracker → Session × Tracker
unfolding activity_timeout
check_last_activity_rules now (s, tracker) =
    let timeout = activity_timeout s s.challenge_status in
    if (timeout == 0) || ltb (sub64 now s.last_activity_timestamp) timeout
    then (s, tracker)
    else mark_for_closure violation_inactivity now (s, tracker)

unfoldable pub mark_as_verified : Session → Session
mark_as_verified s = record s { challenge_status = challenge_verified }
