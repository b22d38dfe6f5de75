-- ===== src/Tests/NodeTests.antt =====
-- Runs of the tracker, the sessions and the nonce map, and their theorems at concrete inputs.
use hpcore.Base.{
  inl, ℕ, suc, ◌+◌, ◌<◌, ◌≤◌, ◌≡◌, ◌≢◌, ◌↔◌, ◌^◌, refl, Bool, true, false, not, List, [], ◌∷◌, ◌++◌,
  Option, none, some, Bytes, bytes_eq, leb, if◌then◌else◌, length, arith, find, put, erase,
  bytes_keyed,
}
use hpcore.Util.TtlSet
use hpcore.Corebill.Tracker
use hpcore.Corebill.Tracker.{Tracker, BanUpdate, report_violation, is_banned}
use hpcore.Corebill.Tracker.Bans.{report_all, sixth_report_bans}
use hpcore.Comm.Session.{Session, active, not_issued}
use hpcore.Usr.NonceMap
use hpcore.Usr.NonceMap.Replay.{
  Submission, submit_all, accepted_blocks_older, resubmitted_misreported,
}

abbrev host : Bytes
host = 10 ∷ []

abbrev times : List ℕ
times = 1001 ∷ 1002 ∷ 1003 ∷ 1004 ∷ []

abbrev five_reports : Tracker
five_reports = report_all host true (1000 ∷ times) Tracker.init

sixth_report_bans_example :
    (five_reports.banned_hosts ≡ TtlSet.empty)
    × (five_reports.ban_updates ≡ [])
    × ((report_violation host true 1005 five_reports).ban_updates
        ≡ [] ++ record { is_ban = true; is_ipv4 = true; host = host; ttl_sec = 600 } ∷ [])
    × (find host (report_violation host true 1005 five_reports).violation_counter ≡ none)
    × ((later : ℕ)
        → (is_banned host later (report_violation host true 1005 five_reports)).0
          ≡ leb later (1005 + 600000))
unfolding find
sixth_report_bans_example =
    sixth_report_bans host true 1000 times 1005 Tracker.init (inl refl) (omega arith) (omega arith)
      refl (omega arith) (omega arith) (omega arith)

-- Six violations within six seconds, that straddle the end of a window, ban no one.
straddling :
    (report_all host true
      (1 ∷ 599000 ∷ 601002 ∷ 602000 ∷ 603000 ∷ 604000 ∷ 605000 ∷ [])
      Tracker.init).ban_updates
    ≡ []
unfolding report_all report_violation find put bytes_eq
straddling = refl

abbrev session : Session
session = record {
  thresholds = λ type. record {
    threshold_limit = 100;
    intervalms = 60000;
    counter_value = 0;
    timestamp = 0;
  };
  corebill_enabled = true;
  host_address = host;
  is_ipv4 = true;
  state = active;
  challenge_status = not_issued;
  last_activity_timestamp = 1000;
}

abbrev user : Bytes
user = 1 ∷ []

abbrev sig : Bytes
sig = 2 ∷ []

abbrev other_sig : Bytes
other_sig = 3 ∷ []

first_check :
    NonceMap.check user 5 sig 100 false 10 1000 []
    ≡ (0, (user, record { nonce = 5; sig = sig; max_ledger_seq_no = 100 }) ∷ [])
unfolding NonceMap.check find put
first_check = refl

-- Another user submits in between.
abbrev in_between : List Submission
in_between =
    record {
      pubkey = 8 ∷ [];
      nonce = 9;
      sig = other_sig;
      max = 50;
      no_add = false;
      lcl = 10;
      now = 1500;
    }
    ∷ []

accepted_blocks_older_example :
    (NonceMap.check user 4 other_sig 90 false 20 2000
      (submit_all in_between (NonceMap.check user 5 sig 100 false 10 1000 []).1)).0
    ≢ 0
unfolding NonceMap.check find bytes_eq
accepted_blocks_older_example =
    accepted_blocks_older user [] 5 100 10 1000 sig in_between 4 90 20 2000 other_sig false refl
      (refl, tt) (omega arith) (omega arith) (omega arith)

abbrev one_entry : NonceMap.NonceMap
one_entry = (user, record { nonce = 5; sig = sig; max_ledger_seq_no = 100 }) ∷ []

resubmitted_misreported_example :
    ((NonceMap.check user 6 other_sig 100 false 10 1000 one_entry).0 ≡ 0)
    × ((NonceMap.check user 6 other_sig 100 false 20 2000
          (NonceMap.check user 6 other_sig 100 false 10 1000 one_entry).1).0
        ≡ 1)
unfolding find bytes_eq
resubmitted_misreported_example =
    resubmitted_misreported user one_entry
      (record { nonce = 5; sig = sig; max_ledger_seq_no = 100 }) 6 100 10 1000 20 2000 other_sig
      refl (omega arith) (omega arith) refl (omega arith)

-- A map of n users, each with an entry that ends at ledger 100.
many : ℕ → NonceMap.NonceMap
many ℕ.zero = []
many (suc n) = (9 ∷ n ∷ [], record { nonce = 5; sig = sig; max_ledger_seq_no = 100 }) ∷ many n

many-absent : (n : ℕ) → find user (many n) ≡ none
unfolding many find bytes_eq
many-absent ℕ.zero = refl
many-absent (suc n) = many-absent n

length-many : (n : ℕ) → length (many n) ≡ n
unfolding many
length-many ℕ.zero = refl
length-many (suc n) = hpcore.Base.ap suc (length-many n)

many_behind : (n : ℕ) → hpcore.Base.All (λ e. e.1.max_ledger_seq_no ≤ 5000) (many n)
unfolding many
many_behind ℕ.zero = tt
many_behind (suc n) = (omega arith, many_behind n)
