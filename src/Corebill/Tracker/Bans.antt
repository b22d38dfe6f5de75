-- ===== src/Corebill/Tracker/Bans.antt =====
-- When a host is banned, and what a report leaves alone.
use hpcore.Base.{
  ◌⊎◌, ℕ, ◌+◌, ◌*◌, ◌^◌, ◌<◌, ◌≤◌, ◌≡◌, refl, Bool, true, false, ◌++◌, List, [], ◌∷◌, none, some,
  Bytes, bytes_eq, arith, find, put, find-put, find-erase, All, All-put, All-erase, All-find, leb,
  length, bytes_keyed, Option-cases, Bool-cases, inl, inr,
}
use hpcore.Util.TtlSet.Reads.{exists-emplace}
use hpcore.Corebill.Tracker.{
  Tracker, ViolationStat, ban, exceeds, report_violation, is_banned, stat_of, next_stat,
  violation_threshold, ban_ttl_sec,
}

-- No counter passes the threshold, so none wraps around.
abbrev pub WithinThreshold : Tracker → Type 0
WithinThreshold t = All (λ e. e.1.counter ≤ violation_threshold) t.violation_counter

stat-WithinThreshold :
    (host : Bytes) (t : Tracker)
    → WithinThreshold t
    → (stat_of (find host t.violation_counter)).counter ≤ violation_threshold
stat-WithinThreshold host t h = elim (Option-cases (find host t.violation_counter)) [
  | inl e ↦ rw e (omega arith)
  | inr (stat, e) ↦
      rw e (All-find (λ s. s.counter ≤ violation_threshold) host stat t.violation_counter h e)
]

next_stat_small :
    (stat : ViolationStat) (now : ℕ)
    → exceeds stat now ≡ false
    → stat.counter ≤ violation_threshold
    → (next_stat stat now).counter ≤ violation_threshold
unfolding exceeds
next_stat_small stat now h small = ground arith

-- If no counter passes the threshold before a report, none does after it.
pub report-WithinThreshold :
    (host : Bytes) (ipv4 : Bool) (now : ℕ) (t : Tracker)
    → WithinThreshold t
    → WithinThreshold (report_violation host ipv4 now t)
unfolding report_violation
report-WithinThreshold host ipv4 now t h =
    let stat = stat_of (find host t.violation_counter) in
    let small : stat.counter ≤ violation_threshold = stat-WithinThreshold host t h in
    elim (Bool-cases (exceeds stat now)) [
      | inl over ↦
          rw over (All-erase (λ s. s.counter ≤ violation_threshold) host t.violation_counter h)
      | inr under ↦ rw under (
          All-put (λ s. s.counter ≤ violation_threshold) host (next_stat stat now)
            t.violation_counter (next_stat_small stat now under small) h)
    ]

-- A report says nothing about any other host: its violations and its ban are as before.
pub report_other :
    (host other : Bytes) (ipv4 : Bool) (now later : ℕ) (t : Tracker)
    → bytes_eq host other ≡ false
    → now + ban_ttl_sec * 1000 < 2 ^ 64
    → (find other (report_violation host ipv4 now t).violation_counter
        ≡ find other t.violation_counter)
      × ((is_banned other later (report_violation host ipv4 now t)).0 ≡ (is_banned other later t).0)
unfolding report_violation is_banned
report_other host other ipv4 now later t h small =
    let stat = stat_of (find host t.violation_counter) in
    ground (
      arith,
      find-erase host other t.violation_counter,
      find-put host other (next_stat stat now) t.violation_counter,
      exists-emplace host other t.banned_hosts (ban_ttl_sec * 1000) now later small,
    )

-- Violations of one host, at the given times.
unfoldable pub report_all : Bytes → Bool → List ℕ → Tracker → Tracker
report_all host ipv4 [] t = t
report_all host ipv4 (now ∷ times) t = report_all host ipv4 times (report_violation host ipv4 now t)

module _ (host : Bytes) (ipv4 : Bool) where
  -- No violation of the host is on record, or the window of those on record is over.
  abbrev pub StartsAfresh : Tracker → ℕ → Type 0
  StartsAfresh t now =
      (find host t.violation_counter ≡ none)
      ⊎ ((stat : ViolationStat) × (find host t.violation_counter ≡ some stat)
          × (stat.timestamp + 600000 < now))

  ban_clears : (now : ℕ) (t : Tracker) → find host (ban host ipv4 now t).violation_counter ≡ none
  unfolding ban
  ban_clears now t = rw (find-erase host host t.violation_counter, bytes_keyed.same_refl host)

  ban_appends :
      (now : ℕ) (t : Tracker)
      → (ban host ipv4 now t).ban_updates
        ≡ t.ban_updates ++ record { is_ban = true; is_ipv4 = ipv4; host = host; ttl_sec = 600 } ∷ []
  unfolding ban
  ban_appends now t = refl

  ban_holds :
      (now later : ℕ) (t : Tracker)
      → now + 600000 < 2 ^ 64
      → (is_banned host later (ban host ipv4 now t)).0 ≡ leb later (now + 600000)
  unfolding ban is_banned
  ban_holds now later t far = ground (
    arith,
    exists-emplace host host t.banned_hosts 600000 now later far,
    bytes_keyed.same_refl host,
  )

  report_first :
      (now : ℕ) (t : Tracker)
      → StartsAfresh t now
      → now < 2 ^ 64
      → report_violation host ipv4 now t ≡ record t {
        violation_counter = put host (record { counter = 1; timestamp = now }) t.violation_counter;
      }
  unfolding report_violation
  report_first now t (inl e) h = rw e (ground arith)
  report_first now t (inr (stat, e, old)) h = rw e (ground arith)

  module _ (start : ℕ) where
    abbrev InWindow : ℕ → Type 0
    InWindow now = (start ≤ now) × (now ≤ start + 600000) × (now < 2 ^ 64)

    report_counts :
        (c now : ℕ) (t : Tracker)
        → find host t.violation_counter ≡ some (record { counter = c; timestamp = start })
        → 0 < start
        → c < 5
        → InWindow now
        → report_violation host ipv4 now t ≡ record t {
          violation_counter =
              put host (record { counter = c + 1; timestamp = start }) t.violation_counter;
        }
    unfolding report_violation
    report_counts c now t e h small w = rw e (ground arith)

    report_bans :
        (now : ℕ) (t : Tracker)
        → find host t.violation_counter ≡ some (record { counter = 5; timestamp = start })
        → InWindow now
        → report_violation host ipv4 now t ≡ ban host ipv4 now t
    unfolding report_violation
    report_bans now t e w = rw e (ground arith)

    report_all_counts :
        (times : List ℕ) (c : ℕ) (t : Tracker)
        → find host t.violation_counter ≡ some (record { counter = c; timestamp = start })
        → 0 < start
        → c + length times ≤ 5
        → All InWindow times
        → let q = report_all host ipv4 times t in
          (find host q.violation_counter
            ≡ some (record { counter = c + length times; timestamp = start }))
          × (q.banned_hosts ≡ t.banned_hosts)
          × (q.ban_updates ≡ t.ban_updates)
    unfolding report_all
    report_all_counts [] c t e h small w = ground arith
    report_all_counts (now ∷ times) c t e h small w =
        let stat : ViolationStat = record { counter = c + 1; timestamp = start } in
        let q : Tracker = record t { violation_counter = put host stat t.violation_counter } in
        rw (report_all, report_counts c now t e h (omega arith) w.0)
          (ground (
            arith,
            find-put host host stat t.violation_counter,
            bytes_keyed.same_refl host,
            report_all_counts times (c + 1) q,
          ))

  module _ (first : ℕ) (middle : List ℕ) (last : ℕ) (t : Tracker) where
    -- If no violation of a host is on record, or those on record began more than ten minutes before, then
    -- of six reports within ten minutes from the first of them the sixth bans the host and none before
    -- does: five reports leave the bans and the queue of ban updates as they were; the sixth appends one
    -- update, clears the counter, and bans the host until ten minutes after it. (Six violations within ten
    -- minutes that straddle the end of a window that began earlier are not covered.)
    pub sixth_report_bans :
        StartsAfresh t first
        → 0 < first
        → first < 2 ^ 64
        → length middle ≡ 4
        → All (InWindow first) middle
        → InWindow first last
        → last + 600000 < 2 ^ 64
        → let five = report_all host ipv4 (first ∷ middle) t in
          let six = report_violation host ipv4 last five in
          (five.banned_hosts ≡ t.banned_hosts)
          × (five.ban_updates ≡ t.ban_updates)
          × (six.ban_updates
              ≡ t.ban_updates
                ++ record { is_ban = true; is_ipv4 = ipv4; host = host; ttl_sec = 600 } ∷ [])
          × (find host six.violation_counter ≡ none)
          × ((later : ℕ) → (is_banned host later six).0 ≡ leb later (last + 600000))
    unfolding report_all
    sixth_report_bans fresh pos small four within inside far =
        let stat : ViolationStat = record { counter = 1; timestamp = first } in
        let one : Tracker = record t { violation_counter = put host stat t.violation_counter } in
        let counted : find host one.violation_counter ≡ some stat =
          rw (find-put host host stat t.violation_counter, bytes_keyed.same_refl host) in
        let five = report_all_counts first middle 1 one counted pos (omega arith) within in
        let full : 1 + length middle ≡ 5 = omega arith in
        rw
          (
            report_all,
            report_first first t fresh small,
            report_bans first last (report_all host ipv4 middle one) (rw full at five.0) inside,
          )
          (
            five.1,
            five.2,
            ground (arith, ban_appends last (report_all host ipv4 middle one), five.2),
            ban_clears last (report_all host ipv4 middle one),
            λ later. ban_holds last later (report_all host ipv4 middle one) far,
          )
