-- ===== src/Usr/NonceMap/Replay.antt =====
-- What the nonce map refuses, what it forgets, and what it tells apart.
use hpcore.Base.{
  ◌∙◌, List, ℕ, suc, ◌+◌, ◌<◌, ◌≤◌, ◌≡◌, ◌≢◌, refl, ap, Bool, true, false, ◌||◌, [], ◌∷◌, Option,
  none, some, Bytes, bytes_eq, bytes_keyed, find, put, find-put, length, length-put-le,
  length-put_new, remove_if-All, ltb, leb, All, All-put, arith, Option-cases, inl, inr,
}
use hpcore.Usr.NonceMap.{Entry, NonceMap, cleanup, cleanup_threshold, judge, remember, tidy, check}

tidy_small : (now : ℕ) (m : NonceMap) → length m ≤ cleanup_threshold → tidy now m ≡ m
tidy_small now m h = ground arith

All-past :
    (now : ℕ) (m : NonceMap)
    → All (λ e. e.1.max_ledger_seq_no ≤ now) m
    → All (λ e. leb e.1.max_ledger_seq_no now ≡ true) m
All-past now [] h = tt
All-past now (e ∷ m) h = (ground arith, All-past now m h.1)

tidy_forgets :
    (now : ℕ) (m : NonceMap)
    → cleanup_threshold < length m
    → All (λ e. e.1.max_ledger_seq_no ≤ now) m
    → tidy now m ≡ []
unfolding cleanup
tidy_forgets now m full past =
    let over : ltb cleanup_threshold (length m) ≡ true = ground arith in
    rw over (remove_if-All (λ e. leb e.max_ledger_seq_no now) m (All-past now m past))

refused :
    (pubkey : Bytes) (older later_max later_lcl later : ℕ) (other_sig : Bytes) (no_add : Bool)
    (e : Entry) (n : NonceMap)
    → find pubkey n ≡ some e
    → older ≤ e.nonce
    → later_lcl < e.max_ledger_seq_no
    → (check pubkey older other_sig later_max no_add later_lcl later n).0 ≢ 0
unfolding check
refused pubkey older later_max later_lcl later other_sig no_add e n found le live =
    rw found (ground arith)

-- What a submission hands to the map, with the last ledger and the time.
pub record Submission : Type 0 where
  pub pubkey : Bytes
  pub nonce : ℕ
  pub sig : Bytes
  pub max : ℕ
  pub no_add : Bool
  pub lcl : ℕ
  pub now : ℕ

abbrev pub submit : Submission → NonceMap → NonceMap
submit s m = (check s.pubkey s.nonce s.sig s.max s.no_add s.lcl s.now m).1

-- Submissions in turn.
pub submit_all : List Submission → NonceMap → NonceMap
submit_all [] m = m
submit_all (s ∷ rest) m = submit_all rest (submit s m)

length-kept :
    (q : Bytes) (no_add : Bool) (kept : Option Entry) (m : NonceMap)
    → length (remember q no_add kept m) ≤ suc (length m)
length-kept q no_add none m = omega arith
length-kept q true (some e) m = omega arith
length-kept q false (some e) m = length-put-le q e m

find-kept :
    (q pubkey : Bytes) (no_add : Bool) (kept : Option Entry) (m : NonceMap)
    → bytes_eq q pubkey ≡ false
    → find pubkey (remember q no_add kept m) ≡ find pubkey m
find-kept q pubkey no_add none m other = refl
find-kept q pubkey true (some e) m other = refl
find-kept q pubkey false (some e) m other = rw (find-put q pubkey e m, other)

-- A submission leaves the entries of other users, in a map that it does not make too large.
submit_other :
    (pubkey : Bytes) (s : Submission) (m : NonceMap)
    → bytes_eq s.pubkey pubkey ≡ false
    → length m < cleanup_threshold
    → (find pubkey (submit s m) ≡ find pubkey m) × (length (submit s m) ≤ suc (length m))
unfolding check
submit_other pubkey s m other small =
    let kept = (judge (find s.pubkey m) s.nonce s.sig s.max s.lcl).1 in
    let few = length-kept s.pubkey s.no_add kept m in
    rw (tidy_small s.now (remember s.pubkey s.no_add kept m) (omega (arith, few)))
      (find-kept s.pubkey pubkey s.no_add kept m other, few)

submit_all_others :
    (pubkey : Bytes) (others : List Submission) (m : NonceMap)
    → All (λ s. bytes_eq s.pubkey pubkey ≡ false) others
    → length m + length others ≤ cleanup_threshold
    → find pubkey (submit_all others m) ≡ find pubkey m
unfolding submit_all
submit_all_others pubkey [] m hs small = refl
submit_all_others pubkey (s ∷ rest) m hs small =
    let (same, few) = submit_other pubkey s m hs.0 (omega (arith, small)) in
    submit_all_others pubkey rest (submit s m) hs.1 (omega (arith, small, few)) ∙ same

module _ (pubkey : Bytes) (m : NonceMap) where
  -- After an accepted input, in a map too small to be cleaned up, the entry of the user holds the
  -- new nonce and the new limit.
  accepted_entry :
      (nonce max lcl now : ℕ) (sig : Bytes)
      → (check pubkey nonce sig max false lcl now m).0 ≡ 0
      → length m < cleanup_threshold
      → (e : Entry) × (find pubkey (check pubkey nonce sig max false lcl now m).1 ≡ some e)
        × (e.nonce ≡ nonce)
        × (e.max_ledger_seq_no ≡ max)
  unfolding check
  accepted_entry nonce max lcl now sig ok small = elim (Option-cases (find pubkey m)) [
    | inl absent ↦
        let e : Entry = record { nonce = nonce; sig = sig; max_ledger_seq_no = max } in
        rw (absent, tidy_small now (put pubkey e m) (omega (arith, length-put-le pubkey e m)))
          (e, rw (find-put pubkey pubkey e m, bytes_keyed.same_refl pubkey), refl, refl)
    | inr (old, present) ↦
        let e : Entry = record old { nonce = nonce; max_ledger_seq_no = max } in
        let fresh : (leb old.max_ledger_seq_no lcl || ltb old.nonce nonce) ≡ true = ground arith in
        rw
          (
            present,
            fresh,
            tidy_small now (put pubkey e m) (omega (arith, length-put-le pubkey e m)),
          )
          (e, rw (find-put pubkey pubkey e m, bytes_keyed.same_refl pubkey), refl, refl)
  ]

  -- The first input of a user, sent again while the ledger has not reached its limit, is told to be
  -- a duplicate. But once the entry is updated by an input with another signature than the one that
  -- it was made with, that input sent again is told to be expired: the stored signature is that of
  -- the first input for good.
  pub resubmitted_misreported :
      (e : Entry) (nonce max lcl now later_lcl later : ℕ) (sig : Bytes)
      → find pubkey m ≡ some e
      → length m < cleanup_threshold
      → e.nonce < nonce
      → bytes_eq e.sig sig ≡ false
      → later_lcl < max
      → let (verdict, after) = check pubkey nonce sig max false lcl now m in
        (verdict ≡ 0) × ((check pubkey nonce sig max false later_lcl later after).0 ≡ 1)
  unfolding check
  resubmitted_misreported e nonce max lcl now later_lcl later sig found small new other live =
      let e' : Entry = record e { nonce = nonce; max_ledger_seq_no = max } in
      let fresh : (leb e.max_ledger_seq_no lcl || ltb e.nonce nonce) ≡ true = ground arith in
      rw
        (
          found,
          fresh,
          tidy_small now (put pubkey e' m) (omega (arith, length-put-le pubkey e' m)),
          find-put pubkey pubkey e' m,
          bytes_keyed.same_refl pubkey,
        )
        (refl, ground arith)

  -- The cleanup compares ledger sequence numbers with the clock in milliseconds. While all of them
  -- are behind the clock, the input that fills the map past the threshold empties it, its own entry
  -- included, and the very same input is accepted again.
  pub cleanup_forgets :
      (nonce max lcl now later_lcl later : ℕ) (sig : Bytes)
      → find pubkey m ≡ none
      → cleanup_threshold ≤ length m
      → All (λ e. e.1.max_ledger_seq_no ≤ now) m
      → max ≤ now
      → (check pubkey nonce sig max false lcl now m ≡ (0, []))
        × ((check pubkey nonce sig max false later_lcl later []).0 ≡ 0)
  unfolding check find
  cleanup_forgets nonce max lcl now later_lcl later sig absent full behind past =
      let e : Entry = record { nonce = nonce; sig = sig; max_ledger_seq_no = max } in
      rw absent (
        ap (λ (n : NonceMap). (0, n))
            (tidy_forgets now (put pubkey e m) (omega (arith, length-put_new pubkey e m absent))
              (All-put (λ e. e.max_ledger_seq_no ≤ now) pubkey e m past behind)),
        refl,
      )

length-remember-le :
    (pubkey : Bytes) (o : Option Entry) (m : NonceMap)
    → length (remember pubkey false o m) ≤ suc (length m)
length-remember-le pubkey none m = omega arith
length-remember-le pubkey (some e) m = length-put-le pubkey e m

length-check-le :
    (pubkey : Bytes) (nonce max lcl now : ℕ) (sig : Bytes) (m : NonceMap)
    → length m < cleanup_threshold
    → length (check pubkey nonce sig max false lcl now m).1 ≤ suc (length m)
unfolding check
length-check-le pubkey nonce max lcl now sig m small =
    let kept = (judge (find pubkey m) nonce sig max lcl).1 in
    rw
      (tidy_small now (remember pubkey false kept m)
        (omega (arith, length-remember-le pubkey kept m)))
      (length-remember-le pubkey kept m)

-- Once an input of a user is accepted with a nonce, that user's next input is refused if its nonce is not
-- greater, whatever its signature, as long as the ledger has not reached the accepted input's limit, and
-- whatever others submit in between. This is for a map that has so few users that none of these
-- submissions brings it past the size at which it is cleaned up.
pub accepted_blocks_older :
    (pubkey : Bytes) (m : NonceMap) (nonce max lcl now : ℕ) (sig : Bytes) (others : List Submission)
    (older later_max later_lcl later : ℕ) (other_sig : Bytes) (no_add : Bool)
    → (check pubkey nonce sig max false lcl now m).0 ≡ 0
    → All (λ s. bytes_eq s.pubkey pubkey ≡ false) others
    → length m + length others < cleanup_threshold
    → older ≤ nonce
    → later_lcl < max
    → (check pubkey older other_sig later_max no_add later_lcl later
        (submit_all others (check pubkey nonce sig max false lcl now m).1)).0
      ≢ 0
accepted_blocks_older pubkey m nonce max lcl now sig others older later_max later_lcl later
      other_sig no_add ok apart small le live =
    let (e, found, same_nonce, same_max) =
      accepted_entry pubkey m nonce max lcl now sig ok (omega (arith, small)) in
    let after = (check pubkey nonce sig max false lcl now m).1 in
    let few = length-check-le pubkey nonce max lcl now sig m (omega (arith, small)) in
    refused pubkey older later_max later_lcl later other_sig no_add e (submit_all others after)
      (submit_all_others pubkey others after apart (omega (arith, small, few)) ∙ found)
      (omega arith) (omega arith)

verdict_fresh :
    (pubkey : Bytes) (nonce max lcl now : ℕ) (sig : Bytes) (m : NonceMap) (e : Entry)
    → find pubkey m ≡ some e
    → (leb e.max_ledger_seq_no lcl || ltb e.nonce nonce) ≡ true
    → (check pubkey nonce sig max false lcl now m).0 ≡ 0
unfolding check
verdict_fresh pubkey nonce max lcl now sig m e found fresh = rw (found, fresh) refl

verdict_new :
    (pubkey : Bytes) (nonce max lcl now : ℕ) (sig : Bytes) (m : NonceMap)
    → find pubkey m ≡ none
    → (check pubkey nonce sig max false lcl now m).0 ≡ 0
unfolding check
verdict_new pubkey nonce max lcl now sig m absent = rw absent refl

-- A nonce that has been used can be used again: an input with a greater nonce but a nearer limit
-- replaces the entry, and when the ledger reaches that nearer limit, the first input is accepted a
-- second time although its own limit is still ahead.
pub nearer_limit_reopens :
    (pubkey : Bytes) (m : NonceMap) (nonce max next next_max lcl now later_lcl later : ℕ)
    (sig next_sig : Bytes)
    → find pubkey m ≡ none
    → length m + 2 < cleanup_threshold
    → nonce < next
    → next_max ≤ later_lcl
    → later_lcl < max
    → let once = check pubkey nonce sig max false lcl now m in
      let twice = check pubkey next next_sig next_max false lcl now once.1 in
      (once.0 ≡ 0)
      × (twice.0 ≡ 0)
      × ((check pubkey nonce sig max false later_lcl later twice.1).0 ≡ 0)
nearer_limit_reopens pubkey m nonce max next next_max lcl now later_lcl later sig next_sig absent
      small lt near far =
    let once = check pubkey nonce sig max false lcl now m in
    let twice = check pubkey next next_sig next_max false lcl now once.1 in
    let ok = verdict_new pubkey nonce max lcl now sig m absent in
    let (e, found, at_nonce, at_max) =
      accepted_entry pubkey m nonce max lcl now sig ok (omega arith) in
    let ok' = verdict_fresh pubkey next next_max lcl now next_sig once.1 e found (ground arith) in
    let room : length once.1 < cleanup_threshold =
      omega (arith, length-check-le pubkey nonce max lcl now sig m (omega arith)) in
    let (e', found', at_nonce', at_max') =
      accepted_entry pubkey once.1 next next_max lcl now next_sig ok' room in
    (ok, ok', verdict_fresh pubkey nonce max later_lcl later sig twice.1 e' found' (ground arith))
