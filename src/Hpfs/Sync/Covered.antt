-- ===== src/Hpfs/Sync/Covered.antt =====
-- Every request belongs to a target: the case that the worker logs as one that should never be met.
use hpcore.Base.{
  is_prefix, is_nil, ◌≡◌, refl, Bool, true, false, not, ◌++◌, List, [], ◌∷◌, some, Bytes, arith,
  if◌then◌else◌, All, All-mono, All-select, All-set_insert, All-remove_if, All-put, bytes_keyed,
  contains, Bool-cases, Option-cases, inl, inr,
}
use hpcore.Util.SequenceHash.{h32_ne}
use hpcore.Hpfs.Items.{SyncItem, item_ordered}
use hpcore.Hpfs.Sync.{
  HpfsSync, find_target, erase_target, is_target_of, is_at, clear_target, add_target, take_target,
  take_targets, check_incoming_targets, submit_request, request_key,
}

abbrev pub has_target : List SyncItem → Bytes → Bool
has_target [] vpath = false
has_target (t ∷ ts) vpath = if is_target_of vpath t then true else has_target ts vpath

-- The pending and the submitted requests have targets among those that are ongoing.
abbrev pub CoveredBy : List SyncItem → SyncItem → Type 0
CoveredBy ts r = has_target ts r.vpath ≡ true

abbrev pub IsCovered : HpfsSync → Type 0
IsCovered s =
    All (CoveredBy s.ongoing_targets) s.pending_requests
    × All (λ e. CoveredBy s.ongoing_targets e.1) s.submitted_requests

pub is_prefix_refl : (p : Bytes) → is_prefix p p ≡ true
unfolding is_prefix
is_prefix_refl [] = refl
is_prefix_refl (b ∷ bs) = ground (arith, is_prefix_refl bs)

pub is_prefix-append : (p q r : Bytes) → is_prefix p q ≡ true → is_prefix p (q ++ r) ≡ true
unfolding is_prefix
is_prefix-append [] q r h = refl
is_prefix-append (b ∷ bs) [] r h = cc
is_prefix-append (b ∷ bs) (c ∷ cs) r h = ground (arith, is_prefix-append bs cs r)

pub has_target-append :
    (ts us : List SyncItem) (vpath : Bytes)
    → has_target ts vpath ≡ true
    → has_target (ts ++ us) vpath ≡ true
has_target-append [] us vpath h = cc
has_target-append (t ∷ ts) us vpath h = ground (arith, has_target-append ts us vpath)

has_target-snoc : (ts : List SyncItem) (t : SyncItem) → has_target (ts ++ t ∷ []) t.vpath ≡ true
has_target-snoc [] t = ground (arith, is_prefix_refl t.vpath)
has_target-snoc (u ∷ ts) t = ground (arith, has_target-snoc ts t)

-- A path that is not under the target which goes keeps its target.
has_target-erase_target :
    (found : SyncItem → Bool) (ex : SyncItem) (ts : List SyncItem) (vpath : Bytes)
    → find_target found ts ≡ some ex
    → is_prefix ex.vpath vpath ≡ false
    → has_target ts vpath ≡ true
    → has_target (erase_target found ts) vpath ≡ true
unfolding find_target erase_target
has_target-erase_target found ex [] vpath f apart h = cc
has_target-erase_target found ex (t ∷ ts) vpath f apart h =
    ground (arith, f, has_target-erase_target found ex ts vpath)

-- The target that `TARGET_OF_REQUEST` looks for is there.
pub target_found :
    (ts : List SyncItem) (vpath : Bytes)
    → has_target ts vpath ≡ true
    → (t : SyncItem) × (find_target (is_target_of vpath) ts ≡ some t)
unfolding find_target
target_found [] vpath h = cc
target_found (t ∷ ts) vpath h = elim (Bool-cases (is_target_of vpath t)) [
  | inl here ↦ (t, rw here refl)
  | inr later ↦ let rest = target_found ts vpath (rw later at h) in (rest.0, rw later rest.1)
]

pub clear_target-IsCovered :
    (found : SyncItem → Bool) (ex : SyncItem) (s : HpfsSync)
    → find_target found s.ongoing_targets ≡ some ex
    → IsCovered s
    → IsCovered (clear_target found ex.vpath s)
unfolding clear_target
clear_target-IsCovered found ex s f (pending, submitted) =
    let left = erase_target found s.ongoing_targets in
    (
      All-select (CoveredBy s.ongoing_targets) (CoveredBy left)
          (λ r. not (is_prefix ex.vpath r.vpath)) s.pending_requests
          (λ r h apart.
            has_target-erase_target found ex s.ongoing_targets r.vpath f (ground (arith, apart)) h)
          pending,
      All-remove_if (CoveredBy s.ongoing_targets) (CoveredBy left) (λ r. is_prefix ex.vpath r.vpath)
          s.submitted_requests
          (λ r h apart. has_target-erase_target found ex s.ongoing_targets r.vpath f apart h)
          submitted,
    )

add_target-IsCovered :
    (target : SyncItem) (s : HpfsSync) → IsCovered s → IsCovered (add_target target s)
add_target-IsCovered target s (pending, submitted) =
    let ts = s.ongoing_targets in
    let more = ts ++ target ∷ [] in
    let grow =
      λ (r : SyncItem) (h : CoveredBy ts r). has_target-append ts (target ∷ []) r.vpath h in
    (
      All-set_insert item_ordered (CoveredBy more) target s.pending_requests
          (has_target-snoc ts target)
          (All-mono (CoveredBy ts) (CoveredBy more) s.pending_requests grow pending),
      All-mono (λ e. CoveredBy ts e.1) (λ e. CoveredBy more e.1) s.submitted_requests
          (λ e. grow e.1) submitted,
    )

take_target-IsCovered :
    (target : SyncItem) (s : HpfsSync)
    → IsCovered s
    → IsCovered (take_target target (find_target (is_at target.vpath) s.ongoing_targets) s)
take_target-IsCovered target s c =
    elim (Option-cases (find_target (is_at target.vpath) s.ongoing_targets)) [
      | inl absent ↦ rw absent (add_target-IsCovered target s c)
      | inr (ex, present) ↦ elim (Bool-cases (h32_ne ex.expected_hash target.expected_hash)) [
        | inl obsolete ↦
            rw (present, obsolete)
              (add_target-IsCovered target (clear_target (is_at target.vpath) ex.vpath s)
                (clear_target-IsCovered (is_at target.vpath) ex s present c))
        | inr same ↦ rw (present, same) c
      ]
    ]

take_targets-IsCovered :
    (targets : List SyncItem) (s : HpfsSync) → IsCovered s → IsCovered (take_targets targets s)
unfolding take_targets
take_targets-IsCovered [] s c = c
take_targets-IsCovered (t ∷ ts) s c =
    take_targets-IsCovered ts (take_target t (find_target (is_at t.vpath) s.ongoing_targets) s)
      (take_target-IsCovered t s c)

pub check_incoming_targets-IsCovered :
    (acquires releases : Bool) (s : HpfsSync)
    → IsCovered s
    → IsCovered (check_incoming_targets acquires releases s).1
unfolding check_incoming_targets
check_incoming_targets-IsCovered acquires releases s c =
    let t = take_targets s.incoming_targets s in
    let d = take_targets-IsCovered s.incoming_targets s c in
    elim (Bool-cases t.rw_session_active) [
      | inl active ↦ elim (Bool-cases (is_nil t.ongoing_targets)) [
        | inl idle ↦ elim (Bool-cases releases) [
          | inl ok ↦ rw (active, idle, ok) d
          | inr fails ↦ rw (active, idle, fails) d
        ]
        | inr busy ↦ rw (active, busy) d
      ]
      | inr off ↦ elim (Bool-cases (is_nil t.ongoing_targets)) [
        | inl idle ↦ rw (off, idle) d
        | inr busy ↦ elim (Bool-cases acquires) [
          | inl ok ↦ rw (off, busy, ok) d
          | inr fails ↦ rw (off, busy, fails) d
        ]
      ]
    ]

pub submit_request-IsCovered :
    (r : SyncItem) (s : HpfsSync)
    → CoveredBy s.ongoing_targets r
    → IsCovered s
    → IsCovered (submit_request r s)
unfolding submit_request
submit_request-IsCovered r s h (pending, submitted) = (
  pending,
  elim (Bool-cases (contains (request_key r) s.submitted_requests)) [
    | inl there ↦ rw there submitted
    | inr absent ↦
        rw absent
          (All-put (CoveredBy s.ongoing_targets) (request_key r) r s.submitted_requests h submitted)
  ],
)
