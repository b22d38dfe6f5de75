-- ===== src/Hpfs/Responses/Targets.antt =====
-- The worker from its start on: whatever targets are set and whatever peers answer, every request has
-- a target, and so has every response that is awaited and checked.
use hpcore.Base.{
  is_nil, ℕ, ◌*◌, ltb, ◌≡◌, refl, sym, ap, subst, ◌∙◌, Bool, true, false, not, ◌||◌, ◌++◌, List, [],
  ◌∷◌, some, Bytes, arith, if◌then◌else◌, All-both, bytes_keyed, erase, contains, length,
  length-append, ◌⊎◌, Bool-cases, Option-cases, inl, inr, bytes_eq_iff, bytes_keyed, nat_keyed,
}
use hpcore.Util.SequenceHash.{H32, h32_eq, h32_empty}
use hpcore.Consensus.Proposing.{to_string_view}
use hpcore.Usr.Submission.{bytes_from}
use hpcore.Hpfs.Items.{SyncItem, item_ordered}
use hpcore.Hpfs.Sync.{
  HpfsSync, find_target, is_target_of, check_incoming_targets, request_key,
  perform_request_submissions, update_sync_status, set_target,
}
use hpcore.Hpfs.Sync.Covered.{
  has_target, CoveredBy, target_found, clear_target-IsCovered, check_incoming_targets-IsCovered,
}
use hpcore.Hpfs.Sync.Keyed.{
  Submitted, erase-All, contains-All, clear_target-IsKeyed, check_incoming_targets-IsKeyed,
  perform_request_submissions-IsKeyed,
}
use hpcore.Hpfs.Sync.Requests.{perform_request_submissions-IsCovered}
use hpcore.Hpfs.Responses.Handlers.{Sound, IsSound, handle-Sound, handle-targets}
use hpcore.Hpfs.Responses.{
  Content, fs_entries, file_hashmap, file_block, unknown_content, HpfsResponse, Disk, block_size,
  validates, handle, complete_target, process_response, process_responses,
  process_candidate_responses, initial_hash, xor_entries, xor_hashes,
}

append-cancel : (xs zs ys ws : Bytes) → xs ++ ys ≡ zs ++ ws → length ys ≡ length ws → xs ≡ zs
append-cancel [] [] ys ws e l = refl
append-cancel [] (z ∷ zs) ys ws e l =
    ground (arith, ap (λ (b : Bytes). length b) e, length-append zs ws)
append-cancel (x ∷ xs) [] ys ws e l =
    ground (arith, ap (λ (b : Bytes). length b) e, length-append xs ys)
append-cancel (x ∷ xs) (z ∷ zs) ys ws e l = ground (arith, append-cancel xs zs ys ws)

abbrev pub IsKnown : Content → Type 0
IsKnown (fs_entries mode entries) = Unit
IsKnown (file_hashmap mode hashes ids len) = Unit
IsKnown (file_block block_id buf) = Unit
IsKnown unknown_content = ⊥

-- A response that is checked names a whole hash.
validated_length :
    (d : Disk) (vpath hash : Bytes) (c : Content)
    → IsKnown c
    → validates d vpath hash c ≡ true
    → length hash ≡ 32
validated_length d vpath hash (fs_entries mode entries) k v =
    ap (λ (b : Bytes). length b)
      (sym (
        (bytes_eq_iff (to_string_view (xor_entries (initial_hash d vpath mode) entries)) hash).0 v))
validated_length d vpath hash (file_hashmap mode hashes ids len) k v =
    ap (λ (b : Bytes). length b)
      (sym
        ((bytes_eq_iff (to_string_view (xor_hashes (initial_hash d vpath mode) hashes)) hash).0 v))
validated_length d vpath hash (file_block block_id buf) k v =
    ap (λ (b : Bytes). length b)
      (sym (
        (bytes_eq_iff
            (to_string_view (
              if ltb 0 block_id || not (is_nil buf)
              then d.get_hash2 (bytes_from 8 (block_id * block_size) []) buf
              else h32_empty))
            hash).0
          v))
validated_length d vpath hash unknown_content k v = absurd k

-- The path of an awaited response is the path of the request.
awaited_under :
    (s : HpfsSync) (vpath hash : Bytes)
    → IsSound s
    → length hash ≡ 32
    → contains (vpath ++ hash) s.submitted_requests ≡ true
    → has_target s.ongoing_targets vpath ≡ true
awaited_under s vpath hash (pending, submitted, keyed) len there =
    let (e, same, (covered, key)) =
      contains-All (λ (e : Submitted). CoveredBy s.ongoing_targets e.1 × (e.0 ≡ request_key e.1))
        (vpath ++ hash) s.submitted_requests there
        (All-both (λ (e : Submitted). CoveredBy s.ongoing_targets e.1)
          (λ (e : Submitted). e.0 ≡ request_key e.1) s.submitted_requests submitted keyed) in
    let path : e.1.vpath ≡ vpath =
      append-cancel e.1.vpath vpath (to_string_view e.1.expected_hash) hash
        (sym key ∙ (bytes_eq_iff e.0 (vpath ++ hash)).0 same) (sym len) in
    subst (λ (p : Bytes). has_target s.ongoing_targets p ≡ true) path covered

IsKnown-cases :
    (c : Content) → IsKnown c ⊎ ((d : Disk) (vpath : Bytes) (s : HpfsSync) → handle d vpath c s ≡ s)
IsKnown-cases (fs_entries mode entries) = inl tt
IsKnown-cases (file_hashmap mode hashes ids len) = inl tt
IsKnown-cases (file_block block_id buf) = inl tt
IsKnown-cases unknown_content = inr (λ d vpath s. refl)

handled-IsSound :
    (d : Disk) (resp : HpfsResponse) (s : HpfsSync)
    → IsSound s
    → contains (resp.vpath ++ resp.hash) s.submitted_requests ≡ true
    → validates d resp.vpath resp.hash resp.content ≡ true
    → IsSound (handle d resp.vpath resp.content s)
handled-IsSound d resp s h there valid = elim (IsKnown-cases resp.content) [
  | inl known ↦
      let len = validated_length d resp.vpath resp.hash resp.content known valid in
      let under = awaited_under s resp.vpath resp.hash h len there in
      subst (λ (ts : List SyncItem). Sound ts (handle d resp.vpath resp.content s))
        (sym (handle-targets d resp.vpath resp.content s))
        (handle-Sound s.ongoing_targets resp.vpath under d resp.content s h)
  | inr same ↦ subst IsSound (sym (same d resp.vpath s)) h
]

erased-IsSound :
    (key : Bytes) (s : HpfsSync)
    → IsSound s
    → IsSound (record s { submitted_requests = erase key s.submitted_requests })
erased-IsSound key s (pending, submitted, keyed) = (
  pending,
  erase-All (λ (e : Submitted). CoveredBy s.ongoing_targets e.1) key s.submitted_requests submitted,
  erase-All (λ (e : Submitted). e.0 ≡ request_key e.1) key s.submitted_requests keyed,
)

complete_target-IsSound :
    (d : Disk) (vpath : Bytes) (s : HpfsSync)
    → IsSound s
    → IsSound (complete_target d vpath (find_target (is_target_of vpath) s.ongoing_targets) s)
unfolding update_sync_status
complete_target-IsSound d vpath s (pending, submitted, keyed) =
    elim (Option-cases (find_target (is_target_of vpath) s.ongoing_targets)) [
      | inl absent ↦ rw absent (pending, submitted, keyed)
      | inr (t, present) ↦ elim (Bool-cases (h32_eq (d.updated_hash t.vpath) t.expected_hash)) [
        | inr not_yet ↦ rw (present, not_yet) (pending, submitted, keyed)
        | inl achieved ↦
            let c = clear_target-IsCovered (is_target_of vpath) t s present (pending, submitted) in
            rw (present, achieved)
              (c.0, c.1, clear_target-IsKeyed (is_target_of vpath) t.vpath s keyed)
      ]
    ]

process_response-IsSound :
    (d : Disk) (resp : HpfsResponse) (s : HpfsSync)
    → IsSound s
    → IsSound (process_response d resp s)
unfolding process_response
process_response-IsSound d resp s h =
    let key = resp.vpath ++ resp.hash in
    let handled = handle d resp.vpath resp.content s in
    elim (Bool-cases (contains key s.submitted_requests)) [
      | inr unawaited ↦ rw unawaited h
      | inl there ↦ elim (Bool-cases (validates d resp.vpath resp.hash resp.content)) [
        | inr invalid ↦ rw (there, invalid) h
        | inl valid ↦
            rw (there, valid)
              (complete_target-IsSound d resp.vpath
                (record handled { submitted_requests = erase key handled.submitted_requests })
                (erased-IsSound key handled (handled-IsSound d resp s h there valid)))
      ]
    ]

process_responses-IsSound :
    (rs : List (Disk × HpfsResponse)) (s : HpfsSync) → IsSound s → IsSound (process_responses rs s)
unfolding process_responses
process_responses-IsSound [] s h = h
process_responses-IsSound ((d, resp) ∷ rs) s h =
    process_responses-IsSound rs (process_response d resp s) (process_response-IsSound d resp s h)

-- What happens to the worker: a target is set, the worker looks at the targets, a batch of responses is
-- processed, requests are submitted.
pub data Step : HpfsSync → HpfsSync → Type 0 where
  sets :
      (is_dir : Bool) (vpath : Bytes) (hash : H32) (high_priority : Bool) (s : HpfsSync)
      → Step s (set_target is_dir vpath hash high_priority s)
  looks :
      (acquires releases : Bool) (s : HpfsSync)
      → Step s (check_incoming_targets acquires releases s).1
  processes :
      (rs : List (Disk × HpfsResponse)) (s : HpfsSync) → Step s (process_candidate_responses rs s).1
  submits : (timeout : ℕ) (s : HpfsSync) → Step s (perform_request_submissions timeout s).1

abbrev pub idle : HpfsSync
idle = record {
  incoming_targets = [];
  ongoing_targets = [];
  pending_requests = [];
  submitted_requests = [];
  resubmissions_count = 0;
  rw_session_active = false;
  is_syncing = false;
}

pub data Reachable : HpfsSync → Type 0 where
  start : Reachable idle
  next : (s t : HpfsSync) → Reachable s → Step s t → Reachable t

Step-IsSound : (s t : HpfsSync) → Step s t → IsSound s → IsSound t
unfolding set_target process_candidate_responses
Step-IsSound s _ (sets is_dir vpath hash high_priority _) h = h
Step-IsSound s _ (looks acquires releases _) (pending, submitted, keyed) =
    let c = check_incoming_targets-IsCovered acquires releases s (pending, submitted) in
    (c.0, c.1, check_incoming_targets-IsKeyed acquires releases s keyed)
Step-IsSound s _ (processes rs _) h =
    let count = if is_nil rs then s.resubmissions_count else 0 in
    process_responses-IsSound rs (record s { resubmissions_count = count }) h
Step-IsSound s _ (submits timeout _) (pending, submitted, keyed) =
    let c = perform_request_submissions-IsCovered timeout s (pending, submitted) in
    (c.0, c.1, perform_request_submissions-IsKeyed timeout s keyed)

-- In every state that the worker can get to from its start, whatever targets are set, whatever peers
-- answer and whatever the file system does, every pending and every submitted request is under an
-- ongoing target, and every submitted request stands under the key of its path and hash.
pub Reachable-IsSound : (s : HpfsSync) → Reachable s → IsSound s
Reachable-IsSound _ start = (tt, tt, tt)
Reachable-IsSound _ (next s t r step) = Step-IsSound s t step (Reachable-IsSound s r)

-- In such a state a response that is awaited and has the hash that it names belongs to an ongoing
-- target, so the worker finds it after it has handled the response. The content is one of the three
-- kinds that the worker knows.
pub response_has_target :
    (d : Disk) (resp : HpfsResponse) (s : HpfsSync)
    → Reachable s
    → IsKnown resp.content
    → contains (resp.vpath ++ resp.hash) s.submitted_requests ≡ true
    → validates d resp.vpath resp.hash resp.content ≡ true
    → (t : SyncItem) × (find_target
          (is_target_of resp.vpath)
          (handle d resp.vpath resp.content s).ongoing_targets
        ≡ some t)
response_has_target d resp s r known there valid =
    let len = validated_length d resp.vpath resp.hash resp.content known valid in
    let under = awaited_under s resp.vpath resp.hash (Reachable-IsSound s r) len there in
    target_found (handle d resp.vpath resp.content s).ongoing_targets resp.vpath
      (rw (handle-targets d resp.vpath resp.content s) under)
