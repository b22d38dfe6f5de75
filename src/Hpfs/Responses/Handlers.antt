-- ===== src/Hpfs/Responses/Handlers.antt =====
-- What the handlers of the responses do to the requests and the targets.
use hpcore.Base.{
  is_nil, ℕ, zero, suc, ◌≡◌, refl, ◌∙◌, Bool, true, false, not, ◌||◌, ◌&&◌, ◌++◌, List, [], ◌∷◌,
  Option, none, some, Bytes, arith, if◌then◌else◌, All, set_insert, All-set_insert, bytes_keyed,
  length, Bool-cases, inl, inr, bytes_keyed, elem, leb, ◌==◌, nat_keyed,
}
use hpcore.Util.SequenceHash.{H32, h32_ne, h32_empty}
use hpcore.Hpfs.Items.{SyncItem, item_ordered}
use hpcore.Hpfs.Sync.{HpfsSync, find_target, is_target_of, submit_request}
use hpcore.Hpfs.Sync.Covered.{has_target, CoveredBy, is_prefix-append, submit_request-IsCovered}
use hpcore.Hpfs.Sync.Keyed.{Submitted, IsKeyed, submit_request-IsKeyed}
use hpcore.Hpfs.Responses.{
  ResponseType, matched, mismatched, responded, not_available, FsHashEntry, Content, fs_entries,
  file_hashmap, file_block, unknown_content, Disk, handle, take_entry, take_entries, take_block,
  take_blocks, take_hashmap, after_blocks, handle_fs_entry_response, handle_file_hashmap_response,
  entry_item, block_item, child_of, request_under, hash_at, is_not_available, set_of_ids, max,
  with_mode, ends_with_slash,
}

-- The pending and the submitted requests are under some of the targets, and under their keys.
abbrev pub Sound : List SyncItem → HpfsSync → Type 0
Sound ts s =
    All (CoveredBy ts) s.pending_requests
    × All (λ (e : Submitted). CoveredBy ts e.1) s.submitted_requests
    × IsKeyed s

abbrev pub IsSound : HpfsSync → Type 0
IsSound s = Sound s.ongoing_targets s

submit_request-Sound :
    (ts : List SyncItem) (r : SyncItem) (s : HpfsSync)
    → CoveredBy ts r
    → Sound ts s
    → Sound ts (submit_request r s)
unfolding submit_request
submit_request-Sound ts r s h (pending, submitted, keyed) =
    let c = submit_request-IsCovered r (record s { ongoing_targets = ts }) h (pending, submitted) in
    (c.0, c.1, submit_request-IsKeyed r s keyed)

request-Sound :
    (ts : List SyncItem) (r : SyncItem) (s : HpfsSync)
    → CoveredBy ts r
    → Sound ts s
    → Sound ts (record s { pending_requests = set_insert item_ordered r s.pending_requests })
request-Sound ts r s h (pending, submitted, keyed) =
    (All-set_insert item_ordered (CoveredBy ts) r s.pending_requests h pending, submitted, keyed)

-- What holds of the state after the entries or the blocks of a response holds of it after the response.
module _ (P : HpfsSync → Type 0) (d : Disk) (vpath : Bytes) where
  with_mode-P :
      (o : Option Bool) (next : Bool → Option Bool × HpfsSync) (s : HpfsSync)
      → P s
      → ((changed : Bool) → P (next changed).1)
      → P (with_mode o next s).1
  with_mode-P none next s h f = h
  with_mode-P (some changed) next s h f = f changed

  after_blocks-P :
      (mode len : ℕ) (shrinks : Bool) (s : HpfsSync)
      → P s
      → P (after_blocks d vpath mode len shrinks s).1
  after_blocks-P mode len shrinks s h = elim (Bool-cases (shrinks && not (d.truncate vpath len))) [
    | inl fails ↦ rw fails h
    | inr cut ↦ rw cut (
        with_mode-P (d.apply_metadata_mode vpath mode false)
          (λ changed. (some (shrinks || changed), s)) s h (λ changed. h))
  ]

  module _ (s : HpfsSync) (h : P s)
      (entries_lem : (es : List FsHashEntry) (changed : Bool)
        → P (take_entries d vpath es changed s).1)
      (blocks_lem : (hashes : List H32) (ids : List ℕ) (existing : List H32) (n : ℕ)
        → P (take_blocks d vpath hashes ids existing n 0 s)) where
    fs_entries-P :
        (mode : ℕ) (es : List FsHashEntry) → P (handle_fs_entry_response d vpath mode es s).1
    unfolding handle_fs_entry_response
    fs_entries-P mode es = elim (Bool-cases (d.create_dir_tree vpath)) [
      | inr fails ↦ rw fails h
      | inl made ↦ rw made (
          with_mode-P (d.apply_metadata_mode vpath mode true)
            (λ changed. take_entries d vpath es changed s) s h (entries_lem es))
    ]

    hashmap-P :
        (mode : ℕ) (hashes : List H32) (ids : List ℕ) (len : ℕ) (o : Option (List H32))
        → P (take_hashmap d vpath mode hashes ids len o s).1
    hashmap-P mode hashes ids len none = h
    hashmap-P mode hashes ids len (some existing) =
        let blocks = max (length existing) (max (length hashes) (length ids)) in
        after_blocks-P mode len (leb (length hashes) (length existing))
          (take_blocks d vpath hashes ids existing blocks 0 s)
          (blocks_lem hashes ids existing blocks)

    handled : (c : Content) → P (handle d vpath c s)
    unfolding handle_file_hashmap_response
    handled (fs_entries mode es) = fs_entries-P mode es
    handled (file_hashmap mode hashes ids len) =
        hashmap-P mode hashes (set_of_ids ids []) len (d.get_file_block_hashes vpath)
    handled (file_block i buf) = h
    handled unknown_content = h

module _ (ts : List SyncItem) (vpath : Bytes) (under : has_target ts vpath ≡ true) where
  child_under : (name : Bytes) → has_target ts (child_of vpath name) ≡ true
  child_under name = grows ts under
    where
      grows :
          (us : List SyncItem)
          → has_target us vpath ≡ true
          → has_target us (child_of vpath name) ≡ true
      grows [] h = cc
      grows (u ∷ us) h = ground (
        arith,
        is_prefix-append u.vpath vpath ((if ends_with_slash vpath then [] else 47 ∷ []) ++ name),
        grows us,
      )

  request_under-Sound :
      (o : Option SyncItem) (e : FsHashEntry) (s : HpfsSync)
      → Sound ts s
      → Sound ts (request_under o (entry_item vpath e) s)
  request_under-Sound none e s h = h
  request_under-Sound (some t) e s h =
      request-Sound ts (entry_item vpath e t.high_priority) s (child_under e.name) h

  take_entry-Sound :
      (type : ResponseType) (e : FsHashEntry) (s : HpfsSync)
      → Sound ts s
      → Sound ts (take_entry vpath type e s)
  unfolding take_entry
  take_entry-Sound matched e s h = h
  take_entry-Sound mismatched e s h =
      request_under-Sound (find_target (is_target_of (child_of vpath e.name)) s.ongoing_targets) e s
        h
  take_entry-Sound responded e s h =
      submit_request-Sound ts (entry_item vpath e false) s (child_under e.name) h
  take_entry-Sound not_available e s h = h

  take_entries-Sound :
      (d : Disk) (es : List FsHashEntry) (wrote : Bool) (s : HpfsSync)
      → Sound ts s
      → Sound ts (take_entries d vpath es wrote s).1
  unfolding take_entries
  take_entries-Sound d [] wrote s h = h
  take_entries-Sound d (e ∷ es) wrote s h =
      let gone = is_not_available e.response_type in
      elim (Bool-cases (gone && not (d.delete_entry (child_of vpath e.name) e.is_file))) [
        | inl fails ↦ rw fails h
        | inr goes_on ↦ rw goes_on (
            take_entries-Sound d es (wrote || gone) (take_entry vpath e.response_type e s)
              (take_entry-Sound e.response_type e s h))
      ]

  take_block-Sound :
      (d : Disk) (hashes : List H32) (ids : List ℕ) (existing : List H32) (i : ℕ) (s : HpfsSync)
      → Sound ts s
      → Sound ts (take_block d vpath hashes ids existing i s)
  unfolding take_block
  take_block-Sound d hashes ids existing i s h =
      let hash = hash_at d.past_end hashes i in
      let hinted = if (i == 0) && is_nil hashes then h32_empty else hash in
      elim (Bool-cases (elem i ids)) [
        | inl hint ↦ rw hint (submit_request-Sound ts (block_item vpath i hinted) s under h)
        | inr asked ↦
            elim (Bool-cases
              (leb (length existing) i || h32_ne (hash_at d.past_end existing i) hash)) [
                | inl differs ↦
                    rw (asked, differs) (request-Sound ts (block_item vpath i hash) s under h)
                | inr same ↦ rw (asked, same) h
              ]
      ]

  take_blocks-Sound :
      (d : Disk) (hashes : List H32) (ids : List ℕ) (existing : List H32) (n i : ℕ) (s : HpfsSync)
      → Sound ts s
      → Sound ts (take_blocks d vpath hashes ids existing n i s)
  unfolding take_blocks
  take_blocks-Sound d hashes ids existing zero i s h = h
  take_blocks-Sound d hashes ids existing (suc n) i s h =
      take_blocks-Sound d hashes ids existing n (suc i) (take_block d vpath hashes ids existing i s)
        (take_block-Sound d hashes ids existing i s h)

  pub handle-Sound :
      (d : Disk) (c : Content) (s : HpfsSync) → Sound ts s → Sound ts (handle d vpath c s)
  handle-Sound d c s h =
      handled (Sound ts) d vpath s h (λ es changed. take_entries-Sound d es changed s h)
        (λ hashes ids existing n. take_blocks-Sound d hashes ids existing n 0 s h) c

-- A handler leaves the targets alone.
take_entry-targets :
    (vpath : Bytes) (type : ResponseType) (e : FsHashEntry) (s : HpfsSync)
    → (take_entry vpath type e s).ongoing_targets ≡ s.ongoing_targets
unfolding take_entry submit_request
take_entry-targets vpath matched e s = refl
take_entry-targets vpath mismatched e s =
    under (find_target (is_target_of (child_of vpath e.name)) s.ongoing_targets)
  where
    under :
        (o : Option SyncItem)
        → (request_under o (entry_item vpath e) s).ongoing_targets ≡ s.ongoing_targets
    under none = refl
    under (some t) = refl
take_entry-targets vpath responded e s = refl
take_entry-targets vpath not_available e s = refl

take_entries-targets :
    (d : Disk) (vpath : Bytes) (es : List FsHashEntry) (wrote : Bool) (s : HpfsSync)
    → (take_entries d vpath es wrote s).1.ongoing_targets ≡ s.ongoing_targets
unfolding take_entries
take_entries-targets d vpath [] wrote s = refl
take_entries-targets d vpath (e ∷ es) wrote s = ground (
  arith,
  take_entries-targets d vpath es (wrote || is_not_available e.response_type)
      (take_entry vpath e.response_type e s),
  take_entry-targets vpath e.response_type e s,
)

take_blocks-targets :
    (d : Disk) (vpath : Bytes) (hashes : List H32) (ids : List ℕ) (existing : List H32) (n i : ℕ)
    (s : HpfsSync)
    → (take_blocks d vpath hashes ids existing n i s).ongoing_targets ≡ s.ongoing_targets
unfolding take_blocks take_block submit_request
take_blocks-targets d vpath hashes ids existing zero i s = refl
take_blocks-targets d vpath hashes ids existing (suc n) i s =
    let t = take_block d vpath hashes ids existing i s in
    let one : t.ongoing_targets ≡ s.ongoing_targets = ground arith in
    take_blocks-targets d vpath hashes ids existing n (suc i) t ∙ one

pub handle-targets :
    (d : Disk) (vpath : Bytes) (c : Content) (s : HpfsSync)
    → (handle d vpath c s).ongoing_targets ≡ s.ongoing_targets
handle-targets d vpath c s =
    handled (λ t. t.ongoing_targets ≡ s.ongoing_targets) d vpath s refl
      (λ es changed. take_entries-targets d vpath es changed s)
      (λ hashes ids existing n. take_blocks-targets d vpath hashes ids existing n 0 s) c
