-- ===== src/Hpfs/Responses.antt =====
-- src/hpfs/hpfs_sync.cpp: the responses of peers. What the worker calls, the file system and the hash
-- functions, is a record that is given with every response, since the file system changes.
pub mod Handlers
pub mod Targets
use hpcore.Base.{
  is_nil, ℕ, zero, suc, ◌+◌, ◌*◌, Bool, true, false, not, ◌&&◌, ◌||◌, ◌++◌, List, [], ◌∷◌, Option,
  none, some, Bytes, bytes_eq, bytes_keyed, nat_keyed, nat_ordered, if◌then◌else◌, find, contains,
  erase, elem, length, ltb, leb, ◌==◌, set_insert,
}
use hpcore.Util.SequenceHash.{H32, h32_eq, h32_ne, h32_empty, h32_xor}
use hpcore.Consensus.Proposing.{to_string_view}
use hpcore.Usr.Submission.{bytes_from}
use hpcore.Hpfs.Items.{SyncItem, SyncItemType, dir, file, block, item_ordered}
use hpcore.Hpfs.Sync.{
  HpfsSync, find_target, is_target_of, clear_target, update_sync_status, submit_request,
}

pub data ResponseType : Type 0 where
  matched mismatched responded not_available : ResponseType

pub record FsHashEntry : Type 0 where
  pub name : Bytes
  pub is_file : Bool
  pub hash : H32
  pub response_type : ResponseType

pub data Content : Type 0 where
  fs_entries : (dir_mode : ℕ) (entries : List FsHashEntry) → Content
  file_hashmap :
      (file_mode : ℕ) (hashes : List H32) (block_ids : List ℕ) (file_length : ℕ) → Content
  file_block : (block_id : ℕ) (buf : Bytes) → Content
  unknown_content : Content

pub record HpfsResponse : Type 0 where
  pub vpath : Bytes
  pub hash : Bytes
  pub content : Content

-- What the worker calls: the hash functions, the name of a path, the directory tree, the mode of an
-- entry (`none` when it fails), the deletion of an entry, the block hashes of a file, truncation, and
-- the hash of a path. `past_end` is what the memory behind a list of hashes holds.
pub record Disk : Type 0 where
  pub get_hash : Bytes → H32
  pub get_hash2 : Bytes → Bytes → H32
  pub get_name : Bytes → Bytes
  pub create_dir_tree : Bytes → Bool
  pub apply_metadata_mode : Bytes → ℕ → Bool → Option Bool
  pub delete_entry : Bytes → Bool → Bool
  pub get_file_block_hashes : Bytes → Option (List H32)
  pub truncate : Bytes → ℕ → Bool
  pub updated_hash : Bytes → H32
  pub past_end : ℕ → H32

unfoldable pub xor_entries : H32 → List FsHashEntry → H32
xor_entries h [] = h
xor_entries h (e ∷ es) = xor_entries (h32_xor h e.hash) es

unfoldable pub xor_hashes : H32 → List H32 → H32
xor_hashes h [] = h
xor_hashes h (x ∷ xs) = xor_hashes (h32_xor h x) xs

-- The hash of the name and of the mode.
abbrev pub initial_hash : Disk → Bytes → ℕ → H32
initial_hash d vpath mode =
    h32_xor (d.get_hash (d.get_name vpath)) (d.get_hash (bytes_from 4 mode []))

abbrev pub validate_fs_entry_hash : Disk → Bytes → Bytes → ℕ → List FsHashEntry → Bool
validate_fs_entry_hash d vpath hash dir_mode entries =
    bytes_eq (to_string_view (xor_entries (initial_hash d vpath dir_mode) entries)) hash

abbrev pub validate_file_hashmap_hash : Disk → Bytes → Bytes → ℕ → List H32 → Bool
validate_file_hashmap_hash d vpath hash file_mode hashes =
    bytes_eq (to_string_view (xor_hashes (initial_hash d vpath file_mode) hashes)) hash

abbrev pub block_size : ℕ
block_size = 4194304

-- The block 0 of an empty file has the empty hash.
abbrev pub validate_file_block_hash : Disk → Bytes → ℕ → Bytes → Bool
validate_file_block_hash d hash block_id buf =
    let hash_calculated =
      if ltb 0 block_id || not (is_nil buf)
      then d.get_hash2 (bytes_from 8 (block_id * block_size) []) buf
      else h32_empty in
    bytes_eq (to_string_view hash_calculated) hash

unfoldable pub ends_with_slash : Bytes → Bool
ends_with_slash [] = false
ends_with_slash (b ∷ []) = b == 47
ends_with_slash (b ∷ c ∷ bs) = ends_with_slash (c ∷ bs)

abbrev pub child_of : Bytes → Bytes → Bytes
child_of vpath name = vpath ++ ((if ends_with_slash vpath then [] else 47 ∷ []) ++ name)

abbrev pub entry_item : Bytes → FsHashEntry → Bool → SyncItem
entry_item vpath e high_priority = record {
  item_type = if e.is_file then file else dir;
  vpath = child_of vpath e.name;
  block_id = none;
  expected_hash = e.hash;
  high_priority = high_priority;
  waiting_time = 0;
}

-- A request goes to the pending ones with the priority of the target that it is under.
abbrev pub request_under : Option SyncItem → (Bool → SyncItem) → HpfsSync → HpfsSync
request_under none item s = s
request_under (some t) item s = record s {
  pending_requests = set_insert item_ordered (item t.high_priority) s.pending_requests;
}

unfoldable pub take_entry : Bytes → ResponseType → FsHashEntry → HpfsSync → HpfsSync
take_entry vpath matched e s = s
take_entry vpath mismatched e s =
    request_under (find_target (is_target_of (child_of vpath e.name)) s.ongoing_targets)
      (entry_item vpath e) s
take_entry vpath responded e s = submit_request (entry_item vpath e false) s
take_entry vpath not_available e s = s

abbrev pub is_not_available : ResponseType → Bool
is_not_available matched = false
is_not_available mismatched = false
is_not_available responded = false
is_not_available not_available = true

-- Whether something was written, or `none` on failure, with the state.
unfoldable pub take_entries :
    Disk → Bytes → List FsHashEntry → Bool → HpfsSync → Option Bool × HpfsSync
take_entries d vpath [] write_performed s = (some write_performed, s)
take_entries d vpath (e ∷ es) write_performed s =
    let gone = is_not_available e.response_type in
    let fails = gone && not (d.delete_entry (child_of vpath e.name) e.is_file) in
    let rest =
      take_entries d vpath es (write_performed || gone) (take_entry vpath e.response_type e s) in
    if fails then (none, s) else rest

abbrev pub with_mode :
    Option Bool → (Bool → Option Bool × HpfsSync) → HpfsSync → Option Bool × HpfsSync
with_mode none next s = (none, s)
with_mode (some changed) next s = next changed

unfoldable pub handle_fs_entry_response :
    Disk → Bytes → ℕ → List FsHashEntry → HpfsSync → Option Bool × HpfsSync
handle_fs_entry_response d vpath dir_mode entries s =
    if d.create_dir_tree vpath
    then with_mode (d.apply_metadata_mode vpath dir_mode true)
        (λ changed. take_entries d vpath entries changed s) s
    else (none, s)

-- `hashes[block_id]`, which the source reads past the end as well.
unfoldable pub hash_at : (ℕ → H32) → List H32 → ℕ → H32
hash_at past_end [] i = past_end i
hash_at past_end (h ∷ hs) zero = h
hash_at past_end (h ∷ hs) (suc i) = hash_at past_end hs i

abbrev pub block_item : Bytes → ℕ → H32 → SyncItem
block_item vpath block_id hash = record {
  item_type = block;
  vpath = vpath;
  block_id = some block_id;
  expected_hash = hash;
  high_priority = false;
  waiting_time = 0;
}

unfoldable pub take_block : Disk → Bytes → List H32 → List ℕ → List H32 → ℕ → HpfsSync → HpfsSync
take_block d vpath hashes responded_block_ids existing block_id s =
    let hash = hash_at d.past_end hashes block_id in
    let hinted = if (block_id == 0) && is_nil hashes then h32_empty else hash in
    if elem block_id responded_block_ids
    then submit_request (block_item vpath block_id hinted) s
    else if leb (length existing) block_id || h32_ne (hash_at d.past_end existing block_id) hash
    then record s {
      pending_requests =
          set_insert item_ordered (block_item vpath block_id hash) s.pending_requests;
    }
    else s

-- The blocks of a file from a number on.
unfoldable pub take_blocks :
    Disk → Bytes → List H32 → List ℕ → List H32 → ℕ → ℕ → HpfsSync → HpfsSync
take_blocks d vpath hashes responded_block_ids existing zero block_id s = s
take_blocks d vpath hashes responded_block_ids existing (suc n) block_id s =
    take_blocks d vpath hashes responded_block_ids existing n (suc block_id)
      (take_block d vpath hashes responded_block_ids existing block_id s)

abbrev pub max : ℕ → ℕ → ℕ
max a b = if ltb b a then a else b

abbrev pub set_of_ids : List ℕ → List ℕ → List ℕ
set_of_ids [] set = set
set_of_ids (i ∷ is) set = set_of_ids is (set_insert nat_ordered i set)

abbrev pub after_blocks : Disk → Bytes → ℕ → ℕ → Bool → HpfsSync → Option Bool × HpfsSync
after_blocks d vpath file_mode file_length shrinks s =
    if shrinks && not (d.truncate vpath file_length)
    then (none, s)
    else with_mode (d.apply_metadata_mode vpath file_mode false)
        (λ changed. (some (shrinks || changed), s)) s

abbrev pub take_hashmap :
    Disk → Bytes → ℕ → List H32 → List ℕ → ℕ → Option (List H32) → HpfsSync → Option Bool × HpfsSync
take_hashmap d vpath file_mode hashes ids file_length none s = (none, s)
take_hashmap d vpath file_mode hashes ids file_length (some existing) s =
    let blocks = max (length existing) (max (length hashes) (length ids)) in
    after_blocks d vpath file_mode file_length (leb (length hashes) (length existing))
      (take_blocks d vpath hashes ids existing blocks 0 s)

unfoldable pub handle_file_hashmap_response :
    Disk → Bytes → ℕ → List H32 → List ℕ → ℕ → HpfsSync → Option Bool × HpfsSync
handle_file_hashmap_response d vpath file_mode hashes responded_block_ids file_length s =
    take_hashmap d vpath file_mode hashes responded_block_ids file_length
      (d.get_file_block_hashes vpath) s

-- Whether the content has the hash that the response names; an unknown content is not checked.
abbrev pub validates : Disk → Bytes → Bytes → Content → Bool
validates d vpath hash (fs_entries mode entries) = validate_fs_entry_hash d vpath hash mode entries
validates d vpath hash (file_hashmap mode hashes ids len) =
    validate_file_hashmap_hash d vpath hash mode hashes
validates d vpath hash (file_block block_id buf) = validate_file_block_hash d hash block_id buf
validates d vpath hash unknown_content = true

-- The result of a handler is not looked at. A block is only written to the file.
abbrev pub handle : Disk → Bytes → Content → HpfsSync → HpfsSync
handle d vpath (fs_entries mode entries) s = (handle_fs_entry_response d vpath mode entries s).1
handle d vpath (file_hashmap mode hashes ids len) s =
    (handle_file_hashmap_response d vpath mode hashes (set_of_ids ids []) len s).1
handle d vpath (file_block block_id buf) s = s
handle d vpath unknown_content s = s

-- The target that the response belongs to is complete when the file system has its hash.
abbrev pub complete_target : Disk → Bytes → Option SyncItem → HpfsSync → HpfsSync
complete_target d vpath none s = s
complete_target d vpath (some t) s =
    if h32_eq (d.updated_hash t.vpath) t.expected_hash
    then update_sync_status (clear_target (is_target_of vpath) t.vpath s)
    else s

unfoldable pub process_response : Disk → HpfsResponse → HpfsSync → HpfsSync
process_response d resp s =
    let key = resp.vpath ++ resp.hash in
    let handled = handle d resp.vpath resp.content s in
    let t = record handled { submitted_requests = erase key handled.submitted_requests } in
    if not (contains key s.submitted_requests)
    then s
    else if not (validates d resp.vpath resp.hash resp.content)
    then s
    else complete_target d resp.vpath (find_target (is_target_of resp.vpath) t.ongoing_targets) t

unfoldable pub process_responses : List (Disk × HpfsResponse) → HpfsSync → HpfsSync
process_responses [] s = s
process_responses ((d, resp) ∷ rest) s = process_responses rest (process_response d resp s)

-- The counter of resubmissions starts again with every batch of responses.
unfoldable pub process_candidate_responses : List (Disk × HpfsResponse) → HpfsSync → Bool × HpfsSync
process_candidate_responses responses s =
    let count = if is_nil responses then s.resubmissions_count else 0 in
    (not (is_nil responses), process_responses responses (record s { resubmissions_count = count }))
