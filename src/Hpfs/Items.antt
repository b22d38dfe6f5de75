-- ===== src/Hpfs/Items.antt =====
-- src/hpfs/hpfs_sync.hpp: the items of the sync, which are targets and requests, and their order.
-- A request that is for no block has the block number -1: `none`.
use hpcore.Base.{
  ℕ, suc, ◌+◌, ◌*◌, ◌≡◌, Bool, true, false, Option, none, some, Bytes, bytes_eq, bytes_lt, ltb,
  ◌==◌, if◌then◌else◌, Ordered, arith, bytes_eq_iff, bytes_ordered, bytes_trichotomy,
}
use hpcore.Util.SequenceHash.{H32}

pub data SyncItemType : Type 0 where
  dir file block : SyncItemType

pub record SyncItem : Type 0 where
  pub item_type : SyncItemType
  pub vpath : Bytes
  pub block_id : Option ℕ
  pub expected_hash : H32
  pub high_priority : Bool
  pub waiting_time : ℕ

abbrev pub type_rank : SyncItemType → ℕ
type_rank block = 1
type_rank file = 2
type_rank dir = 3

unfoldable pub priority : SyncItem → ℕ
priority i = (if i.high_priority then 1 else 2) * 10 + type_rank i.item_type

-- Block numbers in order, -1 first.
abbrev pub block_rank : Option ℕ → ℕ
block_rank none = 0
block_rank (some n) = suc n

unfoldable pub item_lt : SyncItem → SyncItem → Bool
item_lt a b =
    if priority a == priority b
    then if bytes_eq a.vpath b.vpath
      then ltb (block_rank a.block_id) (block_rank b.block_id)
      else bytes_lt a.vpath b.vpath
    else ltb (priority a) (priority b)

pub item_lt_irrefl : (a : SyncItem) → item_lt a a ≡ false
unfolding item_lt
item_lt_irrefl a = ground (arith, bytes_ordered.lt_irrefl a.vpath)

pub item_lt_trans :
    (a b c : SyncItem) → item_lt a b ≡ true → item_lt b c ≡ true → item_lt a c ≡ true
unfolding item_lt
item_lt_trans a b c p q = ground (
  arith,
  bytes_eq_iff a.vpath b.vpath,
  bytes_eq_iff b.vpath c.vpath,
  bytes_eq_iff a.vpath c.vpath,
  bytes_ordered.lt_trans a.vpath b.vpath c.vpath,
  bytes_ordered.lt_irrefl a.vpath,
  bytes_ordered.lt_trans a.vpath b.vpath a.vpath,
)

pub item_lt_cotrans :
    (a b c : SyncItem) → item_lt a c ≡ true → item_lt a b ≡ false → item_lt b c ≡ true
unfolding item_lt
item_lt_cotrans a b c p q = ground (
  arith,
  bytes_eq_iff a.vpath b.vpath,
  bytes_eq_iff b.vpath c.vpath,
  bytes_eq_iff a.vpath c.vpath,
  bytes_ordered.lt_cotrans a.vpath b.vpath c.vpath,
  bytes_trichotomy a.vpath b.vpath,
  bytes_ordered.lt_irrefl a.vpath,
)

instance abbrev pub item_ordered : Ordered SyncItem
item_ordered = record {
  lt = item_lt;
  lt_irrefl = item_lt_irrefl;
  lt_trans = item_lt_trans;
  lt_cotrans = item_lt_cotrans;
}
