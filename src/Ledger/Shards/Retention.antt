-- ===== src/Ledger/Shards/Retention.antt =====
-- Which shards `remove_old_shards` leaves.
use hpcore.Base.{
  ℕ, zero, suc, ◌+◌, ◌-◌, ◌/◌, ◌^◌, ◌≤◌, ◌<◌, ◌≡◌, inl, inr, Bool-cases, Bool, true, false, ◌&&◌,
  arith, ltb, leb, if◌then◌else◌, elem, discard, elem-discard, nat_keyed, sub64,
}
use hpcore.Ledger.Shards.{Shards, custom, remove_down, remove_old_shards, rounds_from}

-- Below a shard that is missing no shard is there, up to the bound.
abbrev pub IsContiguous : ℕ → Shards → Type 0
IsContiguous bound shards =
    (i : ℕ) → suc i < bound → elem (suc i) shards ≡ false → elem i shards ≡ false

missing_below :
    (i k : ℕ) (shards : Shards)
    → IsContiguous (suc i) shards
    → elem i shards ≡ false
    → k ≤ i
    → elem k shards ≡ false
missing_below zero k shards h none_there le = ground arith
missing_below (suc i) k shards h none_there le =
    let below : elem i shards ≡ false = h i (omega arith) none_there in
    let rest = missing_below i k shards (λ j lt. h j (omega arith)) below in ground (arith, rest)

remove_down_lem :
    (removable : ℕ → Bool) (n k : ℕ) (shards : Shards)
    → ((i : ℕ) → removable i ≡ true)
    → IsContiguous n shards
    → elem k (remove_down removable n shards) ≡ (elem k shards && leb n k)
unfolding remove_down
remove_down_lem removable zero k shards all h = ground arith
remove_down_lem removable (suc i) k shards all h = elim (Bool-cases (elem i shards)) [
  | inl there ↦
      rw (there, all i)
        (ground (
          arith,
          remove_down_lem removable i k (discard i shards) all (λ j lt gone.
              ground (arith, h j, elem-discard i (suc j) shards, elem-discard i j shards)),
          elem-discard i k shards,
        ))
  | inr gone ↦ rw gone (ground (arith, missing_below i k shards h gone))
]

rounds_lem : (n : ℕ) → n < 2 ^ 31 → rounds_from n ≡ suc n
rounds_lem n h = ground arith

kept_from :
    (removable : ℕ → Bool) (last max_shards : ℕ) (shards : Shards)
    → ((i : ℕ) → removable i ≡ true)
    → last < 2 ^ 31
    → IsContiguous (suc last) shards
    → (k : ℕ)
    → elem k (
        if ltb last max_shards
        then shards
        else remove_down removable (rounds_from (last - max_shards)) shards)
      ≡ (elem k shards && ltb last (k + max_shards))
kept_from removable last max_shards shards all few h k = elim (Bool-cases (ltb last max_shards)) [
  | inl early ↦ rw early (ground arith)
  | inr late ↦
      rw (late, rounds_lem (last - max_shards) (omega arith))
        (ground (
          arith,
          remove_down_lem removable (suc (last - max_shards)) k shards all
              (λ i lt. h i (omega arith)),
        ))
]

-- In a custom history, after a ledger of that number and with fewer than 2^31 shards, if no shard is
-- missing in between and all can be removed, exactly the last `max_shards` shards are left.
pub kept_exactly :
    (removable : ℕ → Bool) (lcl_seq_no shard_size max_shards : ℕ) (shards : Shards)
    → ((i : ℕ) → removable i ≡ true)
    → 0 < lcl_seq_no
    → lcl_seq_no < 2 ^ 64
    → (lcl_seq_no - 1) / shard_size < 2 ^ 31
    → IsContiguous (suc ((lcl_seq_no - 1) / shard_size)) shards
    → (k : ℕ)
    → elem k (remove_old_shards custom removable lcl_seq_no shard_size max_shards shards)
      ≡ (elem k shards && ltb ((lcl_seq_no - 1) / shard_size) (k + max_shards))
unfolding remove_old_shards
kept_exactly removable lcl_seq_no shard_size max_shards shards all pos fits few h k =
    let e : sub64 lcl_seq_no 1 ≡ lcl_seq_no - 1 = omega arith in
    rw e (kept_from removable ((lcl_seq_no - 1) / shard_size) max_shards shards all few h k)
