-- ===== src/Util/RolloverHashset/Window.antt =====
-- The hash set against a history that forgets nothing: it answers by the last `maxsize` hashes
-- that were accepted.
use hpcore.Base.{
  ℕ, suc, zero, ◌-◌, ◌<◌, ◌≤◌, ◌≡◌, refl, Bool, true, false, not, ◌++◌, List, [], ◌∷◌, Bytes, elem,
  discard, length, drop, ltb, if◌then◌else◌, bytes_keyed, arith, NoDup, elem-cong, elem-append,
  elem-discard, NoDup-snoc, length-append, Bool-cases, inl, inr, ap, dec_lt, sym, ◌∙◌,
}
use hpcore.Util.RolloverHashset.{RolloverHashset, init, drop_oldest, trim, try_emplace}

-- The set and the list hold the same hashes, none twice and never more than `maxsize`.
pub record IsValid (s : RolloverHashset) : Type 0 where
  pub agree : (h : Bytes) → elem h s.recent_hashes ≡ elem h s.recent_hashes_list
  pub distinct : NoDup s.recent_hashes_list
  pub bounded : length s.recent_hashes_list ≤ s.maxsize
  pub positive : 0 < s.maxsize

pub init-IsValid : (maxsize : ℕ) → IsValid (init maxsize)
unfolding init elem
init-IsValid maxsize = record {
  agree = λ h. refl;
  distinct = tt;
  bounded = omega arith;
  positive = ground arith;
}

agree_trim :
    (hash oldest h : Bytes) (set rest : List Bytes)
    → elem h set ≡ elem h (oldest ∷ rest)
    → elem oldest rest ≡ false
    → elem h (discard oldest set) ≡ elem h rest
unfolding elem
agree_trim hash oldest h set rest e d =
    ground (arith, elem-discard oldest h set, elem-cong oldest h rest)

-- The hashes that may still be answered for, of a history with the oldest first.
pub window : ℕ → List Bytes → List Bytes
window n history = drop (length history - n) history

-- The history after a hash arrives: a hash in the window is refused.
pub accept : ℕ → Bytes → List Bytes → List Bytes
accept n h history = if elem h (window n history) then history else history ++ h ∷ []

-- The state holds the window of a history of accepted hashes.
pub record Tracks (n : ℕ) (s : RolloverHashset) (history : List Bytes) : Type 0 where
  pub valid : IsValid s
  pub size : s.maxsize ≡ n
  pub recent : s.recent_hashes_list ≡ window n history

drop-snoc :
    (k : ℕ) (xs : List Bytes) (x : Bytes)
    → k ≤ length xs
    → drop k (xs ++ x ∷ []) ≡ drop k xs ++ x ∷ []
drop-snoc zero xs x h = refl
drop-snoc (suc k) [] x h = absurd (omega arith)
drop-snoc (suc k) (y ∷ ys) x h = drop-snoc k ys x (omega arith)

drop-suc : (k : ℕ) (xs ys : List Bytes) (y : Bytes) → drop k xs ≡ y ∷ ys → drop (suc k) xs ≡ ys
drop-suc zero [] ys y e = cc
drop-suc zero (x ∷ xs) ys y e = cc
drop-suc (suc k) [] ys y e = cc
drop-suc (suc k) (x ∷ xs) ys y e = drop-suc k xs ys y e

length-drop : (k : ℕ) (xs : List Bytes) → length (drop k xs) ≡ length xs - k
length-drop zero xs = omega arith
length-drop (suc k) [] = omega arith
length-drop (suc k) (x ∷ xs) = omega (arith, length-drop k xs)

-- With room left, the window grows by the new hash.
window-room :
    (n : ℕ) (history : List Bytes) (h : Bytes)
    → length (window n history) < n
    → window n (history ++ h ∷ []) ≡ window n history ++ h ∷ []
unfolding window
window-room n history h room =
    let few : length history < n = omega (arith, length-drop (length history - n) history) in
    let e : length (history ++ h ∷ []) - n ≡ length history - n =
      omega (arith, length-append history (h ∷ [])) in
    rw e (drop-snoc (length history - n) history h (omega arith))

-- A full window drops its oldest hash.
window-full :
    (n : ℕ) (history rest : List Bytes) (h oldest : Bytes)
    → length (window n history) ≡ n
    → window n history ++ h ∷ [] ≡ oldest ∷ rest
    → window n (history ++ h ∷ []) ≡ rest
unfolding window
window-full n history rest h oldest full e =
    let many : n ≤ length history = omega (arith, length-drop (length history - n) history) in
    let k : length (history ++ h ∷ []) - n ≡ suc (length history - n) =
      omega (arith, length-append history (h ∷ [])) in
    rw k (
      drop-suc (length history - n) (history ++ h ∷ []) rest oldest
        (drop-snoc (length history - n) history h (omega arith) ∙ e))

snoc-cases :
    (xs : List Bytes) (x : Bytes) → (y : Bytes) × (ys : List Bytes) × (xs ++ x ∷ [] ≡ y ∷ ys)
snoc-cases [] x = (x, [], refl)
snoc-cases (y ∷ ys) x = (y, ys ++ x ∷ [], refl)

-- The state after a hash is added and before the oldest is dropped.
added : Bytes → RolloverHashset → RolloverHashset
added h s = record s {
  recent_hashes = s.recent_hashes ++ h ∷ [];
  recent_hashes_list = s.recent_hashes_list ++ h ∷ [];
}

room_trim :
    (h : Bytes) (s : RolloverHashset)
    → length s.recent_hashes_list < s.maxsize
    → trim (added h s) ≡ added h s
unfolding trim added
room_trim h s room = ground (arith, length-append s.recent_hashes_list (h ∷ []))

module _ (h : Bytes) (s : RolloverHashset) (v : IsValid s)
    (new : elem h s.recent_hashes ≡ false) where
  added-agree :
      (q : Bytes) → elem q (added h s).recent_hashes ≡ elem q (added h s).recent_hashes_list
  unfolding added
  added-agree q = ground (
    arith,
    v.agree q,
    elem-append q s.recent_hashes (h ∷ []),
    elem-append q s.recent_hashes_list (h ∷ []),
  )

  added-distinct : NoDup (s.recent_hashes_list ++ h ∷ [])
  added-distinct = NoDup-snoc s.recent_hashes_list h (ground (arith, v.agree h)) v.distinct

  room-IsValid : length s.recent_hashes_list < s.maxsize → IsValid (trim (added h s))
  unfolding added
  room-IsValid room = rw (room_trim h s room) (record {
    agree = added-agree;
    distinct = added-distinct;
    bounded = omega (arith, length-append s.recent_hashes_list (h ∷ []));
    positive = v.positive;
  })

  module _ (oldest : Bytes) (rest : List Bytes) (e : s.recent_hashes_list ++ h ∷ [] ≡ oldest ∷ rest)
      (full : length s.recent_hashes_list ≡ s.maxsize) where
    trim-full : trim (added h s) ≡ record s {
      recent_hashes = discard oldest (s.recent_hashes ++ h ∷ []);
      recent_hashes_list = rest;
    }
    unfolding trim added
    trim-full =
        let over : ltb s.maxsize (length (s.recent_hashes_list ++ h ∷ [])) ≡ true =
          ground (arith, length-append s.recent_hashes_list (h ∷ [])) in
        rw (over, e, drop_oldest)

    full-IsValid : IsValid (trim (added h s))
    unfolding added
    full-IsValid =
        let d : NoDup (oldest ∷ rest) = rw e at added-distinct in
        rw trim-full (record {
          agree = λ q.
              agree_trim h oldest q (s.recent_hashes ++ h ∷ []) rest (added-agree q ∙ ap (elem q) e)
                d.0;
          distinct = d.1;
          bounded = omega (arith, ap length e, length-append s.recent_hashes_list (h ∷ []));
          positive = v.positive;
        })

module _ (n : ℕ) (h : Bytes) (s : RolloverHashset) (history : List Bytes)
    (t : Tracks n s history) where
  arrival : elem h s.recent_hashes ≡ false → Tracks n (trim (added h s)) (history ++ h ∷ [])
  unfolding added
  arrival new = elim (dec_lt (length s.recent_hashes_list) s.maxsize) [
    | yes room ↦ record {
      valid = room-IsValid h s t.valid new room;
      size = room_size room;
      recent = room_recent room;
    }
    | no full ↦
        let (oldest, rest, e) = snoc-cases s.recent_hashes_list h in
        let filled : length s.recent_hashes_list ≡ s.maxsize = omega (arith, t.valid.bounded) in
        record {
          valid = full-IsValid h s t.valid new oldest rest e filled;
          size = rw (trim-full h s t.valid new oldest rest e filled) t.size;
          recent = rw (trim-full h s t.valid new oldest rest e filled) (
              sym (
                window-full n history rest h oldest (omega (arith, ap length t.recent, t.size))
                  (ap (λ (l : List Bytes). l ++ h ∷ []) (sym t.recent) ∙ e)));
        }
  ]
    where
      roomy : length s.recent_hashes_list < s.maxsize → trim (added h s) ≡ added h s
      roomy room = room_trim h s room

      room_size : length s.recent_hashes_list < s.maxsize → (trim (added h s)).maxsize ≡ n
      room_size room = rw (roomy room) t.size

      room_recent :
          length s.recent_hashes_list < s.maxsize
          → (trim (added h s)).recent_hashes_list ≡ window n (history ++ h ∷ [])
      room_recent room = rw (roomy room) (
          ap (λ (l : List Bytes). l ++ h ∷ []) t.recent
          ∙ sym (window-room n history h (omega (arith, ap length t.recent, t.size))))

-- One arrival: the answer is whether the hash is outside the window of the accepted history, and
-- the state goes on to hold the window, also when it drops its oldest hash to make room.
pub try_emplace-Tracks :
    (n : ℕ) (h : Bytes) (s : RolloverHashset) (history : List Bytes)
    → Tracks n s history
    → ((try_emplace h s).0 ≡ not (elem h (window n history)))
      × Tracks n (try_emplace h s).1 (accept n h history)
unfolding try_emplace accept added
try_emplace-Tracks n h s history t =
    let v = t.valid in
    let same : elem h s.recent_hashes ≡ elem h (window n history) =
      v.agree h ∙ ap (elem h) t.recent in
    elim (Bool-cases (elem h s.recent_hashes)) [
      | inl old ↦
          rw (old, sym same ∙ old)
            (refl, record { valid = t.valid; size = t.size; recent = t.recent })
      | inr new ↦ rw (new, sym same ∙ new) (refl, arrival n h s history t new)
    ]

pub init-Tracks : (maxsize : ℕ) → 0 < maxsize → Tracks maxsize (init maxsize) []
unfolding init window
init-Tracks maxsize h = record {
  valid = init-IsValid maxsize;
  size = ground arith;
  recent = ground arith;
}

-- The answers to a sequence of arrivals, and the state after them.
unfoldable pub run : List Bytes → RolloverHashset → List Bool × RolloverHashset
run [] s = ([], s)
run (h ∷ hs) s =
    let (answer, s') = try_emplace h s in
    let (answers, last) = run hs s' in (answer ∷ answers, last)

-- The same for the history.
pub answers : ℕ → List Bytes → List Bytes → List Bool
answers n [] history = []
answers n (h ∷ hs) history = not (elem h (window n history)) ∷ answers n hs (accept n h history)

run-Tracks :
    (n : ℕ) (hs : List Bytes) (s : RolloverHashset) (history : List Bytes)
    → Tracks n s history
    → (run hs s).0 ≡ answers n hs history
unfolding run answers
run-Tracks n [] s history t = refl
run-Tracks n (h ∷ hs) s history t =
    let (e, next) = try_emplace-Tracks n h s history t in
    rw (e, run-Tracks n hs (try_emplace h s).1 (accept n h history) next)

-- Whatever arrives, the hash set made for `maxsize` hashes answers each arrival as the history
-- does: it accepts a hash unless it is one of the last `maxsize` accepted.
pub run-init :
    (maxsize : ℕ) (hs : List Bytes)
    → 0 < maxsize
    → (run hs (init maxsize)).0 ≡ answers maxsize hs []
run-init maxsize hs h = run-Tracks maxsize hs (init maxsize) [] (init-Tracks maxsize h)
