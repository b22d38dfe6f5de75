-- ===== src/Util/Text.antt =====
-- src/util/util.cpp: pieces of texts and of file names.
use hpcore.Base.{
  is_prefix, is_nil, ℕ, zero, suc, ◌-◌, ◌≡◌, refl, ap, ◌∙◌, true, false, ◌++◌, List, [], ◌∷◌,
  Option, none, some, Bytes, arith, ◌==◌, if◌then◌else◌, length, All, Option-cases, drop,
  Bool-cases, inl, inr, elem, nat_keyed, append_assoc, append-nil, sym,
}

-- The piece that ends here, unless it is empty.
abbrev pub push_piece : Bytes → List Bytes → List Bytes
push_piece [] pieces = pieces
push_piece (b ∷ bs) pieces = (b ∷ bs) ∷ pieces

-- The pieces from a position on: so many bytes of a delimiter are left to pass, and the piece so far.
unfoldable pub split_from : Bytes → ℕ → Bytes → Bytes → List Bytes
split_from delimeter (suc n) [] piece = push_piece piece []
split_from delimeter (suc n) (b ∷ str) piece = split_from delimeter n str piece
split_from delimeter zero [] piece = push_piece piece []
split_from delimeter zero (b ∷ str) piece =
    let found = is_prefix delimeter (b ∷ str) in
    let cut = split_from delimeter (length delimeter - 1) str [] in
    let on = split_from delimeter zero str (piece ++ b ∷ []) in
    if found then push_piece piece cut else on

unfoldable pub split_string : Bytes → Bytes → List Bytes
split_string str delimeter = split_from delimeter 0 str []

-- The text before the last dot and the text from the last dot on.
unfoldable pub split_at_dot : Bytes → Option (Bytes × Bytes)
split_at_dot [] = none
split_at_dot (b ∷ bs) = at_dot b bs (split_at_dot bs)
  where
    at_dot : ℕ → Bytes → Option (Bytes × Bytes) → Option (Bytes × Bytes)
    at_dot b bs (some (stem, extension)) = some (b ∷ stem, extension)
    at_dot b bs none = if b == 46 then some ([], b ∷ bs) else none

abbrev or_nothing : Option (Bytes × Bytes) → Bytes
or_nothing none = []
or_nothing (some (stem, extension)) = extension

abbrev or_all : Bytes → Option (Bytes × Bytes) → Bytes
or_all name none = name
or_all name (some (stem, extension)) = stem

unfoldable pub fetch_file_extension : Bytes → Bytes
fetch_file_extension path = or_nothing (split_at_dot path)

unfoldable pub remove_file_extension : Bytes → Bytes
remove_file_extension file_name = or_all file_name (split_at_dot file_name)

-- The pieces with a delimiter of one byte between them.
abbrev pub join : ℕ → List Bytes → Bytes
join d [] = []
join d (t ∷ []) = t
join d (t ∷ u ∷ ts) = t ++ d ∷ join d (u ∷ ts)

-- A piece is not empty and has no delimiter in it.
abbrev pub IsPiece : ℕ → Bytes → Type 0
IsPiece d t = (is_nil t ≡ false) × (elem d t ≡ false)

pass_piece :
    (d : ℕ) (t rest piece : Bytes)
    → elem d t ≡ false
    → split_from (d ∷ []) 0 (t ++ rest) piece ≡ split_from (d ∷ []) 0 rest (piece ++ t)
unfolding split_from is_prefix elem
pass_piece d [] rest piece free = ap (split_from (d ∷ []) 0 rest) (sym (append-nil piece))
pass_piece d (b ∷ t) rest piece free =
    let other : (d == b) ≡ false = ground (arith, free) in
    let free' : elem d t ≡ false = ground (arith, free) in
    rw other (
      pass_piece d t rest (piece ++ b ∷ []) free'
      ∙ ap (split_from (d ∷ []) 0 rest) (append_assoc piece (b ∷ []) t))

push_nonempty :
    (t : Bytes) (pieces : List Bytes) → is_nil t ≡ false → push_piece t pieces ≡ t ∷ pieces
push_nonempty [] pieces h = cc
push_nonempty (b ∷ t) pieces h = refl

-- Pieces that are joined by a delimiter of one byte are got back by splitting the text, where no piece
-- is empty or has the delimiter in it.
pub split_string-join :
    (d : ℕ) (ts : List Bytes) → All (IsPiece d) ts → split_string (join d ts) (d ∷ []) ≡ ts
unfolding split_string split_from is_prefix
split_string-join d [] h = refl
split_string-join d (t ∷ []) h =
    ap (λ (x : Bytes). split_from (d ∷ []) 0 x []) (sym (append-nil t))
    ∙ pass_piece d t [] [] h.0.1
    ∙ push_nonempty t [] h.0.0
split_string-join d (t ∷ u ∷ ts) h =
    let here : (d == d) ≡ true = ground arith in
    pass_piece d t (d ∷ join d (u ∷ ts)) [] h.0.1
    ∙ rw here refl
    ∙ push_nonempty t (split_string (join d (u ∷ ts)) (d ∷ [])) h.0.0
    ∙ ap (λ (rest : List Bytes). t ∷ rest) (split_string-join d (u ∷ ts) h.1)

-- The name without its extension and the extension, which keeps its dot, make up the name, and there
-- is no dot in the extension but at its start.
pub extension_split :
    (name : Bytes)
    → (remove_file_extension name ++ fetch_file_extension name ≡ name)
      × (elem 46 (drop 1 (fetch_file_extension name)) ≡ false)
unfolding remove_file_extension fetch_file_extension split_at_dot elem
extension_split [] = (refl, refl)
extension_split (b ∷ bs) = elim (Option-cases (split_at_dot bs)) [
  | inr (parts, found) ↦
      let rest = extension_split bs in
      let joined : parts.0 ++ parts.1 ≡ bs = rw found at rest.0 in
      let plain : elem 46 (drop 1 parts.1) ≡ false = rw found at rest.1 in
      rw found (ap (λ (x : Bytes). b ∷ x) joined, plain)
  | inl absent ↦ elim (Bool-cases (b == 46)) [
    | inl dot ↦ rw (absent, dot) (refl, no_dot bs absent)
    | inr other ↦ rw (absent, other) (append-nil (b ∷ bs), refl)
  ]
]
  where
    no_dot : (x : Bytes) → split_at_dot x ≡ none → elem 46 x ≡ false
    no_dot [] h = refl
    no_dot (c ∷ x) h = elim (Option-cases (split_at_dot x)) [
      | inr (parts, found) ↦
          let clash : ◌≡◌ {A = Option (Bytes × Bytes)} (some (c ∷ parts.0, parts.1)) none =
            rw found at h in
          cc
      | inl absent ↦ elim (Bool-cases (c == 46)) [
        | inl dot ↦
            let clash : ◌≡◌ {A = Option (Bytes × Bytes)} (some ([], c ∷ x)) none =
              rw (absent, dot) at h in
            cc
        | inr other ↦ ground (arith, other, no_dot x absent)
      ]
    ]
