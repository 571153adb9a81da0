-- ===== src/Qpack/Table/Index.antt =====
-- The index of the dynamic table, which is changed step by step, against the reference: the place of
-- the newest entry with that name and value.
use quic_x.Common.{
  ℕ, ◌+◌, ◌^◌, ◌≤◌, ◌<◌, ◌≡◌, refl, sym, ap, ◌∙◌, inl, inr, Bool, true, false, Option, none, some,
  List, [], ◌∷◌, ◌++◌, arith, if◌then◌else◌, Bool-cases, length, add32,
}
use quic_x.Qpack.Table.{same_bytes, same_item, find_key, erase_key, shift_all, HeaderItem}

same_bytes_refl : (xs : List ℕ) → same_bytes xs xs ≡ true
unfolding same_bytes
same_bytes_refl [] = refl
same_bytes_refl (x ∷ xs) = ground (arith, same_bytes_refl xs)

same_bytes-eq : (xs ys : List ℕ) → same_bytes xs ys ≡ true → xs ≡ ys
unfolding same_bytes
same_bytes-eq [] [] e = refl
same_bytes-eq [] (y ∷ ys) e = cc
same_bytes-eq (x ∷ xs) [] e = cc
same_bytes-eq (x ∷ xs) (y ∷ ys) e = ground (arith, same_bytes-eq xs ys)

pub same_item_refl : (a : HeaderItem) → same_item a a ≡ true
same_item_refl a = rw (same_bytes_refl a.name, same_bytes_refl a.value) refl

pub same_item-eq : (a b : HeaderItem) → same_item a b ≡ true → a ≡ b
same_item-eq a b e =
    let n : same_bytes a.name b.name ≡ true = ground arith in
    let v : same_bytes a.value b.value ≡ true = ground arith in
    let p = same_bytes-eq a.name b.name n in
    let q = same_bytes-eq a.value b.value v in λ i. record { name = p i; value = q i }

-- The place of the newest entry with this name and value.
unfoldable pub first_from : ℕ → List HeaderItem → HeaderItem → Option ℕ
first_from i [] key = none
first_from i (x ∷ xs) key = if same_item x key then some i else first_from (i + 1) xs key

abbrev pub plus_one : Option ℕ → Option ℕ
plus_one none = none
plus_one (some i) = some (add32 i 1)

pub find_key-shift_all :
    (key : HeaderItem) (m : List (HeaderItem × ℕ))
    → find_key key (shift_all m) ≡ plus_one (find_key key m)
unfolding find_key shift_all
find_key-shift_all key [] = refl
find_key-shift_all key ((k, i) ∷ m) = elim (Bool-cases (same_item k key)) [
  | inl y ↦ rw y refl
  | inr n ↦ rw n (find_key-shift_all key m)
]

others :
    (k gone key : HeaderItem)
    → same_item k gone ≡ false
    → same_item k key ≡ true
    → same_item gone key ≡ false
others k gone key n z = elim (Bool-cases (same_item gone key)) [
  | inl y ↦
      let e : k ≡ gone = same_item-eq k key z ∙ sym (same_item-eq gone key y) in
      let t : same_item k gone ≡ true =
        ap (λ (a : HeaderItem). same_item k a) (sym e) ∙ same_item_refl k in
      absurd (true_false (sym t ∙ n))
  | inr n ↦ n
]
  where
    true_false : true ≡ false → ⊥
    true_false e = cc

pub find_key-erase_key :
    (key gone : HeaderItem) (m : List (HeaderItem × ℕ))
    → find_key key (erase_key gone m) ≡ (if same_item gone key then none else find_key key m)
unfolding find_key erase_key
find_key-erase_key key gone [] = elim (Bool-cases (same_item gone key)) [
  | inl y ↦ rw y refl
  | inr n ↦ rw n refl
]
find_key-erase_key key gone ((k, i) ∷ m) = elim (Bool-cases (same_item k gone)) [
  | inl y ↦
      let e : same_item k key ≡ same_item gone key =
        ap (λ (a : HeaderItem). same_item a key) (same_item-eq k gone y) in
      rw y (
        find_key-erase_key key gone m
        ∙ elim (Bool-cases (same_item gone key)) [ inl z ↦ rw z refl | inr z ↦ rw (z, e, z) refl ])
  | inr n ↦ rw n (elim (Bool-cases (same_item k key)) [
    | inl z ↦ rw (z, others k gone key n z) refl
    | inr z ↦ rw z (find_key-erase_key key gone m)
  ])
]

pub first_from-suc :
    (i : ℕ) (xs : List HeaderItem) (key : HeaderItem)
    → i + length xs < 2 ^ 32
    → first_from (i + 1) xs key ≡ plus_one (first_from i xs key)
unfolding first_from
first_from-suc i [] key h = refl
first_from-suc i (x ∷ xs) key h = elim (Bool-cases (same_item x key)) [
  | inl y ↦ rw y (ap (λ (k : ℕ). some k) (omega arith))
  | inr n ↦ rw n (first_from-suc (i + 1) xs key (omega arith))
]

pub first_from-bound :
    (i : ℕ) (xs : List HeaderItem) (key : HeaderItem) (k : ℕ)
    → first_from i xs key ≡ some k
    → (i ≤ k) × (k < i + length xs)
unfolding first_from
first_from-bound i [] key k e = absurd (ground arith)
first_from-bound i (x ∷ xs) key k e = elim (Bool-cases (same_item x key)) [
  | inl y ↦ ground arith
  | inr n ↦
      let (a, b) = first_from-bound (i + 1) xs key k (ground arith) in (omega arith, omega arith)
]

abbrev pub or_last : Option ℕ → ℕ → Bool → Option ℕ
or_last (some k) i b = some k
or_last none i b = if b then some i else none

pub first_from-append :
    (i : ℕ) (xs : List HeaderItem) (item key : HeaderItem)
    → first_from i (xs ++ item ∷ []) key
      ≡ or_last (first_from i xs key) (i + length xs) (same_item item key)
unfolding first_from
first_from-append i [] item key = elim (Bool-cases (same_item item key)) [
  | inl y ↦ rw y (ap (λ (k : ℕ). some k) (omega arith))
  | inr n ↦ rw n refl
]
first_from-append i (x ∷ xs) item key = elim (Bool-cases (same_item x key)) [
  | inl y ↦ rw y refl
  | inr n ↦ rw n (
      first_from-append (i + 1) xs item key
      ∙ ap (λ (k : ℕ). or_last (first_from (i + 1) xs key) k (same_item item key)) (omega arith))
]
