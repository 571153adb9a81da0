-- ===== src/Qpack/Table/Absolute.antt =====
-- Absolute indices: each names one header for good, until the header is evicted, and those that are
-- looked up name the headers that were asked for.
use quic_x.Common.{
  ℕ, zero, suc, ◌+◌, ◌-◌, ◌^◌, ◌≤◌, ◌<◌, ◌≡◌, refl, sym, ap, ◌∙◌, ◌⊎◌, inl, inr, true, false, none,
  some, List, [], ◌∷◌, ◌++◌, arith, ltb, leb, ◌==◌, if◌then◌else◌, leb→le, Bool-cases, Option-cases,
  length, length-append, All, IsU64, sub64,
}
use quic_x.Qpack.Table.Evict.{IsTable}
use quic_x.Qpack.Table.Inserted.{
  entry_at, run_table, CallFits, run_table-IsBounded, run_table-length, run_table-inserted,
  TableCall, IsBounded,
}
use quic_x.Qpack.Table.Index.{same_item-eq, first_from, first_from-bound}
use quic_x.Qpack.Table.{
  new_table, same_item, find_key, find_header_item, find_header_item_index,
  find_header_item_by_absolute_index, find_absolute_index, HeaderItem, DynamicTable,
}

find_header_item-entry_at :
    (xs gone : List HeaderItem) (pos a : ℕ)
    → pos + a + 1 ≡ length xs + length gone
    → pos < length xs
    → find_header_item xs pos ≡ entry_at (xs ++ gone) a
unfolding find_header_item
find_header_item-entry_at [] gone pos a h l = absurd (omega arith)
find_header_item-entry_at (x ∷ xs) gone zero a h l =
    let n = length-append xs gone in
    let e : (a == length (xs ++ gone)) ≡ true = ground arith in rw e refl
find_header_item-entry_at (x ∷ xs) gone (suc pos) a h l =
    let n = length-append xs gone in
    let e : (a == length (xs ++ gone)) ≡ false = ground arith in
    rw e (find_header_item-entry_at xs gone pos a (omega arith) (omega arith))

entry_at-beyond : (xs : List HeaderItem) (a : ℕ) → length xs ≤ a → entry_at xs a ≡ none
entry_at-beyond [] a h = refl
entry_at-beyond (x ∷ xs) a h =
    let e : (a == length xs) ≡ false = ground arith in rw e (entry_at-beyond xs a (omega arith))

entry_at-append :
    (ys xs : List HeaderItem) (a : ℕ) → a < length xs → entry_at (ys ++ xs) a ≡ entry_at xs a
entry_at-append [] xs a h = refl
entry_at-append (y ∷ ys) xs a h =
    let n = length-append ys xs in
    let e : (a == length (ys ++ xs)) ≡ false = ground arith in rw e (entry_at-append ys xs a h)

entry_at-some :
    (xs : List HeaderItem) (a evicted : ℕ) (item : HeaderItem)
    → (if ltb a evicted then none else entry_at xs a) ≡ some item
    → (entry_at xs a ≡ some item) × (a < length xs)
entry_at-some xs a evicted item e =
    let f : entry_at xs a ≡ some item = ground arith in
    (
      f,
      elim (Bool-cases (leb (length xs) a)) [
        | inl y ↦ absurd (none_some (sym (entry_at-beyond xs a (leb→le _ _ y)) ∙ f))
        | inr z ↦ ground arith
      ],
    )
  where
    none_some : none ≡ some item → ⊥
    none_some e = cc

-- The look-up of an absolute index, with the words' wraps gone.
by_absolute :
    (t : DynamicTable) (a evicted : ℕ)
    → t.total_insert_count ≡ length t.headeritem_deque + evicted
    → t.total_insert_count < 2 ^ 64
    → a < 2 ^ 64
    → find_header_item_by_absolute_index t a ≡ (
        if ltb a evicted
        then none
        else if leb t.total_insert_count a
        then none
        else find_header_item t.headeritem_deque (t.total_insert_count - 1 - a))
unfolding find_header_item_by_absolute_index
by_absolute t a evicted e h b =
    let c : sub64 t.total_insert_count (length t.headeritem_deque) ≡ evicted = omega arith in
    rw c (elim (Bool-cases (ltb a evicted)) [
      | inl y ↦ rw y refl
      | inr n ↦ rw n (elim (Bool-cases (leb t.total_insert_count a)) [
        | inl y ↦
            let g : leb (length t.headeritem_deque) (sub64 (sub64 t.total_insert_count 1) a)
                ≡ true =
              ground arith in
            rw (y, g) refl
        | inr z ↦
            let p : sub64 (sub64 t.total_insert_count 1) a ≡ t.total_insert_count - 1 - a =
              ground arith in
            let g : leb (length t.headeritem_deque) (t.total_insert_count - 1 - a) ≡ false =
              ground arith in
            rw (z, p, g) refl
      ])
    ])

by_absolute-entry_at :
    (inserted : List HeaderItem) (t : DynamicTable) (a : ℕ)
    → length inserted < 2 ^ 64
    → a < 2 ^ 64
    → IsTable inserted t
    → find_header_item_by_absolute_index t a
      ≡ (if ltb a (length inserted - length t.headeritem_deque) then none else entry_at inserted a)
by_absolute-entry_at inserted t a h b v =
    let d = t.headeritem_deque in
    let n = ap (λ l. length l) v.kept ∙ length-append d v.evicted in
    let total = v.total in
    let gone : length inserted - length d ≡ length v.evicted = omega arith in
    by_absolute t a (length v.evicted) (omega arith) (omega arith) b
    ∙ rw gone (elim (Bool-cases (ltb a (length v.evicted))) [
      | inl y ↦ rw y refl
      | inr z ↦ rw z (elim (Bool-cases (leb t.total_insert_count a)) [
        | inl y ↦ rw y (sym (entry_at-beyond inserted a (ground arith)))
        | inr x ↦
            let below : a < t.total_insert_count = ground arith in
            let above : length v.evicted ≤ a = ground arith in
            rw x (
              find_header_item-entry_at d v.evicted (t.total_insert_count - 1 - a) a (omega arith)
                (omega arith)
              ∙ ap (λ l. entry_at l a) (sym v.kept))
      ])
    ])

new-IsBounded : (max_size : ℕ) → max_size < 2 ^ 31 → IsBounded [] (new_table max_size)
new-IsBounded max_size h = record {
  table = record {
    indexed = λ key. unfold find_key in unfold first_from in refl;
    sized = refl;
    small = omega arith;
    counted = tt;
    evicted = [];
    kept = refl;
    total = refl;
  };
  limit = h;
  bounded = omega arith;
}

-- Whatever is inserted, duplicated and resized on a new table: its size stays within its capacity, an
-- absolute index gives the item that was inserted with that number, unless it is among those evicted,
-- and the index of a header is the place of the newest entry with its name and value. The capacities
-- are below 2^31, and fewer than 2^64 items are inserted, each below 2^32 bytes.
pub run_table-entry_at :
    (max_size : ℕ) (cs : List TableCall) (a : ℕ) (item : HeaderItem)
    → max_size < 2 ^ 31
    → All CallFits cs
    → length cs < 2 ^ 64
    → IsU64 a
    → ((run_table (new_table max_size) [] cs).0.current_size
        ≤ (run_table (new_table max_size) [] cs).0.max_size)
      × (find_header_item_by_absolute_index (run_table (new_table max_size) [] cs).0 a ≡ (
          if ltb a (
            length (run_table (new_table max_size) [] cs).1
            - length (run_table (new_table max_size) [] cs).0.headeritem_deque)
          then none
          else entry_at (run_table (new_table max_size) [] cs).1 a))
      × (find_header_item_index (run_table (new_table max_size) [] cs).0 item
          ≡ first_from 0 (run_table (new_table max_size) [] cs).0.headeritem_deque item)
run_table-entry_at max_size cs a item h f l b =
    let t = (run_table (new_table max_size) [] cs).0 in
    let inserted = (run_table (new_table max_size) [] cs).1 in
    let v =
      run_table-IsBounded [] (new_table max_size) cs f (omega arith) (new-IsBounded max_size h) in
    let few : length inserted < 2 ^ 64 =
      omega (arith, run_table-length [] (new_table max_size) cs) in
    (v.bounded, by_absolute-entry_at inserted t a few b v.table, v.table.indexed item)

first_from-item :
    (i : ℕ) (xs : List HeaderItem) (key : HeaderItem) (k : ℕ)
    → first_from i xs key ≡ some k
    → find_header_item xs (k - i) ≡ some key
unfolding first_from find_header_item
first_from-item i [] key k e = absurd (ground arith)
first_from-item i (x ∷ xs) key k e = elim (Bool-cases (same_item x key)) [
  | inl y ↦
      let z : k - i ≡ 0 = ground arith in
      rw z (ap (λ (c : HeaderItem). some c) (same_item-eq x key y))
  | inr n ↦
      let f : first_from (i + 1) xs key ≡ some k = ground arith in
      let (le, lt) = first_from-bound (i + 1) xs key k f in
      let z : k - i ≡ suc (k - (i + 1)) = omega arith in rw z (first_from-item (i + 1) xs key k f)
]

found_index :
    (t : DynamicTable) (item : HeaderItem) (a : ℕ)
    → find_absolute_index t item ≡ some a
    → (pos : ℕ) × (find_key item t.headeritem_index_map ≡ some pos)
      × (a ≡ t.total_insert_count - 1 - pos)
unfolding find_absolute_index
found_index t item a e = elim (Option-cases (find_key item t.headeritem_index_map)) [
  | inl f ↦ absurd (ground (arith, f))
  | inr (pos, f) ↦ (pos, f, ground (arith, f))
]

by_absolute-found :
    (inserted : List HeaderItem) (t : DynamicTable) (item : HeaderItem) (a : ℕ)
    → length inserted < 2 ^ 64
    → IsTable inserted t
    → find_absolute_index t item ≡ some a
    → find_header_item_by_absolute_index t a ≡ some item
by_absolute-found inserted t item a h v e =
    let d = t.headeritem_deque in
    let n = ap (λ l. length l) v.kept ∙ length-append d v.evicted in
    let total = v.total in
    let (pos, f, g) = found_index t item a e in
    let first : first_from 0 d item ≡ some pos = sym (v.indexed item) ∙ f in
    let (low, below) = first_from-bound 0 d item pos first in
    let p : ltb a (length v.evicted) ≡ false = ground arith in
    let q : leb t.total_insert_count a ≡ false = ground arith in
    let r : t.total_insert_count - 1 - a ≡ pos - 0 = omega arith in
    by_absolute t a (length v.evicted) (omega arith) (omega arith) (omega arith)
    ∙ rw (p, q, r) (first_from-item 0 d item pos first)

-- After any such calls, the absolute index that is found for a header is one under which the table
-- gives that very header.
pub find_absolute_index-entry :
    (max_size : ℕ) (cs : List TableCall) (item : HeaderItem) (a : ℕ)
    → max_size < 2 ^ 31
    → All CallFits cs
    → length cs < 2 ^ 64
    → find_absolute_index (run_table (new_table max_size) [] cs).0 item ≡ some a
    → find_header_item_by_absolute_index (run_table (new_table max_size) [] cs).0 a ≡ some item
find_absolute_index-entry max_size cs item a h f l e =
    let v =
      run_table-IsBounded [] (new_table max_size) cs f (omega arith) (new-IsBounded max_size h) in
    by_absolute-found (run_table (new_table max_size) [] cs).1
      (run_table (new_table max_size) [] cs).0 item a
      (omega (arith, run_table-length [] (new_table max_size) cs)) v.table e

-- An absolute index that names a header after some calls names no other one after any further calls:
-- it gives the same header, or none once that is evicted.
pub find_header_item_by_absolute_index-stays :
    (max_size : ℕ) (cs ds : List TableCall) (a : ℕ) (item : HeaderItem)
    → max_size < 2 ^ 31
    → All CallFits cs
    → All CallFits ds
    → length cs + length ds < 2 ^ 64
    → IsU64 a
    → find_header_item_by_absolute_index (run_table (new_table max_size) [] cs).0 a ≡ some item
    → (find_header_item_by_absolute_index
          (run_table
            (run_table (new_table max_size) [] cs).0
            (run_table (new_table max_size) [] cs).1
            ds).0
          a
        ≡ none)
      ⊎ (find_header_item_by_absolute_index
            (run_table
              (run_table (new_table max_size) [] cs).0
              (run_table (new_table max_size) [] cs).1
              ds).0
            a
          ≡ some item)
find_header_item_by_absolute_index-stays max_size cs ds a item h f g l b e =
    let t = (run_table (new_table max_size) [] cs).0 in
    let old = (run_table (new_table max_size) [] cs).1 in
    let v =
      run_table-IsBounded [] (new_table max_size) cs f (omega arith) (new-IsBounded max_size h) in
    let n = run_table-length [] (new_table max_size) cs in
    let u = (run_table t old ds).0 in
    let all = (run_table t old ds).1 in
    let w = run_table-IsBounded old t ds g (omega arith) v in
    let m = run_table-length old t ds in
    let (more, k) = run_table-inserted old t ds in
    let before = by_absolute-entry_at old t a (omega arith) b v.table in
    let after = by_absolute-entry_at all u a (omega arith) b w.table in
    let named =
      entry_at-some old a (length old - length t.headeritem_deque) item (sym before ∙ e) in
    elim (Bool-cases (ltb a (length all - length u.headeritem_deque))) [
      | inl y ↦ inl (after ∙ rw y refl)
      | inr z ↦ inr (
          after
          ∙ rw z refl
          ∙ ap (λ l. entry_at l a) k
          ∙ entry_at-append more old a named.1
          ∙ named.0)
    ]
