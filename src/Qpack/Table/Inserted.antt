-- ===== src/Qpack/Table/Inserted.antt =====
-- The dynamic table against what has been inserted: an absolute index names one header for good, until
-- the header is evicted, and the indices that are looked up are those of the newest entries.
use quic_x.Common.{
  ℕ, zero, suc, ◌+◌, ◌%◌, ◌^◌, ◌≤◌, ◌<◌, ◌≡◌, refl, sym, ap, subst, ◌∙◌, inl, inr, false, Option,
  none, some, List, [], ◌∷◌, ◌++◌, arith, ltb, ◌==◌, if◌then◌else◌, Bool-cases, Option-cases,
  length, length-append, All, sub64,
}
use quic_x.Qpack.Table.Evict.{IsCounted, length-le, make_room-IsTable, IsTable}
use quic_x.Qpack.Table.{
  same_item, find_key, erase_key, shift_all, calculate_entry_size, make_room, push_front,
  add_header_item, find_header_item, find_header_item_by_absolute_index, update_max_table_size,
  duplicate_entry, HeaderItem, DynamicTable,
}
use mathlib.Core.List.{append_assoc}
use quic_x.Qpack.Table.Index.{first_from, find_key-shift_all, find_key-erase_key, first_from-suc}

-- The item with an absolute index: the first that was inserted has 0. The newest one comes first.
abbrev pub entry_at : List HeaderItem → ℕ → Option HeaderItem
entry_at [] a = none
entry_at (x ∷ xs) a = if a == length xs then some x else entry_at xs a

-- The calls of the encoder and of the decoder's instructions.
pub data TableCall : Type 0 where
  insert : HeaderItem → TableCall
  duplicate : ℕ → TableCall
  set_capacity : ℕ → TableCall

unfoldable pub on_table_call : DynamicTable → TableCall → DynamicTable
on_table_call t (insert item) = (add_header_item t item).0
on_table_call t (duplicate absolute_index) = (duplicate_entry t absolute_index).0
on_table_call t (set_capacity new_size) = update_max_table_size t new_size

abbrev added : DynamicTable → HeaderItem → List HeaderItem
added t item = if (add_header_item t item).1 then item ∷ [] else []

-- What a call inserts.
unfoldable pub inserted_by : DynamicTable → TableCall → List HeaderItem
inserted_by t (insert item) = added t item
inserted_by t (duplicate absolute_index) =
    elim (find_header_item_by_absolute_index t (absolute_index % 2 ^ 32)) [
      | none ↦ []
      | some item ↦ added t item
    ]
inserted_by t (set_capacity new_size) = []

-- The table after the calls, and all that was inserted, the newest first.
unfoldable pub run_table :
    DynamicTable → List HeaderItem → List TableCall → DynamicTable × List HeaderItem
run_table t inserted [] = (t, inserted)
run_table t inserted (c ∷ cs) = run_table (on_table_call t c) (inserted_by t c ++ inserted) cs

-- The sizes that the code can count.
abbrev pub CallFits : TableCall → Type 0
CallFits (insert item) = length item.name + length item.value + 32 < 2 ^ 32
CallFits (duplicate absolute_index) = Unit {0}
CallFits (set_capacity new_size) = new_size < 2 ^ 31

push_front-indexed :
    (m : List (HeaderItem × ℕ)) (deque : List HeaderItem) (item key : HeaderItem)
    → length deque < 2 ^ 32
    → find_key key m ≡ first_from 0 deque key
    → find_key key ((item, 0) ∷ erase_key item (shift_all m)) ≡ first_from 0 (item ∷ deque) key
unfolding find_key first_from
push_front-indexed m deque item key h e = elim (Bool-cases (same_item item key)) [
  | inl y ↦ rw y refl
  | inr n ↦ rw n (
      find_key-erase_key key item (shift_all m)
      ∙ rw (n, find_key-shift_all key m, e) (sym (first_from-suc 0 deque key (omega arith))))
]

push_front-IsTable :
    (inserted : List HeaderItem) (t : DynamicTable) (item : HeaderItem)
    → t.current_size + calculate_entry_size item < 2 ^ 31
    → IsCounted item
    → length inserted + 1 < 2 ^ 64
    → IsTable inserted t
    → IsTable (item ∷ inserted) (push_front t item)
unfolding push_front
push_front-IsTable inserted t item h c l v =
    let sized = v.sized in
    let total = v.total in
    let small = v.small in
    let short = length-le t.headeritem_deque v.counted in
    record {
      indexed = λ key.
          push_front-indexed t.headeritem_index_map t.headeritem_deque item key (omega arith)
            (v.indexed key);
      sized = omega arith;
      small = omega arith;
      counted = (c, v.counted);
      evicted = v.evicted;
      kept = ap (λ l. item ∷ l) v.kept;
      total = omega arith;
    }

-- A table between two calls.
pub record IsBounded (inserted : List HeaderItem) (t : DynamicTable) : Type 0 where
  pub table : IsTable inserted t
  pub limit : t.max_size < 2 ^ 31
  pub bounded : t.current_size ≤ t.max_size

add_header_item-IsBounded :
    (inserted : List HeaderItem) (t : DynamicTable) (item : HeaderItem)
    → IsCounted item
    → length inserted + 1 < 2 ^ 64
    → IsBounded inserted t
    → IsBounded (added t item ++ inserted) (add_header_item t item).0
unfolding add_header_item
add_header_item-IsBounded inserted t item c l v =
    let size = calculate_entry_size item in
    let limit = v.limit in
    elim (Bool-cases (ltb t.max_size size)) [
      | inl y ↦ rw y v
      | inr n ↦
          let fits : size ≤ t.max_size = ground arith in
          let r =
            make_room-IsTable (length t.headeritem_deque) inserted t size (omega arith) fits limit
              v.table in
          let u = make_room (length t.headeritem_deque) size t in
          let room = r.room in
          let max = r.same_max in
          rw n (record {
            table = push_front-IsTable inserted u item (omega arith) c l r.table;
            limit = unfold push_front in omega arith;
            bounded = unfold push_front in omega arith;
          })
    ]

find_header_item-IsCounted :
    (xs : List HeaderItem) (i : ℕ) (item : HeaderItem)
    → All IsCounted xs
    → find_header_item xs i ≡ some item
    → IsCounted item
unfolding find_header_item
find_header_item-IsCounted [] i item h e = absurd (ground arith)
find_header_item-IsCounted (x ∷ xs) zero item (p, h) e =
    let same : x ≡ item = cc in subst IsCounted same p
find_header_item-IsCounted (x ∷ xs) (suc i) item (p, h) e = find_header_item-IsCounted xs i item h e

found-IsCounted :
    (t : DynamicTable) (a : ℕ) (item : HeaderItem)
    → All IsCounted t.headeritem_deque
    → find_header_item_by_absolute_index t a ≡ some item
    → IsCounted item
unfolding find_header_item_by_absolute_index
found-IsCounted t a item h e =
    find_header_item-IsCounted t.headeritem_deque (sub64 (sub64 t.total_insert_count 1) a) item h
      (ground arith)

duplicate-none :
    (t : DynamicTable) (a : ℕ)
    → find_header_item_by_absolute_index t (a % 2 ^ 32) ≡ none
    → (duplicate_entry t a ≡ (t, false)) × (inserted_by t (duplicate a) ≡ [])
unfolding duplicate_entry inserted_by
duplicate-none t a e = (rw (e, duplicate_entry) refl, rw (e, inserted_by) refl)

duplicate-some :
    (t : DynamicTable) (a : ℕ) (item : HeaderItem)
    → find_header_item_by_absolute_index t (a % 2 ^ 32) ≡ some item
    → (duplicate_entry t a ≡ add_header_item t item) × (inserted_by t (duplicate a) ≡ added t item)
unfolding duplicate_entry inserted_by
duplicate-some t a item e = (rw (e, duplicate_entry) refl, rw (e, inserted_by) refl)

duplicate-IsBounded :
    (inserted : List HeaderItem) (t : DynamicTable) (a : ℕ)
    → length inserted + 1 < 2 ^ 64
    → IsBounded inserted t
    → IsBounded (inserted_by t (duplicate a) ++ inserted) (duplicate_entry t a).0
duplicate-IsBounded inserted t a l v =
    elim (Option-cases (find_header_item_by_absolute_index t (a % 2 ^ 32))) [
      | inl n ↦ let (d, i) = duplicate-none t a n in rw (d, i) v
      | inr (item, e) ↦
          let (d, i) = duplicate-some t a item e in
          rw (d, i)
            (add_header_item-IsBounded inserted t item
              (found-IsCounted t (a % 2 ^ 32) item v.table.counted e) l v)
    ]

capacity-IsBounded :
    (inserted : List HeaderItem) (t : DynamicTable) (new_size : ℕ)
    → new_size < 2 ^ 31
    → IsBounded inserted t
    → IsBounded inserted (update_max_table_size t new_size)
unfolding update_max_table_size
capacity-IsBounded inserted t new_size h v =
    let w = v.table in
    let u : IsTable inserted (record t { max_size = new_size }) = record {
      indexed = w.indexed;
      sized = w.sized;
      small = w.small;
      counted = w.counted;
      evicted = w.evicted;
      kept = w.kept;
      total = w.total;
    } in
    let r =
      make_room-IsTable (length t.headeritem_deque) inserted (record t { max_size = new_size }) 0
        (omega arith) (omega arith) h u in
    let room = r.room in
    let max = r.same_max in record { table = r.table; limit = omega arith; bounded = omega arith }

on_table_call-IsBounded :
    (inserted : List HeaderItem) (t : DynamicTable) (c : TableCall)
    → CallFits c
    → length inserted + 1 < 2 ^ 64
    → IsBounded inserted t
    → IsBounded (inserted_by t c ++ inserted) (on_table_call t c)
unfolding on_table_call
on_table_call-IsBounded inserted t (insert item) h l v =
    unfold inserted_by in add_header_item-IsBounded inserted t item (omega arith) l v
on_table_call-IsBounded inserted t (duplicate a) h l v = duplicate-IsBounded inserted t a l v
on_table_call-IsBounded inserted t (set_capacity new_size) h l v =
    unfold inserted_by in capacity-IsBounded inserted t new_size h v

inserted_by-le : (t : DynamicTable) (c : TableCall) → length (inserted_by t c) ≤ 1
unfolding inserted_by
inserted_by-le t (insert item) = ground arith
inserted_by-le t (duplicate a) =
    elim (Option-cases (find_header_item_by_absolute_index t (a % 2 ^ 32))) [
      | inl n ↦ let i = (duplicate-none t a n).1 in omega (arith, ap (λ l. length l) i)
      | inr (item, e) ↦
          let i = (duplicate-some t a item e).1 in subst (λ l. length l ≤ 1) (sym i) (ground arith)
    ]
inserted_by-le t (set_capacity new_size) = omega arith

pub run_table-IsBounded :
    (inserted : List HeaderItem) (t : DynamicTable) (cs : List TableCall)
    → All CallFits cs
    → length inserted + length cs < 2 ^ 64
    → IsBounded inserted t
    → IsBounded (run_table t inserted cs).1 (run_table t inserted cs).0
unfolding run_table
run_table-IsBounded inserted t [] a l v = v
run_table-IsBounded inserted t (c ∷ cs) (h, a) l v =
    let n = length-append (inserted_by t c) inserted in
    let le = inserted_by-le t c in
    run_table-IsBounded (inserted_by t c ++ inserted) (on_table_call t c) cs a (omega arith)
      (on_table_call-IsBounded inserted t c h (omega arith) v)

pub run_table-length :
    (inserted : List HeaderItem) (t : DynamicTable) (cs : List TableCall)
    → length (run_table t inserted cs).1 ≤ length inserted + length cs
unfolding run_table
run_table-length inserted t [] = omega arith
run_table-length inserted t (c ∷ cs) =
    let n = length-append (inserted_by t c) inserted in
    let le = inserted_by-le t c in
    omega (arith, run_table-length (inserted_by t c ++ inserted) (on_table_call t c) cs)

-- What was inserted stays so.
pub run_table-inserted :
    (inserted : List HeaderItem) (t : DynamicTable) (cs : List TableCall)
    → (more : List HeaderItem) × ((run_table t inserted cs).1 ≡ more ++ inserted)
unfolding run_table
run_table-inserted inserted t [] = ([], refl)
run_table-inserted inserted t (c ∷ cs) =
    let (more, e) = run_table-inserted (inserted_by t c ++ inserted) (on_table_call t c) cs in
    (more ++ inserted_by t c, e ∙ sym (append_assoc more (inserted_by t c) inserted))
