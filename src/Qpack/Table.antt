-- ===== src/Qpack/Table.antt =====
-- `DynamicTable` of src/http3/qpack/dynamic_table.cpp. The deque is a list, the newest entry first,
-- and the index an association list from a header to its place in the deque.
pub mod Index
pub mod Evict
pub mod Inserted
pub mod Absolute
mod Tests
use quic_x.Common.{
  ℕ, zero, suc, ◌+◌, ◌-◌, ◌%◌, ◌^◌, Bool, true, false, ◌&&◌, Option, none, some, List, [], ◌∷◌, ltb,
  leb, ◌==◌, if◌then◌else◌, length, add64, sub64, add32, sub32,
}

pub record HeaderItem : Type 0 where
  pub name : List ℕ
  pub value : List ℕ

pub record DynamicTable : Type 0 where
  pub headeritem_deque : List HeaderItem
  pub headeritem_index_map : List (HeaderItem × ℕ)
  pub max_size : ℕ
  pub current_size : ℕ
  pub total_insert_count : ℕ

abbrev pub new_table : ℕ → DynamicTable
new_table max_size = record {
  headeritem_deque = [];
  headeritem_index_map = [];
  max_size = max_size;
  current_size = 0;
  total_insert_count = 0;
}

unfoldable pub same_bytes : List ℕ → List ℕ → Bool
same_bytes [] [] = true
same_bytes [] (y ∷ ys) = false
same_bytes (x ∷ xs) [] = false
same_bytes (x ∷ xs) (y ∷ ys) = x == y && same_bytes xs ys

abbrev pub same_item : HeaderItem → HeaderItem → Bool
same_item a b = same_bytes a.name b.name && same_bytes a.value b.value

-- `headeritem_index_map_.find`
unfoldable pub find_key : HeaderItem → List (HeaderItem × ℕ) → Option ℕ
find_key key [] = none
find_key key ((k, i) ∷ m) = if same_item k key then some i else find_key key m

unfoldable pub erase_key : HeaderItem → List (HeaderItem × ℕ) → List (HeaderItem × ℕ)
erase_key key [] = []
erase_key key ((k, i) ∷ m) =
    let rest = erase_key key m in if same_item k key then rest else ((k, i) ∷ rest)

-- `kv.second += 1` for every entry.
unfoldable pub shift_all : List (HeaderItem × ℕ) → List (HeaderItem × ℕ)
shift_all [] = []
shift_all ((k, i) ∷ m) = (k, add32 i 1) ∷ shift_all m

abbrev pub calculate_entry_size : HeaderItem → ℕ
calculate_entry_size item = (length item.name + length item.value + 32) % 2 ^ 32

-- The oldest entry, and the others.
unfoldable pub last_of : HeaderItem → List HeaderItem → HeaderItem × List HeaderItem
last_of x [] = (x, [])
last_of x (y ∷ ys) = let (last, init) = last_of y ys in (last, x ∷ init)

-- The index without an entry at the place `i`, if that is where it points.
unfoldable pub forget_place : HeaderItem → ℕ → List (HeaderItem × ℕ) → List (HeaderItem × ℕ)
forget_place item i m = elim (find_key item m) [
  | none ↦ m
  | some k ↦ if k == i then erase_key item m else m
]

unfoldable pub evict_from : DynamicTable → List HeaderItem → DynamicTable
evict_from t [] = t
evict_from t (x ∷ xs) =
    let (item, init) = last_of x xs in
    record t {
      headeritem_deque = init;
      headeritem_index_map = forget_place item (length xs) t.headeritem_index_map;
      current_size = sub32 t.current_size (calculate_entry_size item);
    }

unfoldable pub evict_entries : DynamicTable → DynamicTable
unfolding evict_from
evict_entries t = evict_from t t.headeritem_deque

-- The loops `while (current_size_ + entry_size > max_size_)`, with fuel; a size of 0 is that of
-- `UpdateMaxTableSize`.
unfoldable pub make_room : ℕ → ℕ → DynamicTable → DynamicTable
make_room zero entry_size t = t
make_room (suc fuel) entry_size t =
    let rest = make_room fuel entry_size (evict_entries t) in
    if ltb t.max_size (add32 t.current_size entry_size) then rest else t

-- The new entry, once there is room.
unfoldable pub push_front : DynamicTable → HeaderItem → DynamicTable
push_front t item = record t {
  headeritem_deque = item ∷ t.headeritem_deque;
  headeritem_index_map = (item, 0) ∷ erase_key item (shift_all t.headeritem_index_map);
  current_size = add32 t.current_size (calculate_entry_size item);
  total_insert_count = add64 t.total_insert_count 1;
}

unfoldable pub add_header_item : DynamicTable → HeaderItem → DynamicTable × Bool
unfolding push_front make_room
add_header_item t item =
    let entry_size = calculate_entry_size item in
    if ltb t.max_size entry_size
    then (t, false)
    else (push_front (make_room (length t.headeritem_deque) entry_size t) item, true)

-- `FindHeaderItem`
unfoldable pub find_header_item : List HeaderItem → ℕ → Option HeaderItem
find_header_item [] index = none
find_header_item (x ∷ xs) zero = some x
find_header_item (x ∷ xs) (suc index) = find_header_item xs index

-- `none` for -1.
abbrev pub find_header_item_index : DynamicTable → HeaderItem → Option ℕ
find_header_item_index t item = find_key item t.headeritem_index_map

unfoldable pub find_header_item_by_absolute_index : DynamicTable → ℕ → Option HeaderItem
find_header_item_by_absolute_index t absolute_index =
    let evicted_count = sub64 t.total_insert_count (length t.headeritem_deque) in
    let deque_pos = sub64 (sub64 t.total_insert_count 1) absolute_index in
    if ltb absolute_index evicted_count
    then none
    else if leb (length t.headeritem_deque) deque_pos
    then none
    else find_header_item t.headeritem_deque deque_pos

-- `none` for -1.
unfoldable pub find_absolute_index : DynamicTable → HeaderItem → Option ℕ
find_absolute_index t item = elim (find_header_item_index t item) [
  | none ↦ none
  | some deque_pos ↦ some (t.total_insert_count - 1 - deque_pos)
]

unfoldable pub find_name_from : ℕ → List HeaderItem → List ℕ → Option ℕ
find_name_from i [] name = none
find_name_from i (x ∷ xs) name =
    if same_bytes x.name name then some i else find_name_from (i + 1) xs name

abbrev pub find_header_name_index : DynamicTable → List ℕ → Option ℕ
find_header_name_index t name = find_name_from 0 t.headeritem_deque name

unfoldable pub find_absolute_name_index : DynamicTable → List ℕ → Option ℕ
find_absolute_name_index t name = elim (find_header_name_index t name) [
  | none ↦ none
  | some deque_pos ↦ some (t.total_insert_count - 1 - deque_pos)
]

unfoldable pub update_max_table_size : DynamicTable → ℕ → DynamicTable
unfolding make_room
update_max_table_size t new_size =
    make_room (length t.headeritem_deque) 0 (record t { max_size = new_size })

unfoldable pub duplicate_entry : DynamicTable → ℕ → DynamicTable × Bool
unfolding add_header_item find_header_item_by_absolute_index
duplicate_entry t absolute_index =
    elim (find_header_item_by_absolute_index t (absolute_index % 2 ^ 32)) [
      | none ↦ (t, false)
      | some item ↦ add_header_item t item
    ]
