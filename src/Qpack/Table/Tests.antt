-- ===== src/Qpack/Table/Tests.antt =====
-- A table with room for two small headers, into which three go.
use quic_x.Common.{
  ℕ, ◌-◌, ◌≤◌, ◌≡◌, refl, ◌⊎◌, none, some, List, [], ◌∷◌, arith, ltb, if◌then◌else◌, length, All,
}
use quic_x.Qpack.Table.{
  new_table, same_bytes, find_key, erase_key, shift_all, make_room, push_front, add_header_item,
  find_header_item, find_header_item_index, find_header_item_by_absolute_index, find_absolute_index,
  HeaderItem, DynamicTable,
}
use quic_x.Qpack.Table.Index.{first_from}
use quic_x.Qpack.Table.Inserted.{
  entry_at, on_table_call, inserted_by, run_table, CallFits, TableCall, insert, duplicate,
}
use quic_x.Qpack.Table.Absolute.{
  run_table-entry_at, find_absolute_index-entry, find_header_item_by_absolute_index-stays,
}

abbrev header : ℕ → HeaderItem
header n = record { name = n ∷ []; value = n ∷ [] }

abbrev two : List TableCall
two = insert (header 1) ∷ insert (header 2) ∷ []

abbrev later : List TableCall
later = duplicate 1 ∷ insert (header 3) ∷ []

abbrev after_two : DynamicTable
after_two = (run_table (new_table 70) [] two).0

second : find_absolute_index after_two (header 2) ≡ some 1
unfolding run_table on_table_call inserted_by add_header_item push_front make_room erase_key
    shift_all find_absolute_index find_key same_bytes
second = refl

first_kept : find_header_item_by_absolute_index after_two 0 ≡ some (header 1)
unfolding run_table on_table_call inserted_by add_header_item push_front make_room erase_key
    shift_all find_header_item_by_absolute_index find_header_item find_key same_bytes
first_kept = refl

two_fit : All CallFits two
two_fit = (omega arith, (omega arith, tt))

later_fit : All CallFits later
later_fit = (tt, (omega arith, tt))

find_absolute_index-entry_example : find_header_item_by_absolute_index after_two 1 ≡ some (header 2)
find_absolute_index-entry_example =
    find_absolute_index-entry 70 two (header 2) 1 (omega arith) two_fit (omega arith) second

find_header_item_by_absolute_index-stays_example :
    (find_header_item_by_absolute_index
        (run_table after_two (run_table (new_table 70) [] two).1 later).0
        0
      ≡ none)
    ⊎ (find_header_item_by_absolute_index
          (run_table after_two (run_table (new_table 70) [] two).1 later).0
          0
        ≡ some (header 1))
find_header_item_by_absolute_index-stays_example =
    find_header_item_by_absolute_index-stays 70 two later 0 (header 1) (omega arith) two_fit
      later_fit (omega arith) (omega arith) first_kept

run_table-entry_at_example :
    (after_two.current_size ≤ after_two.max_size)
    × (find_header_item_by_absolute_index after_two 1 ≡ (
        if ltb 1 (length (run_table (new_table 70) [] two).1 - length after_two.headeritem_deque)
        then none
        else entry_at (run_table (new_table 70) [] two).1 1))
    × (find_header_item_index after_two (header 2)
        ≡ first_from 0 after_two.headeritem_deque (header 2))
run_table-entry_at_example =
    run_table-entry_at 70 two 1 (header 2) (omega arith) two_fit (omega arith) (omega arith)
