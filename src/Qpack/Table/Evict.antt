-- ===== src/Qpack/Table/Evict.antt =====
-- The invariant of the dynamic table, and that the oldest entry is evicted without breaking it.
use quic_x.Common.{
  ℕ, zero, suc, ◌+◌, ◌*◌, ◌^◌, ◌≤◌, ◌<◌, ◌≡◌, refl, sym, ap, subst, ◌∙◌, inl, inr, true, false,
  Option, none, some, List, [], ◌∷◌, ◌++◌, arith, ltb, ◌==◌, if◌then◌else◌, Bool-cases,
  Option-cases, length, List-cases, All, All-split, add32,
}
use quic_x.Qpack.Table.Index.{
  same_item_refl, same_item-eq, first_from, find_key-erase_key, first_from-bound, or_last,
  first_from-append,
}
use quic_x.Qpack.Table.{
  same_item, find_key, erase_key, calculate_entry_size, last_of, forget_place, evict_from,
  evict_entries, make_room, HeaderItem, DynamicTable,
}
use mathlib.Core.List.{append_assoc}

abbrev pub total_size : List HeaderItem → ℕ
total_size [] = 0
total_size (x ∷ xs) = calculate_entry_size x + total_size xs

-- An entry counts with its overhead.
abbrev pub IsCounted : HeaderItem → Type 0
IsCounted x = 32 ≤ calculate_entry_size x

-- A table into which the items of `inserted`, the newest first, have gone. The index is that of the
-- newest entry, the size is the sum of the sizes, and the entries are the newest ones inserted.
pub record IsTable (inserted : List HeaderItem) (t : DynamicTable) : Type 0 where
  pub indexed :
      (key : HeaderItem) → find_key key t.headeritem_index_map ≡ first_from 0 t.headeritem_deque key
  pub sized : t.current_size ≡ total_size t.headeritem_deque
  pub small : t.current_size < 2 ^ 31
  pub counted : All IsCounted t.headeritem_deque
  pub evicted : List HeaderItem
  pub kept : inserted ≡ t.headeritem_deque ++ evicted
  pub total : t.total_insert_count ≡ length inserted

last_of-append :
    (x : HeaderItem) (xs : List HeaderItem)
    → (x ∷ xs ≡ (last_of x xs).1 ++ (last_of x xs).0 ∷ []) × (length (last_of x xs).1 ≡ length xs)
unfolding last_of
last_of-append x [] = (refl, refl)
last_of-append x (y ∷ ys) = let (e, n) = last_of-append y ys in (ap (λ l. x ∷ l) e, omega arith)

total_size-append :
    (xs ys : List HeaderItem) → total_size (xs ++ ys) ≡ total_size xs + total_size ys
total_size-append [] ys = omega arith
total_size-append (x ∷ xs) ys = omega (arith, total_size-append xs ys)

module _ (m : List (HeaderItem × ℕ)) (init : List HeaderItem) (item : HeaderItem)
    (indexed : (key : HeaderItem) → find_key key m ≡ first_from 0 (init ++ item ∷ []) key) where
  place_of :
      (key : HeaderItem)
      → find_key key m ≡ or_last (first_from 0 init key) (length init) (same_item item key)
  place_of key =
      indexed key
      ∙ first_from-append 0 init item key
      ∙ ap (λ (k : ℕ). or_last (first_from 0 init key) k (same_item item key)) (omega arith)

  forget_place-found :
      (k : ℕ)
      → find_key item m ≡ some k
      → forget_place item (length init) m ≡ (if k == length init then erase_key item m else m)
  unfolding forget_place
  forget_place-found k e = rw (e, forget_place) refl

  -- The last entry is the only one of its kind.
  forget_last :
      (key : HeaderItem)
      → first_from 0 init item ≡ none
      → find_key key (forget_place item (length init) m) ≡ first_from 0 init key
  forget_last key e =
      let here : find_key item m ≡ some (length init) =
        place_of item ∙ rw (e, same_item_refl item) refl in
      let same : (length init == length init) ≡ true = ground arith in
      rw (forget_place-found (length init) here, same)
        (find_key-erase_key key item m ∙ elim (Bool-cases (same_item item key)) [
          | inl y ↦ rw y (
              sym (
                subst (λ (k : HeaderItem). first_from 0 init k ≡ none) (same_item-eq item key y) e))
          | inr n ↦ rw n (place_of key ∙ rw n (or_last_false (first_from 0 init key) (length init)))
        ])
    where
      or_last_false : (o : Option ℕ) (k : ℕ) → or_last o k false ≡ o
      or_last_false none k = refl
      or_last_false (some i) k = refl

  -- There is a newer one of its kind.
  forget_not :
      (key : HeaderItem) (k : ℕ)
      → first_from 0 init item ≡ some k
      → find_key key (forget_place item (length init) m) ≡ first_from 0 init key
  forget_not key k e =
      let (a, b) = first_from-bound 0 init item k e in
      let here : find_key item m ≡ some k = place_of item ∙ rw e refl in
      let other : (k == length init) ≡ false = ground arith in
      rw (forget_place-found k here, other)
        (place_of key ∙ elim (Option-cases (first_from 0 init key)) [
          | inl n ↦ rw n (elim (Bool-cases (same_item item key)) [
            | inl y ↦ absurd (
                some_none (
                  sym e
                  ∙ ap (λ (c : HeaderItem). first_from 0 init c) (same_item-eq item key y)
                  ∙ n))
            | inr z ↦ rw z refl
          ])
          | inr (i, f) ↦ rw f refl
        ])
    where
      some_none : some k ≡ none → ⊥
      some_none e = cc

  pub forget_place-first_from :
      (key : HeaderItem) → find_key key (forget_place item (length init) m) ≡ first_from 0 init key
  forget_place-first_from key = elim (Option-cases (first_from 0 init item)) [
    | inl e ↦ forget_last key e
    | inr (k, e) ↦ forget_not key k e
  ]

-- Room for an entry within a limit.
pub record HasRoom (inserted : List HeaderItem) (max_size entry_size : ℕ) (u : DynamicTable)
    : Type 0 where
  pub table : IsTable inserted u
  pub room : u.current_size + entry_size ≤ max_size
  pub same_max : u.max_size ≡ max_size

evict_from-IsTable :
    (inserted : List HeaderItem) (t : DynamicTable) (x : HeaderItem) (xs : List HeaderItem)
    → t.headeritem_deque ≡ x ∷ xs
    → IsTable inserted t
    → IsTable inserted (evict_from t (x ∷ xs))
unfolding evict_from
evict_from-IsTable inserted t x xs d v =
    let item = (last_of x xs).0 in
    let init = (last_of x xs).1 in
    let (e, n) = last_of-append x xs in
    let whole : t.headeritem_deque ≡ init ++ item ∷ [] = d ∙ e in
    let sum : total_size t.headeritem_deque ≡ total_size init + (calculate_entry_size item + 0) =
      ap total_size whole ∙ total_size-append init (item ∷ []) in
    let sized = v.sized in
    let small = v.small in
    record {
      indexed = λ key. rw (sym n) (
          forget_place-first_from t.headeritem_index_map init item
            (λ k. v.indexed k ∙ ap (λ l. first_from 0 l k) whole) key);
      sized = omega arith;
      small = omega arith;
      counted =
          (All-split IsCounted init (item ∷ []) (subst (λ l. All IsCounted l) whole v.counted)).0;
      evicted = item ∷ v.evicted;
      kept = v.kept ∙ ap (λ l. l ++ v.evicted) whole ∙ append_assoc init (item ∷ []) v.evicted;
      total = v.total;
    }

pub length-le : (xs : List HeaderItem) → All IsCounted xs → 32 * length xs ≤ total_size xs
length-le [] h = omega arith
length-le (x ∷ xs) (p, h) = omega (arith, length-le xs h)

evict_from-shape :
    (t : DynamicTable) (x : HeaderItem) (xs : List HeaderItem)
    → (length (evict_from t (x ∷ xs)).headeritem_deque ≡ length xs)
      × ((evict_from t (x ∷ xs)).max_size ≡ t.max_size)
unfolding evict_from
evict_from-shape t x xs = ((last_of-append x xs).1, refl)

empty_size : (xs : List HeaderItem) → length xs ≤ 0 → total_size xs ≡ 0
empty_size [] h = refl
empty_size (x ∷ xs) h = absurd (omega arith)

-- Once as many entries are evicted as there may have to be, there is room.
pub make_room-IsTable :
    (fuel : ℕ) (inserted : List HeaderItem) (t : DynamicTable) (entry_size : ℕ)
    → length t.headeritem_deque ≤ fuel
    → entry_size ≤ t.max_size
    → t.max_size < 2 ^ 31
    → IsTable inserted t
    → HasRoom inserted t.max_size entry_size (make_room fuel entry_size t)
unfolding make_room
make_room-IsTable zero inserted t entry_size l h b v =
    let sized = v.sized in
    let none_left : total_size t.headeritem_deque ≡ 0 =
      empty_size t.headeritem_deque (omega arith) in
    record { table = v; room = omega arith; same_max = refl }
make_room-IsTable (suc fuel) inserted t entry_size l h b v =
    elim (Bool-cases (ltb t.max_size (add32 t.current_size entry_size))) [
      | inl y ↦ rw y (elim (List-cases t.headeritem_deque) [
        | inl e ↦
            let sized = v.sized in
            let none_left : total_size t.headeritem_deque ≡ 0 = ap total_size e in
            absurd (ground arith)
        | inr (x, xs, e) ↦
            let u = evict_from-IsTable inserted t x xs e v in
            let same : evict_entries t ≡ evict_from t (x ∷ xs) =
              unfold evict_entries in ap (λ l. evict_from t l) e in
            let n : length t.headeritem_deque ≡ suc (length xs) = ap (λ l. length l) e in
            let (m, k) = evict_from-shape t x xs in
            subst (λ r. HasRoom inserted t.max_size entry_size (make_room fuel entry_size r))
              (sym same)
              (subst
                (λ limit.
                  HasRoom inserted limit entry_size
                    (make_room fuel entry_size (evict_from t (x ∷ xs))))
                k
                (make_room-IsTable fuel inserted (evict_from t (x ∷ xs)) entry_size (omega arith)
                  (omega arith) (omega arith) u))
      ])
      | inr n ↦
          let small = v.small in rw n (record { table = v; room = ground arith; same_max = refl })
    ]
