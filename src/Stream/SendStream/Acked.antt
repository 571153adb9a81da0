-- ===== src/Stream/SendStream/Acked.antt =====
-- The ranges of acknowledged bytes: they stand apart in rising order, they cover exactly the bytes
-- that were acknowledged, and `acked_offset_` is the end of the range that starts at 0.
use quic_x.Stream.Send.{all_ack_done}
use quic_x.Common.{
  ℕ, ◌+◌, ◌^◌, ◌≤◌, ◌<◌, max, ◌≡◌, refl, sym, ap, ◌∙◌, inl, inr, Bool, true, false, ◌&&◌, ◌||◌,
  List, [], ◌∷◌, arith, ltb, leb, ◌==◌, if◌then◌else◌, leb→le, Bool-cases, if_both, add64,
}
use quic_x.Stream.SendStream.Acks.{
  absorb, starts_after, add_range, advance_offset, check_all_data_acked, note_acked, on_data_acked,
}
use quic_x.Stream.SendStream.{SendStream}

-- The ranges start at `least` or above, none is empty, and between two there is a gap.
abbrev pub Apart : ℕ → List (ℕ × ℕ) → Type 0
Apart least [] = Unit {0}
Apart least ((s, e) ∷ rs) = (least ≤ s) × (s < e) × Apart (e + 1) rs

abbrev pub within : ℕ → ℕ → ℕ → Bool
within a b x = leb a x && ltb x b

unfoldable pub covers : List (ℕ × ℕ) → ℕ → Bool
covers [] x = false
covers ((s, e) ∷ rs) x = within s e x || covers rs x

Apart-mono : (k l : ℕ) (rs : List (ℕ × ℕ)) → k ≤ l → Apart l rs → Apart k rs
Apart-mono k l [] h a = tt
Apart-mono k l ((s, e) ∷ rs) h (g, p, a) = (omega arith, p, a)

absorb-Apart :
    (rs : List (ℕ × ℕ)) (least a b k : ℕ)
    → Apart k rs
    → least ≤ a
    → a < b
    → Apart least (absorb rs a b)
unfolding absorb
absorb-Apart [] least a b k p h l = (h, l, tt)
absorb-Apart ((s, e) ∷ rs) least a b k (g, q, p) h l = elim (Bool-cases (leb s b)) [
  | inl y ↦ rw y (absorb-Apart rs least a (max e b) (e + 1) p h (omega arith))
  | inr n ↦ rw n (h, l, (ground arith, q, p))
]

absorb-covers :
    (rs : List (ℕ × ℕ)) (a b k x : ℕ)
    → Apart k rs
    → a ≤ k
    → a < b
    → covers (absorb rs a b) x ≡ (within a b x || covers rs x)
unfolding absorb covers
absorb-covers [] a b k x p h l = refl
absorb-covers ((s, e) ∷ rs) a b k x (g, q, p) h l = elim (Bool-cases (leb s b)) [
  | inl y ↦
      rw (y, absorb-covers rs a (max e b) (e + 1) x p (omega arith) (omega arith)) (ground arith)
  | inr n ↦ rw n refl
]

starts_below : (rs : List (ℕ × ℕ)) (k a : ℕ) → Apart k rs → starts_after rs a ≡ false → k ≤ a
starts_below [] k a p e = absurd (true_false e)
  where
    true_false : true ≡ false → ⊥
    true_false e = cc
starts_below ((s, e) ∷ rs) k a (g, q, p) h = ground arith

starts_above :
    (rs : List (ℕ × ℕ)) (k a : ℕ) → Apart k rs → starts_after rs a ≡ true → Apart (max k (a + 1)) rs
starts_above [] k a p e = tt
starts_above ((s, e) ∷ rs) k a (g, q, p) h = (ground arith, q, p)

add_range-Apart :
    (rs : List (ℕ × ℕ)) (least a b k : ℕ)
    → Apart k rs
    → least ≤ k
    → least ≤ a
    → a < b
    → Apart least (add_range rs a b)
unfolding add_range
add_range-Apart [] least a b k p m h l = absorb-Apart [] least a b k p h l
add_range-Apart ((s, e) ∷ rs) least a b k (g, q, p) m h l = elim (Bool-cases (leb s a)) [
  | inl y ↦ rw y (elim (Bool-cases (starts_after rs a)) [
    | inl z ↦ rw z (elim (Bool-cases (leb a e)) [
      | inl r ↦ rw r (absorb-Apart rs least s (max e b) (e + 1) p (omega arith) (omega arith))
      | inr r ↦ rw r (omega arith, q, absorb-Apart rs (e + 1) a b (e + 1) p (ground arith) l)
    ])
    | inr z ↦ rw z (
      omega arith,
      q,
      add_range-Apart rs (e + 1) a b (e + 1) p (omega arith) (starts_below rs (e + 1) a p z) l,
    )
  ])
  | inr n ↦ rw n (absorb-Apart ((s, e) ∷ rs) least a b k (g, q, p) h l)
]

add_range-covers :
    (rs : List (ℕ × ℕ)) (a b k x : ℕ)
    → Apart k rs
    → a < b
    → covers (add_range rs a b) x ≡ (within a b x || covers rs x)
unfolding add_range covers
add_range-covers [] a b k x p l = unfold absorb in refl
add_range-covers ((s, e) ∷ rs) a b k x (g, q, p) l = elim (Bool-cases (leb s a)) [
  | inl y ↦ rw y (elim (Bool-cases (starts_after rs a)) [
    | inl z ↦ rw z (elim (Bool-cases (leb a e)) [
      | inl r ↦
          rw (r, absorb-covers rs s (max e b) (e + 1) x p (omega arith) (omega arith))
            (ground arith)
      | inr r ↦
          rw
            (
              r,
              absorb-covers rs a b (max (e + 1) (a + 1)) x (starts_above rs (e + 1) a p z)
                  (omega arith) l,
            )
            (ground arith)
    ])
    | inr z ↦ rw (z, add_range-covers rs a b (e + 1) x p l) (ground arith)
  ])
  | inr n ↦
      rw n (absorb-covers ((s, e) ∷ rs) a b (max k (a + 1)) x (ground arith, q, p) (omega arith) l)
]

-- The end of the range that starts at 0.
abbrev pub first_end : List (ℕ × ℕ) → ℕ
first_end [] = 0
first_end ((s, e) ∷ rs) = if s == 0 then e else 0

covers_above : (rs : List (ℕ × ℕ)) (k x : ℕ) → Apart k rs → x < k → covers rs x ≡ false
unfolding covers
covers_above [] k x p h = refl
covers_above ((s, e) ∷ rs) k x (g, q, p) h =
    ground (arith, covers_above rs (e + 1) x p (omega arith))

pub covers-below : (rs : List (ℕ × ℕ)) (x : ℕ) → x < first_end rs → covers rs x ≡ true
unfolding covers
covers-below [] x h = absurd (omega arith)
covers-below ((s, e) ∷ rs) x h = ground arith

pub covers-first_end : (rs : List (ℕ × ℕ)) → Apart 0 rs → covers rs (first_end rs) ≡ false
unfolding covers
covers-first_end [] p = refl
covers-first_end ((s, e) ∷ rs) (g, q, p) =
    ground
      (arith, covers_above rs (e + 1) e p (omega arith), covers_above rs (e + 1) 0 p (omega arith))

-- What has been acknowledged stays acknowledged.
first_end-le :
    (rs ss : List (ℕ × ℕ))
    → Apart 0 ss
    → ((x : ℕ) → covers rs x ≡ true → covers ss x ≡ true)
    → first_end rs ≤ first_end ss
first_end-le rs ss p h = elim (Bool-cases (leb (first_end rs) (first_end ss))) [
  | inl y ↦ leb→le (first_end rs) (first_end ss) y
  | inr n ↦
      let c = covers-below rs (first_end ss) (ground arith) in
      absurd (true_false (sym (h (first_end ss) c) ∙ covers-first_end ss p))
]
  where
    true_false : true ≡ false → ⊥
    true_false e = cc

advance_offset-first_end :
    (rs : List (ℕ × ℕ)) (n : ℕ) → n ≤ first_end rs → advance_offset rs n ≡ first_end rs
unfolding advance_offset
advance_offset-first_end [] n h = omega arith
advance_offset-first_end ((s, e) ∷ rs) n h = ground arith

-- The ranges, the offset up to which everything is acknowledged, and the bytes acknowledged so far.
pub record IsTracked (acked : ℕ → Bool) (s : SendStream) : Type 0 where
  pub apart : Apart 0 s.acked_ranges
  pub exact : (x : ℕ) → covers s.acked_ranges x ≡ acked x
  pub offset : s.acked_offset ≡ first_end s.acked_ranges

-- The bytes acknowledged after one more acknowledgement.
abbrev pub also : (ℕ → Bool) → ℕ → ℕ → ℕ → Bool
also acked offset_start range_length x =
    within offset_start (offset_start + range_length) x || acked x

check-IsTracked :
    (acked : ℕ → Bool) (s : SendStream)
    → IsTracked acked s
    → IsTracked acked (check_all_data_acked s)
unfolding check_all_data_acked
check-IsTracked acked s v =
    if_both (IsTracked acked) _ (record s { machine = (all_ack_done s.machine).0 }) s
      (record { apart = v.apart; exact = v.exact; offset = v.offset }) v

-- An acknowledgement adds exactly its bytes.
pub on_data_acked-IsTracked :
    (acked : ℕ → Bool) (s : SendStream) (offset_start range_length : ℕ) (fin : Bool)
    → offset_start + range_length < 2 ^ 64
    → IsTracked acked s
    → IsTracked
        (also acked offset_start range_length)
        (on_data_acked s offset_start range_length fin)
unfolding on_data_acked note_acked
on_data_acked-IsTracked acked s o n fin h v =
    let end : add64 o n ≡ o + n = omega arith in
    check-IsTracked (also acked o n) (note_acked s o n fin) (elim (Bool-cases (ltb 0 n)) [
      | inl y ↦
          let rs = add_range s.acked_ranges o (o + n) in
          let p =
            add_range-Apart s.acked_ranges 0 o (o + n) 0 v.apart (omega arith) (omega arith)
              (ground arith) in
          let c = λ (x : ℕ). add_range-covers s.acked_ranges o (o + n) 0 x v.apart (ground arith) in
          rw (y, end)
            (record {
              apart = p;
              exact = λ x. c x ∙ ap (λ k. within o (o + n) x || k) (v.exact x);
              offset =
                  (let f = v.offset in
                    let le =
                      first_end-le s.acked_ranges rs p
                        (λ x k. c x ∙ (rw k (or_true (within o (o + n) x)))) in
                    advance_offset-first_end rs s.acked_offset (omega arith));
            })
      | inr z ↦ rw z (record {
        apart = v.apart;
        exact = λ x. v.exact x ∙ none_within x (ground arith);
        offset =
            (let f = v.offset in
              advance_offset-first_end s.acked_ranges s.acked_offset (omega arith));
      })
    ])
  where
    or_true : (b : Bool) → (b || true) ≡ true
    or_true true = refl
    or_true false = refl

    none_within : (x : ℕ) → n ≡ 0 → acked x ≡ (within o (o + n) x || acked x)
    none_within x e = ground arith
