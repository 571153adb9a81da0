-- ===== src/Stream/Reorder/Chain.antt =====
-- When the peer always cuts the stream at the same offsets, no frame that has come in is lost: it
-- has been written or it waits, and what has come in without a gap has been written.
use quic_x.Common.{
  ℕ, zero, suc, ◌+◌, ◌^◌, ◌≤◌, ◌<◌, ◌≡◌, refl, sym, subst, ◌∙◌, ◌≢◌, ◌⊎◌, inl, inr, none, some,
  List, [], ◌∷◌, arith, ltb, leb, ◌==◌, ltb→lt, leb→le, ==_iff, Bool-cases, Option-cases, if_both,
  length, All, add64,
}
use quic_x.Stream.Reorder.{Waiting, find_at, erase_at, take_next, drain, gather, Gathered}
use quic_x.Stream.Reorder.Content.{
  drain-none, drain-some, find_at-Fits, write-IsPrefix, take_next-IsPrefix, IsDrained, Fits,
  IsPrefix,
}

-- Where the `n`-th frame starts, if the frame at an offset has `size` bytes.
abbrev pub start : (ℕ → ℕ) → ℕ → ℕ
start size zero = 0
start size (suc n) = start size n + size (start size n)

-- The frame at an offset has been written or waits.
abbrev pub Arrived : Gathered → ℕ → Type 0
Arrived g offset = (offset < g.next) ⊎ ((bytes : List ℕ) × (find_at offset g.waiting ≡ some bytes))

pub record IsCutAt (size : ℕ → ℕ) (w : ℕ × List ℕ) : Type 0 where
  pub index : ℕ
  pub at_start : w.0 ≡ start size index
  pub whole : length w.1 ≡ size w.0

pub record IsCut (size : ℕ → ℕ) (g : Gathered) : Type 0 where
  pub count : ℕ
  pub next_start : g.next ≡ start size count
  pub waiting_cut : All (IsCutAt size) g.waiting

-- Another frame is found whether or not this one is taken out.
find_at-erase_at : (o p : ℕ) (ws : Waiting) → o ≢ p → find_at o (erase_at p ws) ≡ find_at o ws
unfolding find_at erase_at
find_at-erase_at o p [] h = refl
find_at-erase_at o p ((q, b) ∷ ws) h = ground (arith, find_at-erase_at o p ws h)

module _ (size : ℕ → ℕ) (positive : (o : ℕ) → 0 < size o) where
  pub start_mono : (n k : ℕ) → n ≤ k → start size n ≤ start size k
  start_mono n zero h = rw (zero_only n h) (omega arith)
    where
      zero_only : (n : ℕ) → n ≤ 0 → n ≡ 0
      zero_only n h = omega arith
  start_mono n (suc k) h = elim (Bool-cases (leb n k)) [
    | inl y ↦ let r = start_mono n k (leb→le n k y) in omega arith
    | inr f ↦ let e : n ≡ suc k = ground arith in rw e (omega arith)
  ]

  start_lt : (n k : ℕ) → start size n < start size k → n < k
  start_lt n k h = elim (Bool-cases (ltb n k)) [
    | inl y ↦ ltb→lt n k y
    | inr f ↦ let r = start_mono k n (ground arith) in absurd (omega arith)
  ]

  pub find_at-IsCutAt :
      (offset : ℕ) (ws : Waiting) (bytes : List ℕ)
      → All (IsCutAt size) ws
      → find_at offset ws ≡ some bytes
      → IsCutAt size (offset, bytes)
  unfolding find_at
  find_at-IsCutAt offset [] bytes h e = cc
  find_at-IsCutAt offset ((o, b) ∷ ws) bytes (f, h) e = elim (Bool-cases (o == offset)) [
    | inl y ↦
        let same : o ≡ offset = (==_iff o offset).0 y in
        let got : b ≡ bytes = ground arith in
        subst (λ n. IsCutAt size (n, bytes)) same (subst (λ l. IsCutAt size (o, l)) got f)
    | inr n ↦ find_at-IsCutAt offset ws bytes h (ground arith)
  ]

  erase_at-IsCut :
      (offset : ℕ) (ws : Waiting) → All (IsCutAt size) ws → All (IsCutAt size) (erase_at offset ws)
  unfolding erase_at
  erase_at-IsCut offset [] h = h
  erase_at-IsCut offset ((o, b) ∷ ws) (f, h) =
      if_both (All (IsCutAt size)) (o == offset) ws ((o, b) ∷ erase_at offset ws) h
        (f, erase_at-IsCut offset ws h)

  step-IsCut :
      (next last count : ℕ) (written bytes : List ℕ) (waiting : Waiting)
      → next ≡ start size count
      → length bytes ≡ size next
      → next + length bytes < 2 ^ 64
      → All (IsCutAt size) waiting
      → IsCut size (record {
        next = add64 next (length bytes);
        written = written;
        waiting = waiting;
        last_length = last;
      })
  step-IsCut next last count written bytes waiting e l b h =
      let sum : add64 next (length bytes) ≡ next + length bytes = omega arith in
      record { count = suc count; next_start = sum ∙ (rw (l, e) refl); waiting_cut = h }

  module _ (content : ℕ → ℕ) (limit : ℕ) (small : limit < 2 ^ 64) where
    take_next-IsCut :
        (g : Gathered) (bytes : List ℕ)
        → IsPrefix content limit g
        → IsCut size g
        → find_at g.next g.waiting ≡ some bytes
        → IsCut size (take_next g bytes)
    unfolding take_next
    take_next-IsCut g bytes v c e =
        let f = find_at-Fits content limit small g.next g.waiting bytes v.waiting_fit e in
        let b = f.below in
        let w = find_at-IsCutAt g.next g.waiting bytes c.waiting_cut e in
        step-IsCut g.next (length bytes) c.count _ bytes (erase_at g.next g.waiting) c.next_start
          w.whole (omega arith) (erase_at-IsCut g.next g.waiting c.waiting_cut)

    take_next-Arrived :
        (o : ℕ) (g : Gathered) (bytes : List ℕ)
        → IsPrefix content limit g
        → IsCut size g
        → find_at g.next g.waiting ≡ some bytes
        → Arrived g o
        → Arrived (take_next g bytes) o
    unfolding take_next
    take_next-Arrived o g bytes v c e a =
        let f = find_at-Fits content limit small g.next g.waiting bytes v.waiting_fit e in
        let b = f.below in
        let w = find_at-IsCutAt g.next g.waiting bytes c.waiting_cut e in
        let l = w.whole in
        let p = positive g.next in
        elim a [
          | inl h ↦ inl (omega arith)
          | inr (other, h) ↦ elim (Bool-cases (o == g.next)) [
            | inl y ↦ inl (ground arith)
            | inr n ↦ inr (other, find_at-erase_at o g.next g.waiting (λ q. ground arith) ∙ h)
          ]
        ]

    drain-IsCut :
        (fuel : ℕ) (g : Gathered)
        → IsPrefix content limit g
        → IsCut size g
        → IsCut size (drain fuel g)
    drain-IsCut zero g v c = unfold drain in c
    drain-IsCut (suc fuel) g v c = elim (Option-cases (find_at g.next g.waiting)) [
      | inl e ↦ rw (drain-none fuel g e) c
      | inr (bytes, e) ↦ rw (drain-some fuel g bytes e) (
          drain-IsCut fuel (take_next g bytes) (take_next-IsPrefix content limit small g bytes v e)
            (take_next-IsCut g bytes v c e))
    ]

    drain-Arrived :
        (fuel o : ℕ) (g : Gathered)
        → IsPrefix content limit g
        → IsCut size g
        → Arrived g o
        → Arrived (drain fuel g) o
    drain-Arrived zero o g v c a = unfold drain in a
    drain-Arrived (suc fuel) o g v c a = elim (Option-cases (find_at g.next g.waiting)) [
      | inl e ↦ rw (drain-none fuel g e) a
      | inr (bytes, e) ↦
          let f = find_at-Fits content limit small g.next g.waiting bytes v.waiting_fit e in
          let w = find_at-IsCutAt g.next g.waiting bytes c.waiting_cut e in
          rw (drain-some fuel g bytes e) (
            drain-Arrived fuel o (take_next g bytes)
              (take_next-IsPrefix content limit small g bytes v e) (take_next-IsCut g bytes v c e)
              (take_next-Arrived o g bytes v c e a))
    ]

    pub gather-IsCut :
        (g : Gathered) (bytes : List ℕ)
        → IsPrefix content limit g
        → IsCut size g
        → Fits content limit (g.next, bytes)
        → length bytes ≡ size g.next
        → IsCut size (gather g bytes)
    unfolding gather
    gather-IsCut g bytes v c f w =
        let b = f.below in
        drain-IsCut (length g.waiting) _
          (write-IsPrefix content limit small g.next (length bytes) g.written bytes g.waiting
            v.prefix f v.waiting_fit)
          (step-IsCut g.next (length bytes) c.count _ bytes g.waiting c.next_start w (omega arith)
            c.waiting_cut)

    -- A frame in its turn has arrived, and so have all that had before.
    pub gather-Arrived :
        (o : ℕ) (g : Gathered) (bytes : List ℕ)
        → IsPrefix content limit g
        → IsCut size g
        → Fits content limit (g.next, bytes)
        → length bytes ≡ size g.next
        → (o ≡ g.next) ⊎ Arrived g o
        → Arrived (gather g bytes) o
    unfolding gather
    gather-Arrived o g bytes v c f w a =
        let b = f.below in
        let p = positive g.next in
        drain-Arrived (length g.waiting) o _
          (write-IsPrefix content limit small g.next (length bytes) g.written bytes g.waiting
            v.prefix f v.waiting_fit)
          (step-IsCut g.next (length bytes) c.count _ bytes g.waiting c.next_start w (omega arith)
            c.waiting_cut)
          (elim a [
            | inl e ↦ inl (omega arith)
            | inr (inl h) ↦ inl (omega arith)
            | inr (inr h) ↦ inr h
          ])

  -- Without a gap, everything has been written.
  pub all_written :
      (g : Gathered) (n : ℕ)
      → IsCut size g
      → IsDrained g
      → ((m : ℕ) → m < n → Arrived g (start size m))
      → start size n ≤ g.next
  all_written g zero c d h = omega arith
  all_written g (suc n) c d h =
      let r = all_written g n c d (λ m k. h m (omega arith)) in
      let far : start size n < g.next = elim (h n (omega arith)) [
        | inl k ↦ k
        | inr (bytes, e) ↦ elim (Bool-cases (start size n == g.next)) [
          | inl y ↦
              let same : start size n ≡ g.next = (==_iff _ _).0 y in
              let found : find_at g.next g.waiting ≡ some bytes = rw (← same) e in
              absurd (none_some (sym d ∙ found))
          | inr f ↦ ground arith
        ]
      ] in
      let s = c.next_start in
      let up = start_mono (suc n) c.count (start_lt n c.count (omega arith)) in omega arith
    where
      none_some : {b : List ℕ} → none ≡ some b → ⊥
      none_some e = cc
