-- ===== src/Stream/Reorder/Content.antt =====
-- The bytes written are those of the stream, from its start, and the loop takes every frame whose
-- turn has come.

use quic_x.Common.{
  ℕ, zero, suc, ◌+◌, ◌^◌, ◌≤◌, ◌<◌, ◌≡◌, refl, ap, subst, inl, inr, none, some, List, [], ◌∷◌, ◌++◌,
  arith, ◌==◌, ==_iff, Bool-cases, Option-cases, if_both, length, List-cases, All, add64,
}
use quic_x.Stream.Reorder.{Waiting, find_at, erase_at, take_next, drain, gather, Gathered}

-- `n` bytes of the stream from `offset` on.
abbrev pub slice : (ℕ → ℕ) → ℕ → ℕ → List ℕ
slice content offset zero = []
slice content offset (suc n) = content offset ∷ slice content (offset + 1) n

pub length-slice : (content : ℕ → ℕ) (offset n : ℕ) → length (slice content offset n) ≡ n
length-slice content offset zero = refl
length-slice content offset (suc n) = omega (arith, length-slice content (offset + 1) n)

pub slice-add :
    (content : ℕ → ℕ) (offset a b : ℕ)
    → slice content offset (a + b) ≡ slice content offset a ++ slice content (offset + a) b
slice-add content offset zero b = rw (sum0 offset, zero_plus b) refl
  where
    sum0 : (n : ℕ) → n + 0 ≡ n
    sum0 n = omega arith

    zero_plus : (n : ℕ) → 0 + n ≡ n
    zero_plus n = omega arith
slice-add content offset (suc a) b =
    rw (left a b, right offset a)
      (ap (λ l. content offset ∷ l) (slice-add content (offset + 1) a b))
  where
    left : (a b : ℕ) → suc a + b ≡ suc (a + b)
    left a b = omega arith

    right : (o a : ℕ) → o + suc a ≡ o + 1 + a
    right o a = omega arith

-- A round of the loop.
pub drain-none :
    (fuel : ℕ) (g : Gathered) → find_at g.next g.waiting ≡ none → drain (suc fuel) g ≡ g
unfolding drain
drain-none fuel g e = rw (e, drain) refl

pub drain-some :
    (fuel : ℕ) (g : Gathered) (bytes : List ℕ)
    → find_at g.next g.waiting ≡ some bytes
    → drain (suc fuel) g ≡ drain fuel (take_next g bytes)
unfolding drain
drain-some fuel g bytes e = rw (e, drain) refl

-- A frame carries the bytes that the stream has there, below a limit.
pub record Fits (content : ℕ → ℕ) (limit : ℕ) (w : ℕ × List ℕ) : Type 0 where
  pub bytes_eq : w.1 ≡ slice content w.0 (length w.1)
  pub below : w.0 + length w.1 ≤ limit

abbrev pub AllFit : (ℕ → ℕ) → ℕ → Waiting → Type 0
AllFit content limit ws = All (Fits content limit) ws

-- What the loop keeps.
pub record IsPrefix (content : ℕ → ℕ) (limit : ℕ) (g : Gathered) : Type 0 where
  pub prefix : g.written ≡ slice content 0 g.next
  pub next_below : g.next ≤ limit
  pub waiting_fit : AllFit content limit g.waiting

module _ (content : ℕ → ℕ) (limit : ℕ) (small : limit < 2 ^ 64) where
  pub find_at-Fits :
      (offset : ℕ) (ws : Waiting) (bytes : List ℕ)
      → AllFit content limit ws
      → find_at offset ws ≡ some bytes
      → Fits content limit (offset, bytes)
  unfolding find_at
  find_at-Fits offset [] bytes h e = cc
  find_at-Fits offset ((o, b) ∷ ws) bytes (f, h) e = elim (Bool-cases (o == offset)) [
    | inl y ↦
        let same : o ≡ offset = (==_iff o offset).0 y in
        let got : b ≡ bytes = ground arith in
        subst (λ n. Fits content limit (n, bytes)) same
          (subst (λ l. Fits content limit (o, l)) got f)
    | inr n ↦ find_at-Fits offset ws bytes h (ground arith)
  ]

  pub erase_at-AllFit :
      (offset : ℕ) (ws : Waiting)
      → AllFit content limit ws
      → AllFit content limit (erase_at offset ws)
  unfolding erase_at
  erase_at-AllFit offset [] h = h
  erase_at-AllFit offset ((o, b) ∷ ws) (f, h) =
      if_both (AllFit content limit) (o == offset) ws ((o, b) ∷ erase_at offset ws) h
        (f, erase_at-AllFit offset ws h)

  pub write-IsPrefix :
      (next last : ℕ) (written bytes : List ℕ) (waiting : Waiting)
      → written ≡ slice content 0 next
      → Fits content limit (next, bytes)
      → AllFit content limit waiting
      → IsPrefix content limit (record {
        next = add64 next (length bytes);
        written = written ++ bytes;
        waiting = waiting;
        last_length = last;
      })
  write-IsPrefix next last written bytes waiting e f h =
      let b = f.below in
      let sum : add64 next (length bytes) ≡ next + length bytes = omega arith in
      record {
        prefix = rw sum (
            rw (slice-add content 0 next (length bytes))
              (rw (e, zero_plus next) (ap (λ l. slice content 0 next ++ l) f.bytes_eq)));
        next_below = omega arith;
        waiting_fit = h;
      }
    where
      zero_plus : (n : ℕ) → 0 + n ≡ n
      zero_plus n = omega arith

  pub take_next-IsPrefix :
      (g : Gathered) (bytes : List ℕ)
      → IsPrefix content limit g
      → find_at g.next g.waiting ≡ some bytes
      → IsPrefix content limit (take_next g bytes)
  unfolding take_next
  take_next-IsPrefix g bytes v e =
      write-IsPrefix g.next (length bytes) g.written bytes (erase_at g.next g.waiting) v.prefix
        (find_at-Fits g.next g.waiting bytes v.waiting_fit e)
        (erase_at-AllFit g.next g.waiting v.waiting_fit)

  drain-IsPrefix :
      (fuel : ℕ) (g : Gathered) → IsPrefix content limit g → IsPrefix content limit (drain fuel g)
  drain-IsPrefix zero g v = unfold drain in v
  drain-IsPrefix (suc fuel) g v = elim (Option-cases (find_at g.next g.waiting)) [
    | inl e ↦ rw (drain-none fuel g e) v
    | inr (bytes, e) ↦
        rw (drain-some fuel g bytes e)
          (drain-IsPrefix fuel (take_next g bytes) (take_next-IsPrefix g bytes v e))
  ]

  pub gather-IsPrefix :
      (g : Gathered) (bytes : List ℕ)
      → IsPrefix content limit g
      → Fits content limit (g.next, bytes)
      → IsPrefix content limit (gather g bytes)
  unfolding gather
  gather-IsPrefix g bytes v f =
      drain-IsPrefix (length g.waiting) _
        (write-IsPrefix g.next (length bytes) g.written bytes g.waiting v.prefix f v.waiting_fit)

-- Nothing whose turn has come is left waiting.
abbrev pub IsDrained : Gathered → Type 0
IsDrained g = find_at g.next g.waiting ≡ none

length-erase_at :
    (offset : ℕ) (ws : Waiting) (bytes : List ℕ)
    → find_at offset ws ≡ some bytes
    → length ws ≡ suc (length (erase_at offset ws))
unfolding find_at erase_at
length-erase_at offset [] bytes e = cc
length-erase_at offset ((o, b) ∷ ws) bytes e = elim (Bool-cases (o == offset)) [
  | inl y ↦ rw y refl
  | inr n ↦ rw n (ap (λ k. suc k) (length-erase_at offset ws bytes (ground arith)))
]

drain-IsDrained : (fuel : ℕ) (g : Gathered) → length g.waiting ≤ fuel → IsDrained (drain fuel g)
drain-IsDrained zero g h = elim (List-cases g.waiting) [
  | inl e ↦ unfold drain in rw e (unfold find_at in refl)
  | inr (w, ws, e) ↦ absurd (omega (arith, ap (λ l. length l) e))
]
drain-IsDrained (suc fuel) g h = elim (Option-cases (find_at g.next g.waiting)) [
  | inl e ↦ rw (drain-none fuel g e) e
  | inr (bytes, e) ↦ rw (drain-some fuel g bytes e) (
      drain-IsDrained fuel (take_next g bytes)
        (unfold take_next in omega (arith, length-erase_at g.next g.waiting bytes e)))
]

-- As many rounds as there are frames that wait are enough for the loop to end by its test.
pub gather-IsDrained : (g : Gathered) (bytes : List ℕ) → IsDrained (gather g bytes)
unfolding gather
gather-IsDrained g bytes = drain-IsDrained (length g.waiting) _ (omega arith)
