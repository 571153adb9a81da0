-- ===== src/Stream/Reorder/Slices.antt =====
-- A list of bytes that is a slice of a stream, cut in two.
use quic_x.Common.{
  ℕ, zero, suc, ◌+◌, ◌≤◌, ◌≡◌, refl, sym, ap, ◌∙◌, List, [], ◌∷◌, ◌++◌, arith, length,
  length-append, take, drop,
}
use quic_x.Stream.Reorder.Content.{slice, slice-add}

pub take-slice :
    (content : ℕ → ℕ) (k o : ℕ) (bs : List ℕ)
    → bs ≡ slice content o (length bs)
    → take k bs ≡ slice content o (length (take k bs))
take-slice content zero o bs h = refl
take-slice content (suc k) o [] h = refl
take-slice content (suc k) o (b ∷ bs) h =
    let rest : bs ≡ slice content (o + 1) (length bs) = cc in
    let first : b ≡ content o = cc in let ih = take-slice content k (o + 1) bs rest in cc

pub drop-slice :
    (content : ℕ → ℕ) (k o : ℕ) (bs : List ℕ)
    → bs ≡ slice content o (length bs)
    → drop (length (take k bs)) bs
      ≡ slice content (o + length (take k bs)) (length (drop (length (take k bs)) bs))
drop-slice content zero o bs h = rw (plus_zero o) h
  where
    plus_zero : (o : ℕ) → o + 0 ≡ o
    plus_zero o = omega arith
drop-slice content (suc k) o [] h = refl
drop-slice content (suc k) o (b ∷ bs) h =
    let rest : bs ≡ slice content (o + 1) (length bs) = cc in
    rw (shift o (length (take k bs))) (drop-slice content k (o + 1) bs rest)
  where
    shift : (o k : ℕ) → o + suc k ≡ o + 1 + k
    shift o k = omega arith

pub length-take-le : (k : ℕ) (bs : List ℕ) → length (take k bs) ≤ k
length-take-le zero bs = omega arith
length-take-le (suc k) [] = omega arith
length-take-le (suc k) (b ∷ bs) = omega (arith, length-take-le k bs)

pub length-take-drop :
    (k : ℕ) (bs : List ℕ) → length (take k bs) + length (drop (length (take k bs)) bs) ≡ length bs
length-take-drop zero bs = omega arith
length-take-drop (suc k) [] = omega arith
length-take-drop (suc k) (b ∷ bs) = omega (arith, length-take-drop k bs)

pub append-slice :
    (content : ℕ → ℕ) (o : ℕ) (xs ys : List ℕ)
    → xs ≡ slice content o (length xs)
    → ys ≡ slice content (o + length xs) (length ys)
    → xs ++ ys ≡ slice content o (length (xs ++ ys))
append-slice content o xs ys h k =
    ap (λ l. l ++ ys) h
    ∙ ap (λ l. slice content o (length xs) ++ l) k
    ∙ sym (slice-add content o (length xs) (length ys))
    ∙ ap (λ n. slice content o n) (sym (length-append xs ys))
