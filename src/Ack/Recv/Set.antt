-- ===== src/Ack/Recv/Set.antt =====
-- The sets of packet numbers as lists from the largest element down.
use quic_x.Common.{ℕ, suc, ◌≤◌, ◌<◌, ◌≡◌, refl, List, [], ◌∷◌, ◌++◌, arith, length}
use quic_x.Ack.Recv.{insert, erase, erase_all}

-- The elements fall strictly and stay under a bound.
abbrev pub Falls : ℕ → List ℕ → Type 0
Falls bound [] = Unit {0}
Falls bound (x ∷ xs) = (x < bound) × Falls x xs

pub insert-Falls :
    (bound pn : ℕ) (xs : List ℕ) → pn < bound → Falls bound xs → Falls bound (insert pn xs)
unfolding insert
insert-Falls bound pn [] h f = (h, tt)
insert-Falls bound pn (x ∷ xs) h (hx, f) = ground (arith, insert-Falls x pn xs)

-- Erasing the numbers that a list begins with leaves the rest of it.
pub erase_all-append : (pns ys : List ℕ) → erase_all pns (pns ++ ys) ≡ ys
unfolding erase_all erase
erase_all-append [] ys = refl
erase_all-append (pn ∷ pns) ys = ground (arith, erase_all-append pns ys)

pub length-insert : (pn : ℕ) (xs : List ℕ) → length (insert pn xs) ≤ suc (length xs)
unfolding insert
length-insert pn [] = omega arith
length-insert pn (x ∷ xs) = ground (arith, length-insert pn xs)
