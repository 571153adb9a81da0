-- ===== src/Recovery/Unacked/Outstanding.antt =====
-- The bytes that are outstanding: those of the packets that are not marked as lost.
use quic_x.Common.{
  ℕ, ◌+◌, ◌≤◌, ◌<◌, ◌≡◌, refl, ap, subst, ◌≢◌, inl, inr, Option, none, some, [], ◌∷◌, arith, ◌==◌,
  if◌then◌else◌, ==_iff, Bool-cases, if_both, All,
}
use quic_x.Recovery.Unacked.{Unacked, find_packet, erase_packet, mark_lost, save_packet, PacketInfo}

abbrev pub weight : PacketInfo → ℕ
weight info = if info.is_lost then 0 else info.pkt_len

unfoldable pub outstanding : Unacked → ℕ
outstanding [] = 0
outstanding ((n, info) ∷ m) = weight info + outstanding m

abbrev pub weight_of : Option PacketInfo → ℕ
weight_of none = 0
weight_of (some info) = weight info

-- No number stands twice in the map.
abbrev pub Distinct : Unacked → Type 0
Distinct [] = Unit {0}
Distinct ((n, info) ∷ m) = (find_packet n m ≡ none) × Distinct m

abbrev pub Below : ℕ → Unacked → Type 0
Below bound m = All (λ (e : ℕ × PacketInfo). e.0 < bound) m

pub find-erase_self : (pn : ℕ) (m : Unacked) → find_packet pn (erase_packet pn m) ≡ none
unfolding find_packet erase_packet
find-erase_self pn [] = refl
find-erase_self pn ((n, info) ∷ m) = ground (arith, find-erase_self pn m)

pub find-erase_other :
    (pn q : ℕ) (m : Unacked) → pn ≢ q → find_packet pn (erase_packet q m) ≡ find_packet pn m
unfolding find_packet erase_packet
find-erase_other pn q [] h = refl
find-erase_other pn q ((n, info) ∷ m) h = ground (arith, find-erase_other pn q m h)

erase_none : (pn : ℕ) (m : Unacked) → find_packet pn m ≡ none → erase_packet pn m ≡ m
unfolding find_packet erase_packet
erase_none pn [] e = refl
erase_none pn ((n, info) ∷ m) e = ground (arith, erase_none pn m)

-- What stays is not found where it was not.
pub find-erase_none :
    (pn q : ℕ) (m : Unacked) → find_packet pn m ≡ none → find_packet pn (erase_packet q m) ≡ none
unfolding find_packet erase_packet
find-erase_none pn q [] e = refl
find-erase_none pn q ((n, info) ∷ m) e = ground (arith, find-erase_none pn q m)

pub erase-Distinct : (pn : ℕ) (m : Unacked) → Distinct m → Distinct (erase_packet pn m)
unfolding erase_packet
erase-Distinct pn [] d = tt
erase-Distinct pn ((n, info) ∷ m) (e, d) =
    if_both Distinct (n == pn) (erase_packet pn m) ((n, info) ∷ erase_packet pn m)
      (erase-Distinct pn m d) (find-erase_none n pn m e, erase-Distinct pn m d)

pub save-Distinct :
    (pn : ℕ) (info : PacketInfo) (m : Unacked) → Distinct m → Distinct (save_packet pn info m)
unfolding save_packet
save-Distinct pn info m d = (find-erase_self pn m, erase-Distinct pn m d)

find-mark_none :
    (pn q : ℕ) (m : Unacked) → find_packet pn m ≡ none → find_packet pn (mark_lost q m) ≡ none
unfolding find_packet mark_lost
find-mark_none pn q [] e = refl
find-mark_none pn q ((n, info) ∷ m) e = ground (arith, find-mark_none pn q m)

pub mark-Distinct : (pn : ℕ) (m : Unacked) → Distinct m → Distinct (mark_lost pn m)
unfolding mark_lost
mark-Distinct pn [] d = tt
mark-Distinct pn ((n, info) ∷ m) (e, d) =
    if_both Distinct (n == pn) _ ((n, info) ∷ mark_lost pn m)
      (find-mark_none n pn m e, mark-Distinct pn m d)
      (find-mark_none n pn m e, mark-Distinct pn m d)

-- What an erased packet takes with it.
pub outstanding-erase :
    (pn : ℕ) (m : Unacked)
    → Distinct m
    → outstanding m ≡ weight_of (find_packet pn m) + outstanding (erase_packet pn m)
unfolding outstanding find_packet erase_packet
outstanding-erase pn [] d = refl
outstanding-erase pn ((n, info) ∷ m) (e, d) = elim (Bool-cases (n == pn)) [
  | inl y ↦
      let same : n ≡ pn = (==_iff n pn).0 y in
      let gone : erase_packet pn m ≡ m =
        erase_none pn m (subst (λ k. find_packet k m ≡ none) same e) in
      rw (y, gone) refl
  | inr f ↦ rw f (omega (arith, outstanding-erase pn m d))
]

pub outstanding-save :
    (pn : ℕ) (info : PacketInfo) (m : Unacked)
    → find_packet pn m ≡ none
    → outstanding (save_packet pn info m) ≡ weight info + outstanding m
unfolding save_packet outstanding
outstanding-save pn info m e = rw (erase_none pn m e) refl

pub outstanding-mark :
    (pn : ℕ) (m : Unacked)
    → Distinct m
    → outstanding m ≡ weight_of (find_packet pn m) + outstanding (mark_lost pn m)
unfolding outstanding find_packet mark_lost
outstanding-mark pn [] d = refl
outstanding-mark pn ((n, info) ∷ m) (e, d) = elim (Bool-cases (n == pn)) [
  | inl y ↦
      let same : n ≡ pn = (==_iff n pn).0 y in
      let gone : find_packet pn m ≡ none = subst (λ k. find_packet k m ≡ none) same e in
      rw y (omega (arith, outstanding-mark pn m d, ap weight_of gone))
  | inr f ↦ rw f (omega (arith, outstanding-mark pn m d))
]

pub erase-Below : (bound pn : ℕ) (m : Unacked) → Below bound m → Below bound (erase_packet pn m)
unfolding erase_packet
erase-Below bound pn [] b = tt
erase-Below bound pn ((n, info) ∷ m) (h, b) =
    if_both (Below bound) (n == pn) (erase_packet pn m) ((n, info) ∷ erase_packet pn m)
      (erase-Below bound pn m b) (h, erase-Below bound pn m b)

pub mark-Below : (bound pn : ℕ) (m : Unacked) → Below bound m → Below bound (mark_lost pn m)
unfolding mark_lost
mark-Below bound pn [] b = tt
mark-Below bound pn ((n, info) ∷ m) (h, b) =
    if_both (Below bound) (n == pn) _ ((n, info) ∷ mark_lost pn m) (h, mark-Below bound pn m b)
      (h, mark-Below bound pn m b)

pub Below-mono : (a b : ℕ) (m : Unacked) → a ≤ b → Below a m → Below b m
Below-mono a b [] h l = tt
Below-mono a b (e ∷ m) h (l, ls) = (omega arith, Below-mono a b m h ls)

pub find-Below : (bound pn : ℕ) (m : Unacked) → bound ≤ pn → Below bound m → find_packet pn m ≡ none
unfolding find_packet
find-Below bound pn [] h b = refl
find-Below bound pn ((n, info) ∷ m) h (l, b) = ground (arith, find-Below bound pn m h b)

pub save-Below :
    (bound pn : ℕ) (info : PacketInfo) (m : Unacked)
    → pn < bound
    → Below bound m
    → Below bound (save_packet pn info m)
unfolding save_packet
save-Below bound pn info m h b = (h, erase-Below bound pn m b)
