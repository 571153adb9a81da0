-- ===== src/Recovery/SendControl/Losses.antt =====
-- The packets that `DetectLostPackets` gives up are found and not yet given up, so that the account
-- of the bytes in flight is kept.
use quic_x.Common.{
  ℕ, ◌≡◌, sym, subst, ◌∙◌, inl, inr, true, false, none, some, List, [], ◌∷◌, arith, ◌==◌, ==_iff,
  Bool-cases, Option-cases, All,
}
use quic_x.Codec.PacketNumber.{PacketNumberSpace}
use quic_x.Recovery.Unacked.{Unacked, find_packet, erase_packet, PacketInfo}
use quic_x.Recovery.Unacked.Outstanding.{Distinct, find-erase_self, find-erase_other}
use quic_x.Recovery.SendControl.{space_of, SendControl}
use quic_x.Recovery.SendControl.Loss.{
  loss_delay, should_declare_lost, lost_numbers, declare_lost, declare_all, send_time_of,
  detect_lost_packets,
}
use quic_x.Recovery.SendControl.Views.{declare_lost-none, declare_lost-some, Becomes-map}
use quic_x.Recovery.SendControl.Kept.{Balanced, order_in, declare_lost-Balanced}

-- What is found of a number is not marked as lost.
abbrev pub Calm : Unacked → ℕ → Type 0
Calm m pn = (info : PacketInfo) → find_packet pn m ≡ some info → info.is_lost ≡ false

abbrev pub Found : Unacked → ℕ → Type 0
Found m pn = (info : PacketInfo) × (find_packet pn m ≡ some info) × (info.is_lost ≡ false)

find-cons_other :
    (q pn : ℕ) (info : PacketInfo) (m : Unacked)
    → find_packet pn m ≡ none
    → Found m q
    → Found ((pn, info) ∷ m) q
unfolding find_packet
find-cons_other q pn info m e (i, f, l) = elim (Bool-cases (pn == q)) [
  | inl y ↦
      let same : pn ≡ q = (==_iff pn q).0 y in
      let none_at : find_packet q m ≡ none = subst (λ k. find_packet k m ≡ none) same e in
      absurd (clash (sym none_at ∙ f))
  | inr n ↦ (i, rw n f, l)
]
  where
    clash : none ≡ some i → ⊥
    clash e = cc

All-cons_other :
    (pns : List ℕ) (pn : ℕ) (info : PacketInfo) (m : Unacked)
    → find_packet pn m ≡ none
    → All (Found m) pns
    → All (Found ((pn, info) ∷ m)) pns
All-cons_other [] pn info m e h = tt
All-cons_other (q ∷ pns) pn info m e (f, h) =
    (find-cons_other q pn info m e f, All-cons_other pns pn info m e h)

declared-calm :
    (delay largest sent pn : ℕ) (info : PacketInfo)
    → should_declare_lost delay largest sent pn info ≡ true
    → info.is_lost ≡ false
unfolding should_declare_lost
declared-calm delay largest sent pn info e = ground arith

-- `lost_packet_nums` names packets that are not yet marked as lost.
pub lost_numbers-Found :
    (delay largest sent : ℕ) (m : Unacked)
    → Distinct m
    → All (Found m) (lost_numbers delay largest sent m)
unfolding lost_numbers
lost_numbers-Found delay largest sent [] d = tt
lost_numbers-Found delay largest sent ((pn, info) ∷ m) (e, d) =
    let rest =
      All-cons_other (lost_numbers delay largest sent m) pn info m e
        (lost_numbers-Found delay largest sent m d) in
    elim (Bool-cases (should_declare_lost delay largest sent pn info)) [
      | inl y ↦
          rw y ((info, head_found pn info m, declared-calm delay largest sent pn info y), rest)
      | inr n ↦ rw n rest
    ]
  where
    head_found :
        (pn : ℕ) (info : PacketInfo) (m : Unacked) → find_packet pn ((pn, info) ∷ m) ≡ some info
    head_found pn info m = unfold find_packet in ground arith

-- Taking one packet out leaves the others as they are.
Calm-after :
    (m : Unacked) (pn : ℕ) (pns : List ℕ) → All (Calm m) pns → All (Calm (erase_packet pn m)) pns
Calm-after m pn [] h = tt
Calm-after m pn (q ∷ pns) (c, h) = (
  λ info e. elim (Bool-cases (q == pn)) [
    | inl y ↦
        let same : q ≡ pn = (==_iff q pn).0 y in
        let gone : find_packet q (erase_packet pn m) ≡ none =
          subst (λ k. find_packet k (erase_packet pn m) ≡ none) (sym same) (find-erase_self pn m) in
        absurd (clash info (sym gone ∙ e))
    | inr n ↦ c info (sym (find-erase_other q pn m (λ s. ground arith)) ∙ e)
  ],
  Calm-after m pn pns h,
)
  where
    clash : (info : PacketInfo) → none ≡ some info → ⊥
    clash info e = cc

Found-Calm : (m : Unacked) (pns : List ℕ) → All (Found m) pns → All (Calm m) pns
Found-Calm m [] h = tt
Found-Calm m (q ∷ pns) ((i, f, l), h) =
    (λ info e. (let same = sym e ∙ f in ground arith), Found-Calm m pns h)

module _ (bound : PacketNumberSpace → ℕ) where
  declare_all-Balanced :
      (c : SendControl) (now : ℕ) (ns : PacketNumberSpace) (pns : List ℕ)
      → All (Calm (space_of c ns).unacked_packets) pns
      → Balanced bound c
      → Balanced bound (declare_all c now ns pns)
  unfolding declare_all
  declare_all-Balanced c now ns [] h b = b
  declare_all-Balanced c now ns (pn ∷ pns) (w, h) b =
      let m = (space_of c ns).unacked_packets in
      let d = declare_lost c now ns pn in
      let calm : All (Calm (space_of d ns).unacked_packets) pns =
        elim (Option-cases (find_packet pn m)) [
          | inl e ↦ rw (declare_lost-none c now ns pn e) h
          | inr (info, e) ↦
              subst (λ k. All (Calm k) pns)
                (sym
                  (Becomes-map d c ns (erase_packet pn m) _ (declare_lost-some c now ns pn info e)))
                (Calm-after m pn pns h)
        ] in
      declare_all-Balanced d now ns pns calm (declare_lost-Balanced bound c now ns pn w b)

  pub detect-Balanced :
      (c : SendControl) (now : ℕ) (ns : PacketNumberSpace) (largest : ℕ)
      → Balanced bound c
      → Balanced bound (detect_lost_packets c now ns largest)
  unfolding detect_lost_packets
  detect-Balanced c now ns largest b =
      let m = (space_of c ns).unacked_packets in
      let lost =
        lost_numbers (loss_delay c.rtt_calculator) largest (send_time_of (find_packet largest m))
          m in
      declare_all-Balanced c now ns lost
        (Found-Calm m lost (
          lost_numbers-Found (loss_delay c.rtt_calculator) largest
            (send_time_of (find_packet largest m)) m (order_in bound c ns b).distinct))
        b
