-- ===== src/Connection/KeyUpdate/Threshold.antt =====
-- What the trigger promises of its thresholds.
use quic_x.Common.{
  ℕ, ◌+◌, ◌^◌, ◌≤◌, ◌<◌, ◌≡◌, sym, subst, true, false, ◌||◌, List, [], ◌∷◌, arith, IsU64,
}
use quic_x.Connection.KeyUpdate.{
  on_bytes_sent, packets_since_update, on_packet_sent, should_trigger_key_update, mark_triggered,
  reset, KeyUpdateTrigger,
}

-- With both thresholds set, `ShouldTriggerKeyUpdate` says after a packet was counted by both calls
-- exactly whether one of them asked for the update.
pub should_trigger-calls :
    (t : KeyUpdateTrigger) (bytes pn : ℕ)
    → 0 < t.bytes_threshold
    → let (u, by_bytes) = on_bytes_sent t bytes in
      let (v, by_packets) = on_packet_sent u pn in
      should_trigger_key_update v ≡ (by_bytes || by_packets)
unfolding should_trigger_key_update on_bytes_sent on_packet_sent
should_trigger-calls t bytes pn h = ground arith

-- With the bytes threshold switched off by 0, an enabled trigger still has `OnBytesSent` ask for an
-- update at every packet until it is marked, which `ShouldTriggerKeyUpdate` does not.
pub zero_threshold_triggers :
    (t : KeyUpdateTrigger) (bytes : ℕ)
    → t.bytes_threshold ≡ 0
    → t.enabled ≡ true
    → t.triggered ≡ false
    → t.pn_threshold ≡ 0
    → ((on_bytes_sent t bytes).1 ≡ true)
      × (should_trigger_key_update (on_bytes_sent t bytes).0 ≡ false)
unfolding should_trigger_key_update on_bytes_sent
zero_threshold_triggers t bytes hb he ht hp = ground arith

-- The packets of a connection: each has a number and a size.
pub send : KeyUpdateTrigger → ℕ × ℕ → KeyUpdateTrigger
send t (pn, bytes) = (on_packet_sent (on_bytes_sent t bytes).0 pn).0

pub send_all : KeyUpdateTrigger → List (ℕ × ℕ) → KeyUpdateTrigger
send_all t [] = t
send_all t (p ∷ ps) = send_all (send t p) ps

-- Packets that all together stay under both thresholds.
abbrev pub bytes_of : List (ℕ × ℕ) → ℕ
bytes_of [] = 0
bytes_of ((pn, bytes) ∷ ps) = bytes + bytes_of ps

abbrev pub Numbers : ℕ → ℕ → List (ℕ × ℕ) → Type 0
Numbers low high [] = Unit {0}
Numbers low high ((pn, bytes) ∷ ps) = (low ≤ pn) × (pn < high) × Numbers low high ps

-- What stays fixed under sending.
pub record Quiet (t : KeyUpdateTrigger) (room : ℕ) : Type 0 where
  pub bytes_left : t.total_bytes_sent + room < t.bytes_threshold
  pub word : IsU64 t.bytes_threshold
  pub pn_low : t.last_pn_at_update ≤ t.current_pn
  pub pn_high : t.current_pn < t.last_pn_at_update + t.pn_threshold
  pub pn_word : IsU64 t.current_pn

send-Quiet :
    (t : KeyUpdateTrigger) (pn bytes room : ℕ)
    → t.last_pn_at_update ≤ pn
    → pn < t.last_pn_at_update + t.pn_threshold
    → IsU64 pn
    → Quiet t (bytes + room)
    → Quiet (send t (pn, bytes)) room
      × ((send t (pn, bytes)).last_pn_at_update ≡ t.last_pn_at_update)
      × ((send t (pn, bytes)).pn_threshold ≡ t.pn_threshold)
unfolding send on_bytes_sent on_packet_sent
send-Quiet t pn bytes room lo hi w q = ground arith

Quiet-silent :
    (t : KeyUpdateTrigger) (room : ℕ) → Quiet t room → should_trigger_key_update t ≡ false
unfolding should_trigger_key_update packets_since_update
Quiet-silent t room q = ground arith

Numbers-eq : (a b c d : ℕ) (ps : List (ℕ × ℕ)) → a ≡ b → c ≡ d → Numbers a c ps → Numbers b d ps
Numbers-eq a b c d ps e f n = subst (λ x. Numbers x d ps) e (subst (λ x. Numbers a x ps) f n)

-- As long as the packets since the last update stay under both thresholds, no update is due.
pub send_all-silent :
    (t : KeyUpdateTrigger) (ps : List (ℕ × ℕ))
    → t.last_pn_at_update + t.pn_threshold ≤ 2 ^ 64
    → Quiet t (bytes_of ps)
    → Numbers t.last_pn_at_update (t.last_pn_at_update + t.pn_threshold) ps
    → should_trigger_key_update (send_all t ps) ≡ false
unfolding send_all
send_all-silent t [] h q n = Quiet-silent t 0 q
send_all-silent t ((pn, bytes) ∷ ps) h q (lo, hi, n) =
    let (q', e, f) = send-Quiet t pn bytes (bytes_of ps) lo hi (omega arith) q in
    send_all-silent (send t (pn, bytes)) ps (omega arith) q'
      (Numbers-eq _ _ _ _ ps (sym e) (omega arith) n)

-- After `MarkTriggered` and `Reset` the packets up to the thresholds start anew.
pub mark_reset-Quiet :
    (t : KeyUpdateTrigger) (room : ℕ)
    → room < t.bytes_threshold
    → 0 < t.pn_threshold
    → IsU64 t.bytes_threshold
    → IsU64 t.current_pn
    → Quiet (reset (mark_triggered t)) room
unfolding reset mark_triggered
mark_reset-Quiet t room hb hp hw hc = omega arith
