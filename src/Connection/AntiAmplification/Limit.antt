-- ===== src/Connection/AntiAmplification/Limit.antt =====
-- Before the address is validated no more than three times the bytes received are sent.
use quic_x.Common.{ℕ, ◌+◌, ◌*◌, ◌^◌, ◌≤◌, ◌<◌, ◌≡◌, ◌⊎◌, true, false, arith, leb, mul64}
use quic_x.Connection.AntiAmplification.{
  enter_unvalidated_state, exit_unvalidated_state, on_bytes_received, on_bytes_sent, can_send,
  get_remaining_budget, is_near_limit, reset, AntiAmplificationController,
}

-- The counters stay below 2^62, as those of a real connection do, so that nothing wraps.
abbrev pub IsSmall : AntiAmplificationController → Type 0
IsSmall c = (c.received_bytes < 2 ^ 62) × (c.sent_bytes < 2 ^ 62)

-- While the address is not validated, `CanSend` allows exactly the sizes up to the remaining
-- budget, and what was sent with the budget is three times what was received, if that is not
-- exceeded yet.
pub can_send-budget :
    (c : AntiAmplificationController) (bytes : ℕ)
    → c.is_unvalidated ≡ true
    → IsSmall c
    → c.sent_bytes ≤ 3 * c.received_bytes
    → bytes < 2 ^ 62
    → (can_send c bytes ≡ leb bytes (get_remaining_budget c))
      × (c.sent_bytes + get_remaining_budget c ≡ 3 * c.received_bytes)
unfolding can_send get_remaining_budget
can_send-budget c bytes u h within hb = ground arith

-- What was in truth sent and received since the counting last began, apart from what the controller
-- notes of it.
pub record Traffic : Type 0 where
  pub sent : ℕ
  pub received : ℕ

-- A controller at work, with the traffic before and after: packets come in, packets go out when
-- `CanSend` allows them, validation begins with some credit and ends, and the count begins anew.
pub data Step
    : (AntiAmplificationController → Traffic → AntiAmplificationController → Traffic → Type 0) where
  enters :
      (c : AntiAmplificationController) (t : Traffic) (credit : ℕ)
      → credit < 2 ^ 62
      → Step c t (enter_unvalidated_state c credit) (record { sent = 0; received = credit })
  exits : (c : AntiAmplificationController) (t : Traffic) → Step c t (exit_unvalidated_state c) t
  receives :
      (c : AntiAmplificationController) (t : Traffic) (bytes : ℕ)
      → t.received + bytes < 2 ^ 62
      → Step c t (on_bytes_received c bytes) (record t { received = t.received + bytes })
  sends :
      (c : AntiAmplificationController) (t : Traffic) (bytes : ℕ)
      → t.sent + bytes < 2 ^ 64
      → can_send c bytes ≡ true
      → Step c t (on_bytes_sent c bytes) (record t { sent = t.sent + bytes })
  resets :
      (c : AntiAmplificationController) (t : Traffic)
      → Step c t (reset c) (record { sent = 0; received = 0 })

pub data Reach (c : AntiAmplificationController) (t : Traffic)
    : (AntiAmplificationController → Traffic → Type 0) where
  here : Reach c t c t
  next :
      {d e : AntiAmplificationController} {u v : Traffic}
      → Reach c t d u
      → Step d u e v
      → Reach c t e v

-- The address is validated, or the controller has counted the whole traffic, and no more was sent
-- than three times what was received.
abbrev pub IsLimited : AntiAmplificationController → Traffic → Type 0
IsLimited c t =
    (c.is_unvalidated ≡ false)
    ⊎ ((c.sent_bytes ≡ t.sent)
        × (c.received_bytes ≡ t.received)
        × (t.sent ≤ 3 * t.received)
        × (t.received < 2 ^ 62))

-- When the budget of an address that is not validated is used up, after some bytes came in, the
-- controller is near its limit, for a threshold that is no larger than the limit.
pub is_near_limit-budget :
    (near_threshold : ℕ → ℕ) (c : AntiAmplificationController)
    → ((x : ℕ) → near_threshold x ≤ x)
    → c.is_unvalidated ≡ true
    → 0 < c.received_bytes
    → IsSmall c
    → get_remaining_budget c ≡ 0
    → is_near_limit near_threshold c ≡ true
unfolding is_near_limit get_remaining_budget
is_near_limit-budget near_threshold c below u r h e =
    ground (arith, below (mul64 c.received_bytes 3))
