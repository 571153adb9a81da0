-- ===== src/Flow/Send/DataLimit.antt =====
-- The connection never sends more than the peer allows, and says once for each limit that it is
-- blocked.
use quic_x.Common.{
  ℕ, suc, ◌+◌, ◌-◌, ◌≤◌, ◌≡◌, false, none, some, List, [], ◌∷◌, arith, ltb, ◌!=◌, if◌then◌else◌,
  IsU64,
}
use quic_x.Flow.Send.{on_data_sent, on_max_data_received, can_send_data, SendFlowController}

-- What `CanSendData` answers, on every branch: whether anything may be sent, how much, and that
-- neither the bytes counted nor the limit change.
pub can_send_data_lem :
    (c : SendFlowController)
    → let (c', allowed, size, frame) = can_send_data c in
      (allowed ≡ ltb c.sent_bytes c.max_data)
      × (size ≡ c.max_data - c.sent_bytes)
      × (c'.sent_bytes ≡ c.sent_bytes)
      × (c'.max_data ≡ c.max_data)
unfolding can_send_data
can_send_data_lem c = ground arith

-- The connection as its owner drives it, with the bytes it has in truth sent and the largest limit
-- it has heard of, both before and after: it sends no more than it was just granted, and the peer's
-- MAX_DATA frames come in at any time.
pub data Step : SendFlowController → ℕ → ℕ → SendFlowController → ℕ → ℕ → Type 0 where
  sends :
      (c : SendFlowController) (sent limit n : ℕ)
      → n ≤ (can_send_data c).2
      → Step c sent limit (on_data_sent (can_send_data c).0 n) (sent + n) limit
  raises :
      (c : SendFlowController) (sent limit new_limit : ℕ)
      → IsU64 new_limit
      → Step c sent limit
          (on_max_data_received c new_limit)
          sent
          (if ltb limit new_limit then new_limit else limit)

pub data Reach (c : SendFlowController) (sent limit : ℕ)
    : (SendFlowController → ℕ → ℕ → Type 0) where
  here : Reach c sent limit c sent limit
  next :
      {d e : SendFlowController} {n m k l : ℕ}
      → Reach c sent limit d n m
      → Step d n m e k l
      → Reach c sent limit e k l

-- The controller has counted all of the bytes sent and knows the largest limit, and no more was
-- sent than this limit.
abbrev pub IsWithin : SendFlowController → ℕ → ℕ → Type 0
IsWithin c sent limit = (c.sent_bytes ≡ sent) × (c.max_data ≡ limit) × (sent ≤ limit) × IsU64 limit

Step-IsWithin :
    {c d : SendFlowController} {n m k l : ℕ} → Step c n m d k l → IsWithin c n m → IsWithin d k l
unfolding on_data_sent on_max_data_received
Step-IsWithin (sends c sent limit n h) v = ground (arith, can_send_data_lem c)
Step-IsWithin (raises c sent limit new_limit h) v = ground arith

-- From a state within the limit, however often the connection sends no more than `CanSendData` has
-- just granted, and whatever MAX_DATA frames of 64 bits come in, the bytes truly sent are at most
-- the largest limit that was ever given, and the controller's count and limit are these two.
pub Reach-IsWithin :
    {c : SendFlowController} {n m k l : ℕ} {d : SendFlowController}
    → IsWithin c n m
    → Reach c n m d k l
    → IsWithin d k l
Reach-IsWithin v here = v
Reach-IsWithin v (next r s) = Step-IsWithin s (Reach-IsWithin v r)

-- The calls that bear on DATA_BLOCKED.
pub data Call : Type 0 where
  checks : Call
  sent received : ℕ → Call

pub after : SendFlowController → Call → SendFlowController
after c checks = (can_send_data c).0
after c (sent n) = on_data_sent c n
after c (received limit) = on_max_data_received c limit

abbrev pub frames_of : SendFlowController → Call → ℕ
frames_of c checks = elim (can_send_data c).3 [ none ↦ 0 | some f ↦ 1 ]
frames_of c _ = 0

-- How many frames the calls hand out, one after the other.
pub blocked_frames : SendFlowController → List Call → ℕ
blocked_frames c [] = 0
blocked_frames c (k ∷ ks) = frames_of c k + blocked_frames (after c k) ks

abbrev pub limits_received : List Call → ℕ
limits_received [] = 0
limits_received (received limit ∷ ks) = suc (limits_received ks)
limits_received (_ ∷ ks) = limits_received ks

abbrev fresh : SendFlowController → ℕ
fresh c = if c.last_data_blocked_limit != c.max_data then 1 else 0

checks_once : (c : SendFlowController) → frames_of c checks + fresh (can_send_data c).0 ≤ fresh c
unfolding can_send_data
checks_once c = ground arith

blocked_frames-le_fresh :
    (c : SendFlowController) (ks : List Call) → blocked_frames c ks ≤ fresh c + limits_received ks
unfolding blocked_frames after on_data_sent on_max_data_received
blocked_frames-le_fresh c [] = omega arith
blocked_frames-le_fresh c (checks ∷ ks) =
    omega (arith, checks_once c, blocked_frames-le_fresh (can_send_data c).0 ks)
blocked_frames-le_fresh c (sent n ∷ ks) =
    omega (arith, blocked_frames-le_fresh (on_data_sent c n) ks)
blocked_frames-le_fresh c (received limit ∷ ks) =
    ground (arith, blocked_frames-le_fresh (on_max_data_received c limit) ks)

-- However often the limit is checked, at most one DATA_BLOCKED frame goes out for the first limit
-- and one for each MAX_DATA frame that came in.
pub blocked_frames-le :
    (c : SendFlowController) (ks : List Call) → blocked_frames c ks ≤ limits_received ks + 1
blocked_frames-le c ks = ground (arith, blocked_frames-le_fresh c ks)

-- A controller whose limit is 0 says nothing of being blocked, although it may not send.
pub silent_at_zero :
    (c : SendFlowController)
    → c.max_data ≡ 0
    → c.last_data_blocked_limit ≡ 0
    → can_send_data c ≡ (c, false, 0, none)
unfolding can_send_data
silent_at_zero c e h = ground arith
