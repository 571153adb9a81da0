-- ===== src/Stream/Reorder.antt =====
-- The frames that arrive before their turn, which RecvStream (src/quic/stream/recv_stream.cpp) and
-- CryptoStream (crypto_stream.cpp) keep in `out_order_frame_`, and the loop with which both take
-- them out when their turn has come. A frame is kept as its offset and its bytes.
pub mod Content
pub mod Slices
pub mod Chain
use quic_x.Common.{
  ℕ, zero, suc, Option, none, some, List, [], ◌∷◌, ◌++◌, ◌==◌, if◌then◌else◌, length, add64,
}

abbrev pub Waiting : Type 0
Waiting = List (ℕ × List ℕ)

-- `out_order_frame_.find(offset)`
unfoldable pub find_at : ℕ → Waiting → Option (List ℕ)
find_at offset [] = none
find_at offset ((o, bytes) ∷ ws) = if o == offset then some bytes else find_at offset ws

-- `out_order_frame_.erase(iter)`
unfoldable pub erase_at : ℕ → Waiting → Waiting
erase_at offset [] = []
erase_at offset ((o, bytes) ∷ ws) = if o == offset then ws else ((o, bytes) ∷ erase_at offset ws)

-- What the loop changes: the next offset, all bytes written to the buffer so far, the frames that
-- wait, and the length of the frame that the loop's variable holds.
pub record Gathered : Type 0 where
  pub next : ℕ
  pub written : List ℕ
  pub waiting : Waiting
  pub last_length : ℕ

unfoldable pub take_next : Gathered → List ℕ → Gathered
take_next g bytes = record {
  next = add64 g.next (length bytes);
  written = g.written ++ bytes;
  waiting = erase_at g.next g.waiting;
  last_length = length bytes;
}

-- The loop, with fuel. Every round takes one frame out.
unfoldable pub drain : ℕ → Gathered → Gathered
unfolding take_next
drain zero g = g
drain (suc fuel) g = elim (find_at g.next g.waiting) [
  | none ↦ g
  | some bytes ↦ drain fuel (take_next g bytes)
]

-- A frame in its turn is written, and then the frames that it was awaited for.
unfoldable pub gather : Gathered → List ℕ → Gathered
unfolding drain
gather g bytes = drain (length g.waiting) (record {
  next = add64 g.next (length bytes);
  written = g.written ++ bytes;
  waiting = g.waiting;
  last_length = length bytes;
})
