-- ===== src/Flow/StreamId.antt =====
-- `StreamIDGenerator` of src/quic/stream/stream_id_generator.cpp.
use quic_x.Common.{
  ℕ, ◌+◌, ◌*◌, ◌/◌, ◌%◌, ◌^◌, ◌<◌, bit_or, ◌≡◌, arith, ◌!=◌, if◌then◌else◌, add64, bit_or_disjoint,
}

pub data StreamStarter : Type 0 where
  client server : StreamStarter

pub data StreamDirection : Type 0 where
  bidirectional unidirectional : StreamDirection

abbrev pub starter_bit : StreamStarter → ℕ
starter_bit client = 0x0
starter_bit server = 0x1

abbrev pub direction_bit : StreamDirection → ℕ
direction_bit bidirectional = 0x0
direction_bit unidirectional = 0x2

pub record StreamIdGenerator : Type 0 where
  pub starter : StreamStarter
  pub cur_bidirectional_id : ℕ
  pub cur_unidirectional_id : ℕ

abbrev pub new_generator : StreamStarter → StreamIdGenerator
new_generator starter = record {
  starter = starter;
  cur_bidirectional_id = 0;
  cur_unidirectional_id = 0;
}

abbrev pub cur_id : StreamIdGenerator → StreamDirection → ℕ
cur_id g bidirectional = g.cur_bidirectional_id
cur_id g unidirectional = g.cur_unidirectional_id

-- `next_stream << 2 | (direction | starter_)`
unfoldable pub make_stream_id : ℕ → StreamDirection → StreamStarter → ℕ
make_stream_id n direction starter =
    bit_or (n * 2 ^ 2 % 2 ^ 64) (bit_or (direction_bit direction) (starter_bit starter))

abbrev pub advance : StreamIdGenerator → StreamDirection → StreamIdGenerator
advance g bidirectional = record g { cur_bidirectional_id = add64 g.cur_bidirectional_id 1 }
advance g unidirectional = record g { cur_unidirectional_id = add64 g.cur_unidirectional_id 1 }

unfoldable pub next_stream_id : StreamIdGenerator → StreamDirection → ℕ × StreamIdGenerator
next_stream_id g direction =
    (make_stream_id (cur_id g direction) direction g.starter, advance g direction)

unfoldable pub peek_next_stream_id : StreamIdGenerator → StreamDirection → ℕ
peek_next_stream_id g direction = make_stream_id (cur_id g direction) direction g.starter

-- `id & kUnidirectional`, the second bit.
unfoldable pub get_stream_direction : ℕ → StreamDirection
get_stream_direction id = if id / 2 % 2 != 0 then unidirectional else bidirectional

-- In plain arithmetic: the count, the direction and the starter.
pub make_stream_id_lem :
    (n : ℕ) (d : StreamDirection) (s : StreamStarter)
    → n < 2 ^ 62
    → make_stream_id n d s ≡ n * 4 + (direction_bit d + starter_bit s)
unfolding make_stream_id
make_stream_id_lem n bidirectional client h = ground (arith, bit_or_disjoint 2 n 0)
make_stream_id_lem n bidirectional server h = ground (arith, bit_or_disjoint 2 n 1)
make_stream_id_lem n unidirectional client h = ground (arith, bit_or_disjoint 2 n 2)
make_stream_id_lem n unidirectional server h = ground (arith, bit_or_disjoint 2 n 3)

-- The parts of a stream number, while there are fewer than 2^62 streams: its count, its direction
-- and its starter are read back from it.
pub stream_id_parts :
    (n : ℕ) (d : StreamDirection) (s : StreamStarter)
    → n < 2 ^ 62
    → (make_stream_id n d s / 4 ≡ n)
      × (get_stream_direction (make_stream_id n d s) ≡ d)
      × (make_stream_id n d s % 2 ≡ starter_bit s)
unfolding get_stream_direction
stream_id_parts n bidirectional client h = ground (arith, make_stream_id_lem n bidirectional client)
stream_id_parts n bidirectional server h = ground (arith, make_stream_id_lem n bidirectional server)
stream_id_parts n unidirectional client h =
    ground (arith, make_stream_id_lem n unidirectional client)
stream_id_parts n unidirectional server h =
    ground (arith, make_stream_id_lem n unidirectional server)
