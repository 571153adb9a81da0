-- ===== src/Lib.antt =====
-- A model of the core of quicX, a QUIC and HTTP/3 library in C++ (src/quic, src/http3, src/common).
--
-- A connection of quicX is built of small controllers, which the connection calls in turn: packets
-- get their numbers and carry frames, a receiver collects the numbers that it acknowledges, a
-- sender settles them and detects losses, streams cut what is written into frames and put the frames
-- that arrive into order again, controllers for flow, congestion, pacing and amplification say what
-- may be sent, and state machines follow the connection and its streams. The files model one such
-- part each, one definition per method, named like the method, on a record of the fields of the class.
--
-- Common: numbers, tests, lists and words that the files share. A C++ word is a native number with
--   its wrap written out (add64, sub64, mul64 and so on).
-- Codec: src/common/decode/decode.cpp (Varint, Fixed), the buffer wrappers of src/common/buffer over
--   one contiguous range (Wrapper), src/quic/packet/packet_number.cpp (PacketNumber), and the frames
--   of src/quic/frame whose fields are varints alone (Control).
-- Ack: src/quic/frame/ack_frame.cpp (Frame), src/quic/connection/controler/recv_control.cpp (Recv),
--   the walk of send_control.cpp over an ACK frame (Sent), pmtu_prober.cpp (Probe). The frame that
--   Recv builds is the one that Frame writes and reads and that Sent and Probe walk over.
-- Stream: of src/quic/stream, state_machine_send.cpp (Send), state_machine_recv.cpp (Recv),
--   recv_stream.cpp (RecvStream), send_stream.cpp (SendStream, with its acknowledged ranges in Acks
--   and its calls in Calls) and crypto_stream.cpp (CryptoStream). Reorder has the frames out of order
--   and the loop over them that both receivers have. SendStream and RecvStream run their state
--   machines; SendStream/Network feeds a receiver with the frames of a sender.
-- Connection: src/quic/connection/connection_state_machine.cpp (State),
--   controler/anti_amplification_controller.cpp (AntiAmplification), key_update_trigger.cpp
--   (KeyUpdate), encryption_level_scheduler.cpp (Scheduler, over the ACKs that are due in Ack.Recv).
-- Flow: src/quic/connection/controler/send_flow_controller.cpp (Send) and recv_flow_controller.cpp
--   (Recv), src/quic/stream/stream_id_generator.cpp (StreamId).
-- Recovery: src/quic/connection/controler/rtt_calculator.cpp (Rtt) and send_control.cpp (SendControl,
--   with what it does about losses and acknowledgements in SendControl/Loss and its map of
--   unacknowledged packets in Unacked; its walk over the numbers is that of Ack.Sent), and of
--   src/quic/congestion_control normal_pacer.cpp (Pacer) and reno_congestion_control.cpp (Reno).
-- Timer: src/common/timer/treemap_timer.cpp.
-- Qpack: of src/http3/qpack, dynamic_table.cpp (Table) and util.cpp (Prefix).
--
-- State is passed explicitly. What a call hands out through a pointer, a callback or a timer is part
-- of its result. A failed call is `none` or `false`, as in the code.
--
-- Some loops have fuel. The length of a packet number has eight rounds, one for each byte of a
-- `uint64_t`. The walk over an ACK range takes any number of rounds: for the frames of the receiver
-- it is shown how many are enough, and for the frames that never end it that none are; what
-- `OnPacketAck` does is run over the same fuel. The loop over the frames that wait has a round for
-- each of them, since every round takes one out. The dynamic table has as many rounds to make room
-- as it has entries, and a prefixed integer ten continuation bytes; both are shown to be enough.
--
-- Parameters: the multiplication of the congestion window by a `double` and the threshold of the
-- amplification limit, which is computed on a `double` too. The clock is an argument, and so is the
-- visitor of a packet, which takes a stream's frames or refuses them.
--
-- Not modelled: logs, metrics and traces; the encoding of the frames that carry bytes; connection
-- identifiers; the timing wheel; the blocks of the buffers, and the writes into a stream's own buffer that
-- `GetSendBuffer` allows; CUBIC and BBR, which compute on `double`; cryptography and TLS; Huffman
-- codes, the instructions of QPACK and the frames of HTTP/3; sockets and threads.
pub mod Common
pub mod Codec
pub mod Stream
pub mod Connection
pub mod Flow
pub mod Ack
pub mod Recovery
pub mod Timer
pub mod Qpack
