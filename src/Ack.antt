-- ===== src/Ack.antt =====
-- Acknowledgements: the ACK frame of src/quic/frame/ack_frame.cpp, the receiver that builds it from
-- the packets that came in (src/quic/connection/controler/recv_control.cpp), and the sender's walk
-- over the numbers that it acknowledges (send_control.cpp).
pub mod Frame
pub mod Recv
pub mod Sent
pub mod Probe
