-- ===== src/Connection/KeyUpdate/Tests.antt =====
-- Runs.
use quic_x.Common.{◌≡◌, refl, true}
use quic_x.Connection.KeyUpdate.{new, packets_since_update, on_packet_sent, KeyUpdateTrigger}

many_packets : (on_packet_sent (record new { enabled = true }) 1000).1 ≡ true
unfolding on_packet_sent packets_since_update
many_packets = refl

abbrev enabled_trigger : KeyUpdateTrigger
enabled_trigger = record new { enabled = true }

abbrev no_thresholds : KeyUpdateTrigger
no_thresholds = record new { enabled = true; bytes_threshold = 0; pn_threshold = 0 }
