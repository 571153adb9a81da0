-- ===== src/Stream/SendStream/Acks.antt =====
-- The ranges of acknowledged bytes of src/quic/stream/send_stream.cpp (`OnDataAcked`,
-- `CheckAllDataAcked`), kept as a list in the order of their starts.
use quic_x.Stream.SendStream.{SendStream}
use quic_x.Stream.Send.{all_ack_done}
use quic_x.Common.{
  ℕ, max, Bool, true, ◌&&◌, ◌||◌, List, [], ◌∷◌, ltb, leb, ◌==◌, if◌then◌else◌, add64,
}

-- The ranges that an acknowledged range [new_start, new_end) reaches are taken into it.
unfoldable pub absorb : List (ℕ × ℕ) → ℕ → ℕ → List (ℕ × ℕ)
absorb [] new_start new_end = (new_start, new_end) ∷ []
absorb ((s, e) ∷ rs) new_start new_end =
    let more = absorb rs new_start (max e new_end) in
    if leb s new_end then more else (new_start, new_end) ∷ (s, e) ∷ rs

abbrev pub starts_after : List (ℕ × ℕ) → ℕ → Bool
starts_after [] a = true
starts_after ((s, e) ∷ rs) a = ltb a s

-- `upper_bound`: the range before it may reach the new one.
unfoldable pub add_range : List (ℕ × ℕ) → ℕ → ℕ → List (ℕ × ℕ)
unfolding absorb
add_range [] new_start new_end = absorb [] new_start new_end
add_range ((s, e) ∷ rs) new_start new_end =
    let more = add_range rs new_start new_end in
    if leb s new_start
    then (if starts_after rs new_start
        then (if leb new_start e
            then absorb rs s (max e new_end)
            else (s, e) ∷ absorb rs new_start new_end)
        else (s, e) ∷ more)
    else absorb ((s, e) ∷ rs) new_start new_end

unfoldable pub advance_offset : List (ℕ × ℕ) → ℕ → ℕ
advance_offset [] acked_offset = acked_offset
advance_offset ((s, e) ∷ rs) acked_offset = if s == 0 && ltb acked_offset e then e else acked_offset

unfoldable pub check_all_data_acked : SendStream → SendStream
check_all_data_acked s =
    if s.fin_sent && leb s.send_data_offset s.acked_offset
    then record s { machine = (all_ack_done s.machine).0 }
    else s

unfoldable pub note_acked : SendStream → ℕ → ℕ → Bool → SendStream
unfolding add_range advance_offset
note_acked s offset_start range_length fin =
    let ranges =
      if ltb 0 range_length
      then add_range s.acked_ranges offset_start (add64 offset_start range_length)
      else s.acked_ranges in
    record s {
      acked_ranges = ranges;
      acked_offset = advance_offset ranges s.acked_offset;
      fin_sent = s.fin_sent || fin;
    }

unfoldable pub on_data_acked : SendStream → ℕ → ℕ → Bool → SendStream
unfolding note_acked check_all_data_acked
on_data_acked s offset_start range_length fin =
    check_all_data_acked (note_acked s offset_start range_length fin)
