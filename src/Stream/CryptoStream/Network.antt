-- ===== src/Stream/CryptoStream/Network.antt =====
-- Runs of the handshake's stream, and two of them with a network between them.
use quic_x.Common.{
  ℕ, ◌+◌, min, ◌≡◌, refl, sym, subst, inl, inr, Bool, true, false, ◌||◌, Option, none, some, List,
  [], ◌∷◌, ◌++◌, arith, leb, ◌==◌, if◌then◌else◌, ==_iff, Bool-cases, if_both, length, is_empty,
  take, drop, All, All-append, IsU64, add64,
}
use quic_x.Stream.Reorder.Content.{slice}
use quic_x.Stream.CryptoStream.{
  k_num_encryption_levels, k_initial, new_level, new_crypto_stream, set_level, to_send,
  write_size_of, frame_taken, try_send_data, reset_for_retry, get_wait_send_encryption_level,
  send_at, send_waiting, place, on_crypto_frame, frame_list, on_crypto_input, run_crypto,
  CryptoFrame, recv, Level, CryptoStream, CryptoVisitor, CryptoInput, write, write_waiting,
  send_data, crypto_frame, retry,
}
use quic_x.Stream.CryptoStream.Levels.{
  new-IsLevel, place-IsLevel, write-IsLevel, sent-IsLevel, taken-IsPart, IsLevel, IsPart,
}

-- At every level, with the number of bytes written to each.
abbrev pub Levels : (ℕ → ℕ → ℕ) → (ℕ → ℕ → ℕ) → (ℕ → ℕ) → CryptoStream → Type 0
Levels theirs ours written s =
    (level : ℕ) → IsLevel (theirs level) (ours level) (written level) (s.levels level)

abbrev pub set_count : (ℕ → ℕ) → ℕ → ℕ → ℕ → ℕ
set_count written level n = λ i. if i == level then n else written i

-- The numbers of bytes written after a call: a Retry begins the initial level anew.
abbrev pub counted : CryptoStream → (ℕ → ℕ) → CryptoInput → ℕ → ℕ
counted s written (write level bytes) = set_count written level (written level + length bytes)
counted s written (write_waiting bytes) =
    set_count written (get_wait_send_encryption_level s)
      (written (get_wait_send_encryption_level s) + length bytes)
counted s written retry = set_count written k_initial 0
counted s written _ = written

-- And after some calls.
abbrev pub all_counted : CryptoStream → (ℕ → ℕ) → List CryptoInput → ℕ → ℕ
all_counted s written [] = written
all_counted s written (i ∷ is) = all_counted (on_crypto_input s i).0 (counted s written i) is

set_count-at : (written : ℕ → ℕ) (level n : ℕ) → set_count written level n level ≡ n
set_count-at written level n = let e : (level == level) ≡ true = ground arith in rw e refl

set_count-other :
    (written : ℕ → ℕ) (level n i : ℕ)
    → (i == level) ≡ false
    → set_count written level n i ≡ written i
set_count-other written level n i e = rw e refl

-- Frames with the bytes of their levels.
abbrev pub Parts : (ℕ → ℕ → ℕ) → List CryptoFrame → Type 0
Parts content fs = All (λ f. IsPart (content f.encryption_level) f) fs

module _ (theirs ours : ℕ → ℕ → ℕ) where
  -- A write carries what the level's stream has from the number of bytes written before on.
  abbrev pub WriteAt : (ℕ → ℕ) → ℕ → List ℕ → Type 0
  WriteAt written level bytes =
      (bytes ≡ slice (ours level) (written level) (length bytes))
      × IsU64 (written level + length bytes)

  -- So do the calls that write, and a frame that comes in carries the peer's bytes.
  abbrev pub CallAgrees : CryptoStream → (ℕ → ℕ) → CryptoInput → Type 0
  CallAgrees s written (write level bytes) = WriteAt written level bytes
  CallAgrees s written (write_waiting bytes) =
      WriteAt written (get_wait_send_encryption_level s) bytes
  CallAgrees s written (send_data v level) = Unit {0}
  CallAgrees s written (crypto_frame f) = IsPart (theirs f.encryption_level) f
  CallAgrees s written retry = Unit {0}

  abbrev pub Calls : CryptoStream → (ℕ → ℕ) → List CryptoInput → Type 0
  Calls s written [] = Unit {0}
  Calls s written (i ∷ is) =
      CallAgrees s written i × Calls (on_crypto_input s i).0 (counted s written i) is

  -- One level is set, and the counts of the others are as they were.
  set_level-Levels :
      (s : CryptoStream) (level : ℕ) (l : Level) (before written : ℕ → ℕ)
      → ((i : ℕ) → (i == level) ≡ false → written i ≡ before i)
      → IsLevel (theirs level) (ours level) (written level) l
      → Levels theirs ours before s
      → Levels theirs ours written (set_level s level l)
  set_level-Levels s level l before written h v w i = elim (Bool-cases (i == level)) [
    | inl y ↦
        let e : i ≡ level = (==_iff i level).0 y in
        rw y (subst (λ k. IsLevel (theirs k) (ours k) (written k) l) (sym e) v)
    | inr n ↦ rw (n, h i n) (w i)
  ]

  send_at-Levels :
      (s : CryptoStream) (written : ℕ → ℕ) (bytes : List ℕ) (level : ℕ)
      → WriteAt written level bytes
      → Levels theirs ours written s
      → Levels theirs ours
          (set_count written level (written level + length bytes))
          (send_at s bytes level)
  unfolding send_at
  send_at-Levels s written bytes level (a, b) w =
      let l = s.levels level in
      let more = written level + length bytes in
      let v = write-IsLevel (theirs level) (ours level) (written level) l bytes a b (w level) in
      set_level-Levels s level (record l { send_buffer = l.send_buffer ++ bytes }) written
        (set_count written level more) (set_count-other written level more)
        (rw (set_count-at written level more) v) w

  frame-Levels :
      (s : CryptoStream) (written : ℕ → ℕ) (f : CryptoFrame)
      → IsPart (theirs f.encryption_level) f
      → Levels theirs ours written s
      → Levels theirs ours written (on_crypto_frame s f)
  unfolding on_crypto_frame
  frame-Levels s written f p w =
      let level = f.encryption_level in
      let placed = set_level s level (place (s.levels level) f) in
      let v =
        set_level-Levels s level (place (s.levels level) f) written written (λ i e. refl)
          (place-IsLevel (theirs level) (ours level) (written level) (s.levels level) f p (w level))
          w in
      if_both (Levels theirs ours written) _ s _ w (
        if_both (Levels theirs ours written) (f.offset == (s.levels level).next_read_offset)
          (record placed { events = recv level ∷ s.events }) placed v v)

  taken-Levels :
      (s : CryptoStream) (written : ℕ → ℕ) (level k : ℕ)
      → Levels theirs ours written s
      → Levels theirs ours written (frame_taken s level (take k (s.levels level).send_buffer))
  unfolding frame_taken
  taken-Levels s written level k w =
      let l = s.levels level in
      let n = length (take k l.send_buffer) in
      let sent =
        set_level s level
          (record l { send_buffer = drop n l.send_buffer; send_offset = add64 l.send_offset n }) in
      let v =
        set_level-Levels s level
          (record l { send_buffer = drop n l.send_buffer; send_offset = add64 l.send_offset n })
          written written (λ i e. refl)
          (sent-IsLevel (theirs level) (ours level) (written level) l k (w level)) w in
      if_both (Levels theirs ours written) _ (to_send sent) sent v v

  try_send-Levels :
      (s : CryptoStream) (written : ℕ → ℕ) (v : CryptoVisitor) (level : ℕ)
      → Levels theirs ours written s
      → Levels theirs ours written (try_send_data s v level).0
        × Parts ours (frame_list (try_send_data s v level).1)
  unfolding try_send_data
  try_send-Levels s written v level w =
      let l = s.levels level in
      let k = min (write_size_of l v) v.first_chunk in
      let bytes = take k l.send_buffer in
      let frame : CryptoFrame = record {
        encryption_level = level;
        offset = l.send_offset;
        bytes = bytes;
      } in
      if_both Goes (leb k_num_encryption_levels level) (s, none, false) _ (w, tt)
        (if_both Goes (is_empty l.send_buffer || is_empty bytes) (s, none, true) _ (w, tt)
          (if_both Goes v.handle_frame (frame_taken s level bytes, some frame, true)
            (s, none, false)
            (
              taken-Levels s written level k w,
              (taken-IsPart (theirs level) (ours level) (written level) l level k (w level), tt),
            )
            (w, tt)))
    where
      Goes : CryptoStream × Option CryptoFrame × Bool → Type 0
      Goes r = Levels theirs ours written r.0 × Parts ours (frame_list r.1)

  on_crypto_input-Levels :
      (s : CryptoStream) (written : ℕ → ℕ) (i : CryptoInput)
      → CallAgrees s written i
      → Levels theirs ours written s
      → Levels theirs ours (counted s written i) (on_crypto_input s i).0
        × Parts ours (on_crypto_input s i).1
  unfolding on_crypto_input
  on_crypto_input-Levels s written (write level bytes) a w =
      (send_at-Levels s written bytes level a w, tt)
  on_crypto_input-Levels s written (write_waiting bytes) a w = (
    unfold send_waiting in send_at-Levels s written bytes (get_wait_send_encryption_level s) a w,
    tt,
  )
  on_crypto_input-Levels s written (send_data v level) a w = try_send-Levels s written v level w
  on_crypto_input-Levels s written (crypto_frame f) a w = (frame-Levels s written f a w, tt)
  on_crypto_input-Levels s written retry a w = (
    unfold reset_for_retry in
        set_level-Levels s k_initial new_level written (set_count written k_initial 0)
          (set_count-other written k_initial 0) (new-IsLevel (theirs 0) (ours 0)) w,
    tt,
  )

  run_crypto-Levels :
      (s : CryptoStream) (written : ℕ → ℕ) (is : List CryptoInput)
      → Calls s written is
      → Levels theirs ours written s
      → Levels theirs ours (all_counted s written is) (run_crypto s is).0
        × Parts ours (run_crypto s is).1
  unfolding run_crypto
  run_crypto-Levels s written [] a w = (w, tt)
  run_crypto-Levels s written (i ∷ is) (a, rest) w =
      let (v, p) = on_crypto_input-Levels s written i a w in
      let (u, q) = run_crypto-Levels (on_crypto_input s i).0 (counted s written i) is rest v in
      (
        u,
        All-append (λ f. IsPart (ours f.encryption_level) f) (on_crypto_input s i).1
            (run_crypto (on_crypto_input s i).0 is).1 p q,
      )

-- Whatever is called on a new stream of the handshake, when the frames that come in carry the bytes
-- of the peer's stream of their level, and each write carries what our stream of its level has from
-- the sum of the sizes written to the level before it, counted anew behind a Retry at the initial
-- level, and all is below 2^64: at every level, what has been read is the start of the peer's stream;
-- what waits to be sent are the bytes of our stream from the offset to be sent next, and this offset
-- with their number is the sum of the sizes written, so that none is lost; and every CRYPTO frame
-- that goes out has the bytes of our stream at its offset.
pub run_crypto-slice :
    (theirs ours : ℕ → ℕ → ℕ) (is : List CryptoInput)
    → Calls theirs ours new_crypto_stream (λ level. 0) is
    → Levels theirs ours
        (all_counted new_crypto_stream (λ level. 0) is)
        (run_crypto new_crypto_stream is).0
      × Parts ours (run_crypto new_crypto_stream is).1
run_crypto-slice theirs ours is a =
    run_crypto-Levels theirs ours new_crypto_stream (λ level. 0) is a
      (λ level. new-IsLevel (theirs level) (ours level))
