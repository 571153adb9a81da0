-- ===== src/Stream/CryptoStream/Levels.antt =====
-- What each level of the handshake's stream keeps: what was read is the start of the peer's bytes, and
-- what goes out are the bytes written, at their offsets.
use quic_x.Common.{
  ℕ, ◌+◌, ◌-◌, ◌^◌, ◌≤◌, ◌≡◌, refl, subst, inl, inr, List, ◌∷◌, ◌++◌, arith, ◌==◌, ==_iff,
  Bool-cases, if_both, length, length-append, take, drop, IsU64, add64,
}
use quic_x.Stream.Reorder.Content.{slice, gather-IsPrefix, Fits, IsPrefix}
use quic_x.Stream.Reorder.Slices.{take-slice, drop-slice, length-take-drop, append-slice}
use quic_x.Stream.CryptoStream.{new_level, gathered, place, CryptoFrame, Level}

abbrev pub last_offset : ℕ
last_offset = 2 ^ 64 - 1

-- A level to which so many bytes have been written.
pub record IsLevel (theirs ours : ℕ → ℕ) (written : ℕ) (l : Level) : Type 0 where
  pub reading : IsPrefix theirs last_offset (gathered l)
  pub buffered : l.send_buffer ≡ slice ours l.send_offset (length l.send_buffer)
  pub total : l.send_offset + length l.send_buffer ≡ written
  pub room : IsU64 (l.send_offset + length l.send_buffer)

-- A frame carries bytes of a stream at its offset.
pub record IsPart (content : ℕ → ℕ) (f : CryptoFrame) : Type 0 where
  pub bytes_eq : f.bytes ≡ slice content f.offset (length f.bytes)
  pub below : f.offset + length f.bytes ≤ last_offset

pub new-IsLevel : (theirs ours : ℕ → ℕ) → IsLevel theirs ours 0 new_level
new-IsLevel theirs ours = record {
  reading = record { prefix = refl; next_below = omega arith; waiting_fit = tt };
  buffered = refl;
  total = refl;
  room = omega arith;
}

module _ (theirs ours : ℕ → ℕ) (written : ℕ) where
  pub place-IsLevel :
      (l : Level) (f : CryptoFrame)
      → IsPart theirs f
      → IsLevel theirs ours written l
      → IsLevel theirs ours written (place l f)
  unfolding place
  place-IsLevel l f p v = elim (Bool-cases (f.offset == l.next_read_offset)) [
    | inl y ↦
        let e : f.offset ≡ l.next_read_offset = (==_iff _ _).0 y in
        let b = p.below in
        let fits : Fits theirs last_offset (l.next_read_offset, f.bytes) = record {
          bytes_eq = subst (λ o. f.bytes ≡ slice theirs o (length f.bytes)) e p.bytes_eq;
          below = omega arith;
        } in
        let g =
          gather-IsPrefix theirs last_offset (omega arith) (gathered l) f.bytes v.reading fits in
        rw y (record {
          reading = record {
            prefix = g.prefix;
            next_below = g.next_below;
            waiting_fit = g.waiting_fit;
          };
          buffered = v.buffered;
          total = v.total;
          room = v.room;
        })
    | inr n ↦ rw n (
        if_both (IsLevel theirs ours written) _
          (record l { out_order_frame = (f.offset, f.bytes) ∷ l.out_order_frame }) l
          (record {
            reading = record {
              prefix = v.reading.prefix;
              next_below = v.reading.next_below;
              waiting_fit =
                  (record { bytes_eq = p.bytes_eq; below = p.below }, v.reading.waiting_fit);
            };
            buffered = v.buffered;
            total = v.total;
            room = v.room;
          })
          v)
  ]

  -- Bytes are written behind those that wait.
  pub write-IsLevel :
      (l : Level) (bytes : List ℕ)
      → bytes ≡ slice ours written (length bytes)
      → IsU64 (written + length bytes)
      → IsLevel theirs ours written l
      → IsLevel theirs ours
          (written + length bytes)
          (record l { send_buffer = l.send_buffer ++ bytes })
  write-IsLevel l bytes a h v =
      let n = length-append l.send_buffer bytes in
      let t = v.total in
      record {
        reading = record {
          prefix = v.reading.prefix;
          next_below = v.reading.next_below;
          waiting_fit = v.reading.waiting_fit;
        };
        buffered = append-slice ours l.send_offset l.send_buffer bytes v.buffered (rw v.total a);
        total = rw n (omega (arith, v.total));
        room = omega arith;
      }

  -- The first bytes go out.
  pub sent-IsLevel :
      (l : Level) (k : ℕ)
      → IsLevel theirs ours written l
      → IsLevel theirs ours written (record l {
        send_buffer = drop (length (take k l.send_buffer)) l.send_buffer;
        send_offset = add64 l.send_offset (length (take k l.send_buffer));
      })
  sent-IsLevel l k v =
      let n = length (take k l.send_buffer) in
      let sum = length-take-drop k l.send_buffer in
      let room = v.room in
      let e : add64 l.send_offset n ≡ l.send_offset + n = omega arith in
      record {
        reading = record {
          prefix = v.reading.prefix;
          next_below = v.reading.next_below;
          waiting_fit = v.reading.waiting_fit;
        };
        total = rw e (omega (arith, v.total));
        buffered = rw e (drop-slice ours k l.send_offset l.send_buffer v.buffered);
        room = rw e (omega arith);
      }

  pub taken-IsPart :
      (l : Level) (level k : ℕ)
      → IsLevel theirs ours written l
      → IsPart ours (record {
        encryption_level = level;
        offset = l.send_offset;
        bytes = take k l.send_buffer;
      })
  taken-IsPart l level k v =
      let sum = length-take-drop k l.send_buffer in
      let room = v.room in
      record {
        bytes_eq = take-slice ours k l.send_offset l.send_buffer v.buffered;
        below = omega arith;
      }
