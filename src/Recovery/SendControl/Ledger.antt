-- ===== src/Recovery/SendControl/Ledger.antt =====
-- An account of the bytes in flight: what the congestion controller has been told, against the maps
-- of unacknowledged packets.
use quic_x.Common.{ℕ, ◌+◌, ◌≡◌, refl, List, [], ◌∷◌, ◌++◌, arith}
use quic_x.Codec.PacketNumber.{PacketNumberSpace, initial, handshake, application}
use quic_x.Recovery.Unacked.{Unacked}
use quic_x.Recovery.Unacked.Outstanding.{outstanding, Distinct, Below}
use quic_x.Recovery.SendControl.{space_of, Effect, cc_sent, cc_acked, cc_lost, SendControl}

-- The bytes of the packets that the controller was told of as sent.
unfoldable pub sent_bytes : List Effect → ℕ
sent_bytes [] = 0
sent_bytes (cc_sent pn bytes t ∷ es) = bytes + sent_bytes es
sent_bytes (e ∷ es) = sent_bytes es

-- The bytes of the packets that it was told of as acknowledged or lost.
unfoldable pub settled_bytes : List Effect → ℕ
settled_bytes [] = 0
settled_bytes (cc_acked pn bytes t d ce st ∷ es) = bytes + settled_bytes es
settled_bytes (cc_lost pn bytes t ∷ es) = bytes + settled_bytes es
settled_bytes (e ∷ es) = settled_bytes es

pub sent-append : (es fs : List Effect) → sent_bytes (es ++ fs) ≡ sent_bytes es + sent_bytes fs
unfolding sent_bytes
sent-append [] fs = omega arith
sent-append (cc_sent pn b t ∷ es) fs = omega (arith, sent-append es fs)
sent-append (_ ∷ es) fs = sent-append es fs

pub settled-append :
    (es fs : List Effect) → settled_bytes (es ++ fs) ≡ settled_bytes es + settled_bytes fs
unfolding settled_bytes
settled-append [] fs = omega arith
settled-append (cc_acked pn b t d ce st ∷ es) fs = omega (arith, settled-append es fs)
settled-append (cc_lost pn b t ∷ es) fs = omega (arith, settled-append es fs)
settled-append (_ ∷ es) fs = settled-append es fs

-- The maps of the three spaces and the effects: all that the account is about.
pub record View : Type 0 where
  pub map_initial : Unacked
  pub map_handshake : Unacked
  pub map_application : Unacked
  pub told : List Effect

abbrev pub view : SendControl → View
view c = record {
  map_initial = c.initial_space.unacked_packets;
  map_handshake = c.handshake_space.unacked_packets;
  map_application = c.application_space.unacked_packets;
  told = c.effects;
}

abbrev pub map_of : View → PacketNumberSpace → Unacked
map_of v initial = v.map_initial
map_of v handshake = v.map_handshake
map_of v application = v.map_application

abbrev pub put_map : View → PacketNumberSpace → Unacked → List Effect → View
put_map v initial m es = record v { map_initial = m; told = es ++ v.told }
put_map v handshake m es = record v { map_handshake = m; told = es ++ v.told }
put_map v application m es = record v { map_application = m; told = es ++ v.told }

abbrev pub in_flight : View → ℕ
in_flight v =
    outstanding v.map_initial + outstanding v.map_handshake + outstanding v.map_application

-- No number stands twice in a map, and all are below a bound.
pub record InOrder (bound : ℕ) (m : Unacked) : Type 0 where
  pub distinct : Distinct m
  pub below : Below bound m

-- Every byte that the controller knows as sent is settled or in flight, and the maps are in order.
pub record IsBalanced (bound : PacketNumberSpace → ℕ) (v : View) : Type 0 where
  pub account : sent_bytes v.told ≡ settled_bytes v.told + in_flight v
  pub order_initial : InOrder (bound initial) v.map_initial
  pub order_handshake : InOrder (bound handshake) v.map_handshake
  pub order_application : InOrder (bound application) v.map_application

pub order_of :
    {bound : PacketNumberSpace → ℕ} {v : View}
    → IsBalanced bound v
    → (ns : PacketNumberSpace) → InOrder (bound ns) (map_of v ns)
order_of b initial = b.order_initial
order_of b handshake = b.order_handshake
order_of b application = b.order_application

-- A new map for one space, with effects that account for the difference.
pub put_map-IsBalanced :
    (bound : PacketNumberSpace → ℕ) (v : View) (ns : PacketNumberSpace) (m : Unacked)
    (es : List Effect)
    → IsBalanced bound v
    → sent_bytes es + outstanding (map_of v ns) ≡ settled_bytes es + outstanding m
    → InOrder (bound ns) m
    → IsBalanced bound (put_map v ns m es)
put_map-IsBalanced bound v initial m es b e o =
    let a = b.account in
    record {
      account = omega (arith, sent-append es v.told, settled-append es v.told);
      order_initial = o;
      order_handshake = b.order_handshake;
      order_application = b.order_application;
    }
put_map-IsBalanced bound v handshake m es b e o =
    let a = b.account in
    record {
      account = omega (arith, sent-append es v.told, settled-append es v.told);
      order_initial = b.order_initial;
      order_handshake = o;
      order_application = b.order_application;
    }
put_map-IsBalanced bound v application m es b e o =
    let a = b.account in
    record {
      account = omega (arith, sent-append es v.told, settled-append es v.told);
      order_initial = b.order_initial;
      order_handshake = b.order_handshake;
      order_application = o;
    }

-- Effects that the account does not read.
pub told-IsBalanced :
    (bound : PacketNumberSpace → ℕ) (v : View) (es : List Effect)
    → IsBalanced bound v
    → sent_bytes es ≡ 0
    → settled_bytes es ≡ 0
    → IsBalanced bound (record v { told = es ++ v.told })
told-IsBalanced bound v es b s t =
    let a = b.account in
    record {
      account = omega (arith, sent-append es v.told, settled-append es v.told);
      order_initial = b.order_initial;
      order_handshake = b.order_handshake;
      order_application = b.order_application;
    }

pub map-view :
    (c : SendControl) (ns : PacketNumberSpace)
    → map_of (view c) ns ≡ (space_of c ns).unacked_packets
map-view c initial = refl
map-view c handshake = refl
map-view c application = refl
