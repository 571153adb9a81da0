-- ===== src/Connection/Scheduler/Context.antt =====
-- What the chosen level is fit for.
use quic_x.Connection.Scheduler.{
  k_initial, k_early_data, k_handshake, k_application, level_to_space, has_cross_level_pending_ack,
  try_get_0_rtt_level, normal_context, own_context, get_next_send_context, SendContext,
  Surroundings, Scheduler,
}
use quic_x.Ack.Recv.{should_send_ack_now}
use quic_x.Codec.PacketNumber.{initial, handshake}
use quic_x.Common.{
  ◌≡◌, refl, sym, subst, ◌≢◌, ◌⊎◌, inl, inr, true, false, ◌&&◌, none, some, arith, leb, ◌==◌,
  ==_iff, Bool-cases, Option-cases,
}

-- What a context has to satisfy.
pub record IsFit (s : Scheduler) (w : Surroundings) (ctx : SendContext) : Type 0 where
  pub has_keys : w.has_cryptographer ctx.level ≡ true
  pub ack_due :
      (ctx.has_pending_ack ≡ false)
      ⊎ ((should_send_ack_now w.recv_control ctx.ack_space ≡ true)
          × (ctx.ack_space ≡ level_to_space ctx.level))
  pub probe_level : (ctx.is_path_probe ≡ false) ⊎ (ctx.level ≡ k_application)
  pub after_initial :
      (ctx.level ≢ k_early_data)
      ⊎ ((w.cur_encryption_level ≡ k_early_data) ⊎ (s.initial_packet_sent ≡ true))

cross-IsFit :
    (s : Scheduler) (w : Surroundings) (ctx : SendContext)
    → has_cross_level_pending_ack w ≡ some ctx
    → IsFit s w ctx
unfolding has_cross_level_pending_ack level_to_space
cross-IsFit s w ctx e =
    elim (Bool-cases (
      leb k_handshake w.cur_encryption_level
      && should_send_ack_now w.recv_control initial
      && w.has_cryptographer k_initial)) [
        | inl y ↦
            let same : record {
              level = k_initial;
              has_pending_ack = true;
              ack_space = initial;
              is_path_probe = false;
            }
                ≡ ctx =
              ground arith in
            subst (IsFit s w) same (record {
              has_keys = ground arith;
              ack_due = inr (ground arith, refl);
              probe_level = inl refl;
              after_initial = inl (λ d. absurd (omega arith));
            })
        | inr n ↦
            let m : (leb k_application w.cur_encryption_level
                  && should_send_ack_now w.recv_control handshake
                  && w.has_cryptographer k_handshake)
                ≡ true =
              ground arith in
            let same : record {
              level = k_handshake;
              has_pending_ack = true;
              ack_space = handshake;
              is_path_probe = false;
            }
                ≡ ctx =
              ground arith in
            subst (IsFit s w) same (record {
              has_keys = ground arith;
              ack_due = inr (ground arith, refl);
              probe_level = inl refl;
              after_initial = inl (λ d. absurd (omega arith));
            })
      ]

normal-IsFit :
    (s : Scheduler) (w : Surroundings)
    → w.has_cryptographer w.cur_encryption_level ≡ true
    → IsFit s w (normal_context w)
unfolding normal_context
normal-IsFit s w k =
    let ns = level_to_space w.cur_encryption_level in
    let early : (w.cur_encryption_level ≢ k_early_data)
        ⊎ ((w.cur_encryption_level ≡ k_early_data) ⊎ (s.initial_packet_sent ≡ true)) =
      elim (Bool-cases (w.cur_encryption_level == k_early_data)) [
        | inl y ↦ inr (inl ((==_iff _ _).0 y))
        | inr n ↦ inl (λ d. absurd (ground arith))
      ] in
    elim (Bool-cases (should_send_ack_now w.recv_control ns)) [
      | inl y ↦ rw y (record {
        has_keys = k;
        ack_due = inr (y, refl);
        probe_level = inl refl;
        after_initial = early;
      })
      | inr n ↦ rw n (record {
        has_keys = k;
        ack_due = inl refl;
        probe_level = inl refl;
        after_initial = early;
      })
    ]

pub next_context-some :
    (s : Scheduler) (w : Surroundings) (ctx : SendContext)
    → has_cross_level_pending_ack w ≡ some ctx
    → get_next_send_context s w ≡ ctx
unfolding get_next_send_context
next_context-some s w ctx e = rw (e, get_next_send_context) refl

pub next_context-none :
    (s : Scheduler) (w : Surroundings)
    → has_cross_level_pending_ack w ≡ none
    → get_next_send_context s w ≡ own_context s w
unfolding get_next_send_context
next_context-none s w e = rw (e, get_next_send_context) refl

own_context-IsFit :
    (s : Scheduler) (w : Surroundings)
    → w.has_cryptographer w.cur_encryption_level ≡ true
    → IsFit s w (own_context s w)
unfolding own_context try_get_0_rtt_level
own_context-IsFit s w k =
    elim (Bool-cases (w.is_path_probe_inflight && w.has_cryptographer k_application)) [
      | inl y ↦ rw y (record {
        has_keys = ground arith;
        ack_due = inl refl;
        probe_level = inr refl;
        after_initial = inl (λ d. absurd (omega arith));
      })
      | inr n ↦ rw n (elim (Bool-cases (s.has_early_data_pending && try_get_0_rtt_level s w)) [
        | inl z ↦ rw z (record {
          has_keys = ground arith;
          ack_due = inl refl;
          probe_level = inl refl;
          after_initial = inr (inr (ground arith));
        })
        | inr z ↦ rw z (normal-IsFit s w k)
      ])
    ]

-- With keys for the current level, the next context is fit.
pub get_next_send_context-IsFit :
    (s : Scheduler) (w : Surroundings)
    → w.has_cryptographer w.cur_encryption_level ≡ true
    → IsFit s w (get_next_send_context s w)
get_next_send_context-IsFit s w k = elim (Option-cases (has_cross_level_pending_ack w)) [
  | inl n ↦ subst (IsFit s w) (sym (next_context-none s w n)) (own_context-IsFit s w k)
  | inr (ctx, e) ↦ subst (IsFit s w) (sym (next_context-some s w ctx e)) (cross-IsFit s w ctx e)
]
