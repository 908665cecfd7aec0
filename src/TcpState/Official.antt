-- ===== src/TcpState/Official.antt =====
-- The official states of libsponge/tcp_helpers/tcp_state.cc as summaries.
use csed353_sponge.Common.{◌≡◌, refl, sym, ap, ◌∙◌, Bool, true, false, arith}
use csed353_sponge.TcpState.{
  ReceiverSummary, SenderSummary, State, TcpState, same_state, official, receiver_listen,
  receiver_fin_recv, sender_error, sender_closed, sender_syn_sent, sender_syn_acked,
  sender_fin_sent, sender_fin_acked, listen, syn_rcvd, syn_sent, established, close_wait, last_ack,
  fin_wait_1, fin_wait_2, closing, time_wait, closed, reset,
}

-- The name of a summary with both ends of a state.
named : SenderSummary → ReceiverSummary → Bool → Bool → State
named sender_error r a l = reset
named sender_closed r a l = listen
named sender_syn_sent receiver_listen a l = syn_sent
named sender_syn_sent r a l = syn_rcvd
named sender_syn_acked receiver_fin_recv a l = close_wait
named sender_syn_acked r a l = established
named sender_fin_sent receiver_fin_recv a true = closing
named sender_fin_sent receiver_fin_recv a false = last_ack
named sender_fin_sent r a l = fin_wait_1
named sender_fin_acked receiver_fin_recv true l = time_wait
named sender_fin_acked receiver_fin_recv false l = closed
named sender_fin_acked r a l = fin_wait_2

named-official :
    (s : State)
    → named
        (official s).sender
        (official s).receiver
        (official s).active
        (official s).linger_after_streams_finish
      ≡ s
unfolding named official
named-official listen = refl
named-official syn_rcvd = refl
named-official syn_sent = refl
named-official established = refl
named-official close_wait = refl
named-official last_ack = refl
named-official fin_wait_1 = refl
named-official fin_wait_2 = refl
named-official closing = refl
named-official time_wait = refl
named-official closed = refl
named-official reset = refl

-- No two official states have the same summary.
pub official_injective : (s t : State) → official s ≡ official t → s ≡ t
official_injective s t e =
    sym (named-official s)
    ∙ ap (λ (u : TcpState). named u.sender u.receiver u.active u.linger_after_streams_finish) e
    ∙ named-official t

-- The comparison of summaries holds of equal ones.
pub same_state_self : (a : TcpState) → same_state a a ≡ true
same_state_self a = ground arith
