-- ===== src/TcpSpongeSocket/Loop/Ends.antt =====
-- How the calls of libsponge/tcp_helpers/tcp_sponge_socket.cc begin and end.
use csed353_sponge.Common.{
  length, ℕ, ◌+◌, ◌≡◌, refl, ap, ◌∙◌, inl, inr, true, ◌||◌, some, List, ◌∷◌, arith,
}
use csed353_sponge.TcpConfig.{TcpConfig, FdAdapterConfig}
use csed353_sponge.TcpConnection
use csed353_sponge.TcpConnection.{TcpConnection, active, destroy}
use csed353_sponge.TcpConnection.Failure.{Reset, destroy_lem}
use csed353_sponge.TcpState.{official, syn_sent, state, same_state}
use csed353_sponge.TcpState.Official.{same_state_self}
use csed353_sponge.TcpState.Summary.{connect-syn_sent}
use csed353_sponge.EventLoop.{is_exit, Rule, Result, wait_next_event}
use csed353_sponge.TcpSpongeSocket.{AdapterOps, SpongeSocket}
use csed353_sponge.TcpSpongeSocket.Loop.{Round, start_connect, tcp_loop, tcp_main}

module _ {A I O : Type 0} where
  -- `connect` never throws because of the state that the connection is in: from an initialised socket
  -- the SYN is queued, the adapter has its configuration, and the connection is in SYN_SENT.
  pub start_connect_lem :
      (ops : AdapterOps A I O) (c_ad : FdAdapterConfig) (s : SpongeSocket A I O) (cfg : TcpConfig)
      (random : ℕ)
      → s.tcp ≡ TcpConnection.init cfg random
      → (start_connect ops c_ad s
          ≡ some (record s {
            adapter = ops.set_config c_ad s.adapter;
            tcp = TcpConnection.connect s.tcp;
          }))
        × (state (TcpConnection.connect s.tcp) ≡ official syn_sent)
  unfolding start_connect
  start_connect_lem ops c_ad s cfg random fresh =
      let e : state (TcpConnection.connect s.tcp) ≡ official syn_sent =
        ap (λ c. state (TcpConnection.connect c)) fresh ∙ (connect-syn_sent cfg random).0 in
      let same : same_state (state (TcpConnection.connect s.tcp)) (official syn_sent) ≡ true =
        ap (λ a. same_state a (official syn_sent)) e ∙ same_state_self (official syn_sent) in
      (rw same refl, e)

  -- When the owner aborts while the connection is active, the thread ends, and the connection has
  -- failed with a segment with the RST flag at the end of its queue, but nothing is written to the
  -- device any more: what was sent is what was sent before.
  pub abort_sends_nothing :
      (ops : AdapterOps A I O) (round : Round A I O) (rounds : List (Round A I O))
      (rs left : List (Rule (SpongeSocket A I O))) (s t : SpongeSocket A I O) (ret : Result)
      → wait_next_event round.poll rs s ≡ some (t, left, ret)
      → round.abort ≡ true
      → active t.tcp ≡ true
      → (u : SpongeSocket A I O) × (tcp_main ops (round ∷ rounds) rs s ≡ some (u, true))
        × (u.sent ≡ t.sent)
        × Reset (length t.tcp.sender.segments_out + 1) t.tcp u.tcp
  unfolding tcp_main tcp_loop
  abort_sends_nothing ops round rounds rs left s t ret waited aborted alive =
      let over : (is_exit ret || round.abort) ≡ true = ground (arith, aborted) in
      (
        record t { tcp = destroy t.tcp },
        rw (waited, over, tcp_main, tcp_loop) refl,
        refl,
        elim (destroy_lem t.tcp) [ inl r ↦ r.1 | inr r ↦ absurd (ground (arith, r.0, alive)) ],
      )
