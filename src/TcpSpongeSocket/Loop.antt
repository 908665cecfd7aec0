-- ===== src/TcpSpongeSocket/Loop.antt =====
-- The loop and the calls of libsponge/tcp_helpers/tcp_sponge_socket.cc that block the owner.
pub mod Runs
pub mod Ends
use csed353_sponge.Common.{
  if◌then◌else◌, ℕ, Bool, true, false, not, ◌||◌, Option, none, some, List, [], ◌∷◌,
}
use csed353_sponge.TcpConfig.{TcpConfig, FdAdapterConfig}
use csed353_sponge.TcpConnection
use csed353_sponge.TcpConnection.{TcpConnection, active}
use csed353_sponge.TcpState.{
  TcpState, State, listen, syn_rcvd, syn_sent, official, state, same_state,
}
use csed353_sponge.FileDescriptor.{FileDescriptor, new_descriptor, shutdown_both}
use csed353_sponge.EventLoop.{Rule, Polled, PollResult, Result, is_exit, wait_next_event}
use csed353_sponge.TcpSpongeSocket.{AdapterOps, SpongeSocket, emit, rules}

-- A round of `_tcp_loop`: what `poll` reports, whether the owner has set `_abort` by then, and the
-- time that has passed since the connection was last told.
pub record Round (A I O : Type 0) : Type 0 where
  pub poll : List (Polled (SpongeSocket A I O)) → PollResult
  pub abort : Bool
  pub elapsed : ℕ

module _ {A I O : Type 0} where
  -- The end of a round.
  pub pass_time : AdapterOps A I O → ℕ → SpongeSocket A I O → Option (SpongeSocket A I O)
  pass_time ops elapsed s =
      let ticked : Option (SpongeSocket A I O) = elim (ops.tick elapsed s.adapter) [
        | none ↦ none
        | some (adapter, os) ↦
            some (emit os (record s { tcp = TcpConnection.tick elapsed s.tcp; adapter = adapter }))
      ] in
      if active s.tcp then ticked else some s

  -- `_tcp_loop`, for as many rounds as are given: the state, the rules that are left, and whether the
  -- loop has ended. `none` is an exception.
  pub tcp_loop :
      AdapterOps A I O
      → (SpongeSocket A I O → Bool)
      → List (Round A I O)
      → List (Rule (SpongeSocket A I O))
      → SpongeSocket A I O
      → Option (SpongeSocket A I O × List (Rule (SpongeSocket A I O)) × Bool)
  tcp_loop ops condition [] rs s = some (s, rs, not (condition s))
  tcp_loop ops condition (round ∷ rounds) rs s =
      let waited : Option (SpongeSocket A I O × List (Rule (SpongeSocket A I O)) × Bool) =
        elim (wait_next_event round.poll rs s) [
          | none ↦ none
          | some (t, left, ret) ↦
              let again : Option (SpongeSocket A I O × List (Rule (SpongeSocket A I O)) × Bool) =
                elim (pass_time ops round.elapsed t) [
                  | none ↦ none
                  | some u ↦ tcp_loop ops condition rounds left u
                ] in
              if is_exit ret || round.abort then some (t, left, true) else again
        ] in
      if condition s then waited else some (s, rs, true)

  abbrev pub is_state : State → SpongeSocket A I O → Bool
  is_state expected s = same_state (state s.tcp) (official expected)

  -- A socket whose connection has just been made by `_initialize_TCP`. `random` is for the sender.
  abbrev pub initialize :
      TcpConfig → ℕ → A → List I → List (Option (List ℕ)) → List (Option ℕ) → SpongeSocket A I O
  initialize c_tcp random adapter arrivals thread_reads thread_writes = record {
    tcp = TcpConnection.init c_tcp random;
    thread_data = new_descriptor;
    adapter = adapter;
    adapter_fd = new_descriptor;
    inbound_shutdown = false;
    outbound_shutdown = false;
    fully_acked = false;
    arrivals = arrivals;
    thread_reads = thread_reads;
    thread_writes = thread_writes;
    sent = [];
    delivered = [];
  }

  -- `connect` from the initialised socket on, up to the loop. `none` is the exception that the
  -- connection is not in the expected state.
  pub start_connect :
      AdapterOps A I O → FdAdapterConfig → SpongeSocket A I O → Option (SpongeSocket A I O)
  start_connect ops c_ad s =
      let connected = record s {
        adapter = ops.set_config c_ad s.adapter;
        tcp = TcpConnection.connect s.tcp;
      } in
      if not (is_state syn_sent connected) then none else some connected

  pub connect :
      AdapterOps A I O
      → FdAdapterConfig
      → List (Round A I O)
      → SpongeSocket A I O
      → Option (SpongeSocket A I O × List (Rule (SpongeSocket A I O)) × Bool)
  connect ops c_ad rounds s = elim (start_connect ops c_ad s) [
    | none ↦ none
    | some t ↦ tcp_loop ops (is_state syn_sent) rounds (rules ops) t
  ]

  -- The states in which `listen_and_accept` waits.
  abbrev pub is_opening : SpongeSocket A I O → Bool
  is_opening s = is_state listen s || is_state syn_rcvd s || is_state syn_sent s

  pub listen_and_accept :
      AdapterOps A I O
      → FdAdapterConfig
      → List (Round A I O)
      → SpongeSocket A I O
      → Option (SpongeSocket A I O × List (Rule (SpongeSocket A I O)) × Bool)
  listen_and_accept ops c_ad rounds s =
      let adapter = ops.set_listening true (ops.set_config c_ad s.adapter) in
      tcp_loop ops is_opening rounds (rules ops) (record s { adapter = adapter })

  -- `_tcp_main`: the loop without a condition, and the end of the connection, whose destructor is run
  -- by `_tcp.reset()`. The `shutdown` is that of the owner's end of the stream.
  abbrev pub end_main :
      Option (SpongeSocket A I O × List (Rule (SpongeSocket A I O)) × Bool)
      → Option (SpongeSocket A I O × Bool)
  end_main none = none
  end_main (some (s, rs, ended)) =
      let gone = record s { tcp = TcpConnection.destroy s.tcp } in
      some (if ended then (gone, true) else (s, false))

  pub tcp_main :
      AdapterOps A I O
      → List (Round A I O)
      → List (Rule (SpongeSocket A I O))
      → SpongeSocket A I O
      → Option (SpongeSocket A I O × Bool)
  tcp_main ops rounds rs s = end_main (tcp_loop ops (λ _. true) rounds rs s)
