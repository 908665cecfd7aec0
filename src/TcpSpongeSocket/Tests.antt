-- ===== src/TcpSpongeSocket/Tests.antt =====
-- Runs of the rules and of the loop of libsponge/tcp_helpers/tcp_sponge_socket.cc.
use csed353_sponge.Common.{
  OnSuccess, length, replicate, ℕ, ◌-◌, ◌≡◌, refl, subst, Bool, true, false, some, List, [], ◌∷◌,
  arith,
}
use csed353_sponge.ByteStream.{ByteStream}
use csed353_sponge.WrappingIntegers.{WrappingInt32, wrap}
use csed353_sponge.TcpHeader.{new_header}
use csed353_sponge.TcpSegment.{TcpSegment}
use csed353_sponge.TcpReceiver
use csed353_sponge.TcpReceiver.Segments.{IsSegment}
use csed353_sponge.TcpConfig.{new_config}
use csed353_sponge.TcpConnection.{TcpConnection, remaining_outbound_capacity, write}
use csed353_sponge.TcpConnection.Failure.{Reset}
use csed353_sponge.FileDescriptor
use csed353_sponge.FileDescriptor.{new_descriptor, register_read}
use csed353_sponge.EventLoop.{Revents, ready, nothing, timeout, set_up, wait_next_event}
use csed353_sponge.FdAdapter.{FdAdapter, new_adapter}
use csed353_sponge.TcpSpongeSocket.{AdapterOps, SpongeSocket, take_outbound, rules}
use csed353_sponge.TcpSpongeSocket.Adapters.{tun_ops}
use csed353_sponge.TcpSpongeSocket.Streams.{take_outbound_lem}
use csed353_sponge.TcpSpongeSocket.Loop.{Round, tcp_loop, tcp_main}
use csed353_sponge.TcpSpongeSocket.Loop.Runs.{HasPrefix, tcp_loop-HasPrefix}
use csed353_sponge.TcpSpongeSocket.Loop.Ends.{abort_sends_nothing}

abbrev stream : List ℕ → ByteStream
stream buffer = record {
  capacity = 8;
  bytes_written = 2;
  bytes_read = 2 - length buffer;
  input_ended = false;
  buffer = buffer;
  error = false;
}

abbrev isn : WrappingInt32
isn = record { raw_value = 17 }

-- An established connection with two bytes for the owner.
abbrev established : TcpConnection
established = record {
  cfg = new_config;
  receiver = record {
    reassembler = record {
      output = stream (7 ∷ 8 ∷ []);
      capacity = 8;
      unassembled_bytes = 0;
      eof = false;
      buffer = replicate 8 32;
      state = replicate 8 false;
    };
    capacity = 8;
    is_syn = true;
    is_fin = false;
    isn = isn;
  };
  sender = record {
    isn = isn;
    window_size = 5;
    receiver_window_size = 5;
    segments_out = [];
    outstanding_segments = [];
    is_timer_on = false;
    initial_retransmission_timeout = 1000;
    retransmission_timeout = 1000;
    timer_elapsed = 0;
    consecutive_retransmissions = 0;
    stream = stream [];
    fin = false;
    current_seqno = 3;
    next_seqno = 3;
  };
  segments_out = [];
  linger_after_streams_finish = true;
  error = false;
  fin = false;
  time_since_last_segment_received = 500;
}

abbrev socket : SpongeSocket FdAdapter (List ℕ) (List ℕ)
socket = record {
  tcp = established;
  thread_data = new_descriptor;
  adapter = new_adapter;
  adapter_fd = new_descriptor;
  inbound_shutdown = false;
  outbound_shutdown = false;
  fully_acked = false;
  arrivals = [];
  thread_reads = some (1 ∷ 2 ∷ []) ∷ [];
  thread_writes = some 1 ∷ [];
  sent = [];
  delivered = 5 ∷ 6 ∷ [];
}

take_outbound_lem_example :
    ((write (1 ∷ 2 ∷ []) established).1 ≡ 2)
    × (take_outbound socket
        ≡ some (record socket {
          tcp = (write (1 ∷ 2 ∷ []) established).0;
          thread_data = register_read new_descriptor;
          thread_reads = [];
        }))
unfolding FileDescriptor.read remaining_outbound_capacity
take_outbound_lem_example =
    take_outbound_lem socket (some (1 ∷ 2 ∷ [])) [] (register_read new_descriptor) (1 ∷ 2 ∷ []) refl
      refl

abbrev times_out : Bool → Round FdAdapter (List ℕ) (List ℕ)
times_out abort = record { poll = λ _. nothing; abort = abort; elapsed = 10 }

-- An adapter that hands over the segments that it is given.
abbrev wire_ops : AdapterOps FdAdapter TcpSegment TcpSegment
wire_ops = record {
  read = λ seg a. some (a, some seg, []);
  write = λ seg a. some (a, seg ∷ []);
  tick = λ ms a. some (a, []);
  set_config = λ cfg a. record a { cfg = cfg };
  set_listening = λ l a. record a { listening = l };
}

-- The SYN of the peer, with the one byte of its stream.
abbrev opening : TcpSegment
opening = record { header = record new_header { syn = true; seqno = wrap 0 isn }; payload = 9 ∷ [] }

abbrev quiet : SpongeSocket FdAdapter TcpSegment TcpSegment
quiet = record {
  tcp = record established { receiver = TcpReceiver.init 8 };
  thread_data = new_descriptor;
  adapter = new_adapter;
  adapter_fd = new_descriptor;
  inbound_shutdown = false;
  outbound_shutdown = false;
  fully_acked = false;
  arrivals = opening ∷ [];
  thread_reads = [];
  thread_writes = some 1 ∷ [];
  sent = [];
  delivered = [];
}

opening-IsSegment : IsSegment (9 ∷ []) isn opening
opening-IsSegment = record {
  index = 0;
  part = (omega arith, λ i h. ground (arith, h));
  first = λ e. refl;
  numbered = refl;
}

-- The device is readable in the first round, and the owner's stream writable in the second.
abbrev rounds : List (Round FdAdapter TcpSegment TcpSegment)
rounds =
    let idle : Revents = record {
      poll_error = false;
      poll_hup = false;
      readable = false;
      writable = false;
    } in
    record { poll = λ _. ready (record idle { readable = true } ∷ []); abort = false; elapsed = 1 }
    ∷ record {
      poll = λ _. ready (idle ∷ idle ∷ record idle { writable = true } ∷ []);
      abort = false;
      elapsed = 1;
    }
    ∷ []

tcp_loop-HasPrefix_example :
    OnSuccess
      (λ r. HasPrefix wire_ops (9 ∷ []) isn (omega arith) (omega arith) r.0)
      (tcp_loop wire_ops (λ _. true) rounds (rules wire_ops) quiet)
tcp_loop-HasPrefix_example =
    tcp_loop-HasPrefix wire_ops (9 ∷ []) isn (omega arith) (omega arith) (λ _. true) rounds quiet 8
      refl (omega arith) refl
      (λ a b seg os e. subst (IsSegment (9 ∷ []) isn) (cc) opening-IsSegment, tt)

abort_sends_nothing_example :
    (u : SpongeSocket FdAdapter (List ℕ) (List ℕ)) × (tcp_main tun_ops
        (times_out true ∷ [])
        (rules tun_ops)
        socket
      ≡ some (u, true))
    × (u.sent ≡ [])
    × Reset 1 established u.tcp
unfolding wait_next_event set_up rules
abort_sends_nothing_example =
    abort_sends_nothing tun_ops (times_out true) [] (rules tun_ops) (rules tun_ops) socket socket
      timeout refl refl refl
