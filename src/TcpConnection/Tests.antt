-- ===== src/TcpConnection/Tests.antt =====
-- Concrete states of the connection of libsponge/tcp_connection.cc.
use csed353_sponge.Common.{
  to_u32, length, replicate, ◌+◌, ◌^◌, ◌<◌, ◌≡◌, refl, ◌⊎◌, Bool, true, false, [], ◌∷◌, arith,
}
use csed353_sponge.ByteStream
use csed353_sponge.ByteStream.{ByteStream}
use csed353_sponge.WrappingIntegers.{WrappingInt32}
use csed353_sponge.StreamReassembler
use csed353_sponge.TcpHeader.{new_header}
use csed353_sponge.TcpConfig.{new_config}
use csed353_sponge.TcpSegment.{TcpSegment, new_segment}
use csed353_sponge.TcpReceiver
use csed353_sponge.TcpReceiver.{stream_index, note_syn}
use csed353_sponge.TcpSender
use csed353_sponge.TcpConnection.{
  TcpConnection, init, active, segment_received, tick, end_input_stream, connect, destroy,
}
use csed353_sponge.TcpConnection.Failure.{
  Failed, Reset, segment_received_rst, tick_gives_up, destroy_lem,
}
use csed353_sponge.TcpConnection.Closing.{lingering_ends}
use csed353_sponge.TcpConnection.Invariant.{IsValid}
use csed353_sponge.TcpConnection.Reach.{
  span, Reachable, fresh, connects, receives, ticks, ends, reachable-IsValid,
}

abbrev syn : TcpSegment
syn = record { header = record new_header { syn = true; win = 1000 }; payload = [] }

abbrev rst : TcpSegment
rst = record { header = record new_header { rst = true }; payload = [] }

-- The peer opens, we answer with our SYN, the input ends, and time passes.
abbrev start : TcpConnection
start = init new_config 5

abbrev used : TcpConnection
used = tick 1000 (end_input_stream (connect (segment_received syn start)))

window_below :
    start.receiver.reassembler.output.bytes_read + start.receiver.reassembler.capacity < 2 ^ 64
unfolding init TcpReceiver.init StreamReassembler.init ByteStream.init
window_below = omega arith

nothing_outstanding : span start.sender.outstanding_segments < 2 ^ 31
unfolding init TcpSender.init
nothing_outstanding = omega arith

used-Reachable : Reachable new_config 5 used
used-Reachable = ticks 1000 (
    ends
      (connects (receives syn (omega arith) (omega arith) window_below nothing_outstanding fresh)))

reachable-IsValid_example : IsValid used
reachable-IsValid_example =
    reachable-IsValid new_config 5 (omega arith) (omega arith) (omega arith)
      (λ w e. absurd (ground (arith, e))) used-Reachable

segment_received_rst_example :
    Failed (segment_received rst used)
    × ((segment_received rst used).segments_out ≡ used.segments_out)
segment_received_rst_example = segment_received_rst rst used refl

-- Both streams have ended and all is acknowledged, at most 500 ms ago.
abbrev ended_stream : ByteStream
ended_stream = record {
  capacity = 8;
  bytes_written = 1;
  bytes_read = 1;
  input_ended = true;
  buffer = [];
  error = false;
}

abbrev isn : WrappingInt32
isn = record { raw_value = 17 }

abbrev over : Bool → TcpConnection
over linger = record {
  cfg = new_config;
  receiver = record {
    reassembler = record {
      output = ended_stream;
      capacity = 8;
      unassembled_bytes = 0;
      eof = true;
      buffer = replicate 8 32;
      state = replicate 8 false;
    };
    capacity = 8;
    is_syn = true;
    is_fin = true;
    isn = isn;
  };
  sender = record {
    isn = isn;
    window_size = 5;
    receiver_window_size = 5;
    segments_out = [];
    outstanding_segments = [];
    is_timer_on = false;
    initial_retransmission_timeout = 1000;
    retransmission_timeout = 1000;
    timer_elapsed = 0;
    consecutive_retransmissions = 0;
    stream = ended_stream;
    fin = true;
    current_seqno = 3;
    next_seqno = 3;
  };
  segments_out = [];
  linger_after_streams_finish = linger;
  error = false;
  fin = true;
  time_since_last_segment_received = 500;
}

lingering_ends_example : active (tick 9500 (over true)) ≡ false
lingering_ends_example = lingering_ends 9500 (over true) refl (omega arith) (omega arith)

-- A segment is in flight, sent again eight times, and the timeout is reached.
abbrev unanswered : TcpConnection
unanswered =
    let s = (over true).sender in
    let lost : TcpSegment = record {
      header = record new_header { seqno = isn };
      payload = 1 ∷ [];
    } in
    record (over true) {
      sender = record s {
        outstanding_segments = lost ∷ [];
        is_timer_on = true;
        timer_elapsed = 1000;
        consecutive_retransmissions = 8;
        current_seqno = 2;
      };
    }

ninth : 8 < to_u32 (TcpSender.tick 5 unanswered.sender).consecutive_retransmissions
unfolding TcpSender.tick
ninth = omega arith

tick_gives_up_example :
    Reset (length (TcpSender.tick 5 unanswered.sender).segments_out) unanswered (tick 5 unanswered)
tick_gives_up_example = tick_gives_up 5 unanswered refl ninth

destroy_lem_example :
    ((active unanswered ≡ true)
      × Reset (length unanswered.sender.segments_out + 1) unanswered (destroy unanswered))
    ⊎ ((active unanswered ≡ false) × (destroy unanswered ≡ unanswered))
destroy_lem_example = destroy_lem unanswered

-- Two segments are queued.
abbrev queued : TcpConnection
queued =
    let s = unanswered.sender in
    record unanswered { sender = record s { segments_out = new_segment ∷ syn ∷ [] } }
