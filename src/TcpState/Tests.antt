-- ===== src/TcpState/Tests.antt =====
-- Concrete states for the summaries of libsponge/tcp_helpers/tcp_state.cc.
use csed353_sponge.Common.{◌≡◌, true, false, [], ◌∷◌}
use csed353_sponge.WrappingIntegers.{wrap}
use csed353_sponge.TcpHeader.{new_header}
use csed353_sponge.TcpConfig.{new_config}
use csed353_sponge.TcpSegment.{TcpSegment}
use csed353_sponge.TcpConnection.{init, connect}
use csed353_sponge.TcpState.{official, state, syn_sent}
use csed353_sponge.TcpState.Summary.{connect-syn_sent}

abbrev rst : TcpSegment
rst = record { header = record new_header { rst = true }; payload = [] }

connect-syn_sent_example :
    let c = connect (init new_config 5) in
    (state c ≡ official syn_sent)
    × (seg : TcpSegment) × (c.segments_out ≡ seg ∷ [])
    × (seg.header.syn ≡ true)
    × (seg.header.ack ≡ false)
    × (seg.header.seqno ≡ wrap 0 c.sender.isn)
    × (seg.payload ≡ [])
connect-syn_sent_example = connect-syn_sent new_config 5
