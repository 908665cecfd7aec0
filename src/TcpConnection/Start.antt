-- ===== src/TcpConnection/Start.antt =====
-- The fresh connection of libsponge/tcp_connection.hh, and `connect`.
use csed353_sponge.Common.{ℕ, ◌≡◌, refl, true, false, []}
use csed353_sponge.TcpConfig.{TcpConfig}
use csed353_sponge.TcpReceiver
use csed353_sponge.TcpSender
use csed353_sponge.TcpSender.{fill_window}
use csed353_sponge.TcpConnection.{TcpConnection, init, connect}
use csed353_sponge.TcpConnection.Send.{after, send_lem}

pub init-eq :
    (cfg : TcpConfig) (random : ℕ)
    → init cfg random ≡ record {
      cfg = cfg;
      receiver = TcpReceiver.init cfg.recv_capacity;
      sender = TcpSender.init cfg.send_capacity cfg.rt_timeout cfg.fixed_isn random;
      segments_out = [];
      linger_after_streams_finish = true;
      error = false;
      fin = false;
      time_since_last_segment_received = 0;
    }
unfolding init
init-eq cfg random = refl

pub connect-eq :
    (c : TcpConnection)
    → connect c
      ≡ after (fill_window c.sender).segments_out (record c { sender = fill_window c.sender })
unfolding connect
connect-eq c = send_lem (record c { sender = fill_window c.sender })
