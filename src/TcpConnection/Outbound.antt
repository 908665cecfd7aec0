-- ===== src/TcpConnection/Outbound.antt =====
-- What `write` of libsponge/tcp_connection.cc accepts.
use csed353_sponge.Common.{length, ℕ, ◌≤◌, ◌≡◌, List, arith}
use csed353_sponge.ByteStream
use csed353_sponge.TcpConnection.{TcpConnection, remaining_outbound_capacity, write}

-- Bytes that are no more than the capacity that the connection advertises are all accepted.
pub write_all_lem :
    (bytes : List ℕ) (c : TcpConnection)
    → length bytes ≤ remaining_outbound_capacity c
    → (write bytes c).1 ≡ length bytes
unfolding write remaining_outbound_capacity ByteStream.write
write_all_lem bytes c h = ground (arith, h)
