-- ===== src/TcpConfig.antt =====
-- libsponge/tcp_helpers/tcp_config.hh: the configuration of a TCP endpoint.
use csed353_sponge.Common.{◌==◌, ℕ, Bool, ◌&&◌, Option, none}
use csed353_sponge.WrappingIntegers.{WrappingInt32}

abbrev pub default_capacity : ℕ
default_capacity = 64000

abbrev pub max_payload_size : ℕ
max_payload_size = 1000

abbrev pub timeout_dflt : ℕ
timeout_dflt = 1000

abbrev pub max_retx_attempts : ℕ
max_retx_attempts = 8

pub record TcpConfig : Type 0 where
  pub rt_timeout : ℕ
  pub recv_capacity : ℕ
  pub send_capacity : ℕ
  pub fixed_isn : Option WrappingInt32

abbrev pub new_config : TcpConfig
new_config = record {
  rt_timeout = timeout_dflt;
  recv_capacity = default_capacity;
  send_capacity = default_capacity;
  fixed_isn = none;
}

-- An IPv4 address of a socket: its number and its port (libsponge/util/address.hh).
pub record Address : Type 0 where
  pub ip : ℕ
  pub port : ℕ

abbrev pub same_endpoint : Address → Address → Bool
same_endpoint a b = (a.ip == b.ip) && (a.port == b.port)

pub record FdAdapterConfig : Type 0 where
  pub source : Address
  pub destination : Address
  pub loss_rate_dn : ℕ
  pub loss_rate_up : ℕ

abbrev pub new_adapter_config : FdAdapterConfig
new_adapter_config = record {
  source = record { ip = 0; port = 0 };
  destination = record { ip = 0; port = 0 };
  loss_rate_dn = 0;
  loss_rate_up = 0;
}
