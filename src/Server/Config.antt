-- ===== src/Server/Config.antt =====
-- crates/relos-server/src/config.rs.
use relos.Prelude.{ℕ, ◌++◌}
use relos.Prelude.Bytes.{Text, text}
use relos.Log.Decimal.{decimal}

pub record ServerConfig : Type 0 where
  pub listen_addr : Text
  pub grpc_port : ℕ
  pub node_id : ℕ

-- `ServerConfig::default`
abbrev pub default : ServerConfig
default = record { listen_addr = text "127.0.0.1"; grpc_port = 9000; node_id = 1 }

unfoldable pub grpc_addr : ServerConfig → Text
grpc_addr c = c.listen_addr ++ text ":" ++ decimal c.grpc_port
