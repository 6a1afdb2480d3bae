-- ===== src/Server/Config.antt =====
-- opcua-server/src/config.rs: the server's configuration and its check. The parsing of a socket
-- address is the standard library's and a parameter.
use opcua_plc_bridge.Base.{
  ℕ, Bool, Str, codes, is_blank, ◌==◌, Outcome, ok, err, ◌>>◌, fail_if, if◌then◌else◌,
}

pub data WriteMode : Type 0 where
  queued_ack confirmed_ack : WriteMode

pub data SecurityMode : Type 0 where
  no_security sign sign_and_encrypt : SecurityMode

pub data SecurityPolicy : Type 0 where
  no_policy basic128_rsa15 basic256 basic256_sha256 : SecurityPolicy

-- The fields that `validate` reads.
pub record OpcUaConfig : Type 0 where
  pub bind_addr : Str
  pub port : ℕ
  pub application_name : Str
  pub application_uri : Str
  pub namespace_uri : Str

pub data ConfigError : Type 0 where
  missing_field invalid_address : Str → ConfigError
  invalid_port : ℕ → ConfigError

module _ (is_socket_addr : Str → ℕ → Bool) where
  -- `bind_socket_addr`; the address that it gives is not used.
  unfoldable pub bind_socket_addr : OpcUaConfig → Outcome ConfigError (Unit {0})
  bind_socket_addr c =
      if is_socket_addr c.bind_addr c.port then ok tt else err (invalid_address c.bind_addr)

  -- `OpcUaConfig::validate`
  unfoldable pub validate : OpcUaConfig → Outcome ConfigError (Unit {0})
  validate c = do
    fail_if (is_blank c.application_name) (missing_field (codes "application_name"))
    fail_if (is_blank c.application_uri) (missing_field (codes "application_uri"))
    fail_if (is_blank c.namespace_uri) (missing_field (codes "namespace_uri"))
    fail_if (c.port == 0) (invalid_port c.port)
    bind_socket_addr c
