-- ===== src/Runtime/Config.antt =====
-- runtime/src/config.rs: the configuration of tags and PLCs, and the parsing of its enumerations. The
-- readers of TOML and YAML are not part of the repository: the model starts at the values they give.
use opcua_plc_bridge.Base.{
  ℕ, Bool, List, [], ◌∷◌, Str, codes, str_eq, Option, none, some, ltb, if◌then◌else◌, Outcome, ok,
  err, ◌>>◌, fail_if,
}
use opcua_plc_bridge.Server.Config.{WriteMode, SecurityMode, SecurityPolicy}

pub record TagConfig : Type 0 where
  pub id : Str
  pub name : Str
  pub address : Str
  pub data_type : Str
  pub writable : Bool
  pub byte_order : Option Str
  pub word_count : Option ℕ
  pub area : Option ℕ

pub record PlcConfig : Type 0 where
  pub name : Str
  pub protocol : Str
  pub endpoint : Str
  pub cycle_ms : ℕ
  pub tags : List TagConfig
  pub max_words_per_request : Option ℕ

-- An error is the constructor that stands for its message.
pub data ConfigValidationError : Type 0 where
  invalid_write_mode invalid_security_mode invalid_security_policy : Str → ConfigValidationError
  invalid_cycle_ms : Str → ℕ → ConfigValidationError

unfoldable pub parse_write_mode : Str → Outcome ConfigValidationError WriteMode
parse_write_mode s =
    if str_eq s (codes "QueuedAck")
    then ok WriteMode.queued_ack
    else if str_eq s (codes "ConfirmedAck")
    then ok WriteMode.confirmed_ack
    else if str_eq s []
    then ok WriteMode.confirmed_ack
    else err (invalid_write_mode s)

unfoldable pub parse_security_mode : Option Str → Outcome ConfigValidationError SecurityMode
parse_security_mode none = ok SecurityMode.no_security
parse_security_mode (some s) =
    if str_eq s []
    then ok SecurityMode.no_security
    else if str_eq s (codes "None")
    then ok SecurityMode.no_security
    else if str_eq s (codes "Sign")
    then ok SecurityMode.sign
    else if str_eq s (codes "SignAndEncrypt")
    then ok SecurityMode.sign_and_encrypt
    else err (invalid_security_mode s)

unfoldable pub parse_security_policy : Option Str → Outcome ConfigValidationError SecurityPolicy
parse_security_policy none = ok SecurityPolicy.no_policy
parse_security_policy (some s) =
    if str_eq s []
    then ok SecurityPolicy.no_policy
    else if str_eq s (codes "None")
    then ok SecurityPolicy.no_policy
    else if str_eq s (codes "Basic128Rsa15")
    then ok SecurityPolicy.basic128_rsa15
    else if str_eq s (codes "Basic256")
    then ok SecurityPolicy.basic256
    else if str_eq s (codes "Basic256Sha256")
    then ok SecurityPolicy.basic256_sha256
    else err (invalid_security_policy s)

-- The loop at the end of `load_runtime_config`.
unfoldable pub check_cycles : List PlcConfig → Outcome ConfigValidationError (Unit {0})
check_cycles [] = ok tt
check_cycles (plc ∷ plcs) =
    let rest = check_cycles plcs in
    fail_if (ltb plc.cycle_ms 10) (invalid_cycle_ms plc.name plc.cycle_ms) >> rest
