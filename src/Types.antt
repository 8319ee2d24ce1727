-- ===== src/Types.antt =====
-- types.go, constants.go and codes.go: the records and the numbers that the packets are made of.
pub mod PacketType
use gott.Common.{ℕ, Bool, Bytes}

-- Remaining lengths.
abbrev pub connect_rem_len : ℕ
connect_rem_len = 2

abbrev pub connect_var_header_len : ℕ
connect_var_header_len = 10

abbrev pub puback_rem_len : ℕ
puback_rem_len = 2

abbrev pub pubrec_rem_len : ℕ
pubrec_rem_len = 2

abbrev pub pubrel_rem_len : ℕ
pubrel_rem_len = 2

abbrev pub pubcomp_rem_len : ℕ
pubcomp_rem_len = 2

abbrev pub suback_rem_len : ℕ
suback_rem_len = 2

abbrev pub unsuback_rem_len : ℕ
unsuback_rem_len = 2

abbrev pub pingresp_rem_len : ℕ
pingresp_rem_len = 0

abbrev pub suback_failure_code : ℕ
suback_failure_code = 128

-- The status of an application message, an int32 counted up from 0 in the source.
pub data Status : Type 0 where
  unacknowledged puback_received pubrec_received pubrel_received pubcomp_received : Status

-- Return codes of CONNACK, in the order of codes.go.
pub data ReturnCode : Type 0 where
  accepted unacceptable_proto id_rejected server_unavailable : ReturnCode
  bad_username_password not_authorized : ReturnCode

unfoldable pub code_byte : ReturnCode → ℕ
code_byte accepted = 0
code_byte unacceptable_proto = 1
code_byte id_rejected = 2
code_byte server_unavailable = 3
code_byte bad_username_password = 4
code_byte not_authorized = 5

pub record ConnectFlags : Type 0 where
  pub clean_session : Bool
  pub will_flag : Bool
  pub will_retain : Bool
  pub password_flag : Bool
  pub user_name_flag : Bool
  pub will_qos : ℕ

pub record PublishFlags : Type 0 where
  pub dup : ℕ
  pub qos : ℕ
  pub retain : Bool
  pub packet_id : ℕ

pub record Filter : Type 0 where
  pub filter : Bytes
  pub qos : ℕ

-- The session of a subscription is a pointer; it is the session's address in the heap.
pub record Subscription : Type 0 where
  pub session : ℕ
  pub qos : ℕ

-- The time stamp is an instant, as a number.
pub record Message : Type 0 where
  pub topic : Bytes
  pub payload : Bytes
  pub qos : ℕ
  pub retain : Bool
  pub timestamp : ℕ
