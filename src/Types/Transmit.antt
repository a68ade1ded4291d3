-- ===== src/Types/Transmit.antt =====
-- bhwi-ffi/src/types.rs: payloads and their recipients, as the host sees them.
use bhwi_ffi.Prelude.{ℕ, Bool}
use bhwi_ffi.Text.{Bytes, Text, ℤ}
use bhwi_ffi.Core.Protocol

pub data PinMatrixRequestKind : Type 0 where
  current new_first new_second : PinMatrixRequestKind
  unknown : ℤ → PinMatrixRequestKind

unfoldable pub to_pin_kind : Protocol.PinMatrixRequestKind → PinMatrixRequestKind
to_pin_kind Protocol.current = current
to_pin_kind Protocol.new_first = new_first
to_pin_kind Protocol.new_second = new_second
to_pin_kind (Protocol.unknown value) = unknown value

pub data HostRequest : Type 0 where
  pin_matrix : PinMatrixRequestKind → HostRequest
  recovery_character : ℕ → ℕ → HostRequest

unfoldable pub to_host_request : Protocol.HostRequest → HostRequest
unfolding to_pin_kind
to_host_request (Protocol.pin_matrix kind) = pin_matrix (to_pin_kind kind)
to_host_request (Protocol.recovery_character word character) = recovery_character word character

pub data Recipient : Type 0 where
  device : Recipient
  pin_server : Text → Recipient
  host : HostRequest → Recipient

unfoldable pub to_recipient : Protocol.Recipient → Recipient
unfolding to_host_request
to_recipient Protocol.to_device = device
to_recipient (Protocol.to_pin_server url) = pin_server url
to_recipient (Protocol.to_host request) = host (to_host_request request)

pub record Transmit : Type 0 where
  pub payload : Bytes
  pub encrypted : Bool
  pub recipient : Recipient

unfoldable pub to_transmit : Protocol.Transmit → Transmit
unfolding to_recipient
to_transmit t = record {
  payload = t.payload;
  encrypted = t.encrypted;
  recipient = to_recipient t.recipient;
}
