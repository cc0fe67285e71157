-- ===== src/Protocol/Message.antt =====
-- include/gatewayforge/protocol/DecodedMessage.h.
use gateway_forge.Common.{ℕ}
use gateway_forge.Common.Text.{Text}

pub record Message : Type 0 where
  pub timestamp_us : ℕ
  pub direction : Text
  pub type : Text
  pub summary : Text
