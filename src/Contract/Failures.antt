-- ===== src/Contract/Failures.antt =====
-- The exceptions that the providers for Anna's Archive and GetComics tell apart: a ProtocolError of
-- errors.py of packages/provider_contract, and a RuntimeError by its message.
use pullbox_direct_providers.Prelude.{String}
use pullbox_direct_providers.Contract.Models.{ProtocolError}

pub data Failure : Type 0 where
  protocol_error : ProtocolError → Failure
  runtime_error : String → Failure
  value_error cancelled other_error : Failure
