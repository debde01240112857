-- ===== src/Store.antt =====
-- `datastore/`: the stores that observe the responses of the data provider. Here the messages that
-- they receive (`data_providers/mod.rs`, `ResponsePayload` of `http_data_provider.rs`).
pub mod SdkKeys
pub mod ConfigSpecs
pub mod Deltas
use statsig_forward_proxy.Prelude.{ℕ, Bool, List}
use statsig_forward_proxy.Encoding.{CompressionEncoder}
use statsig_forward_proxy.Request.Context.{AuthorizedRequestContext}

abbrev pub Bytes : Type 0
Bytes = List ℕ

pub record ResponsePayload : Type 0 where
  pub encoding : CompressionEncoder
  pub use_proto : Bool
  pub bytes : Bytes

pub data DataProviderRequestResult : Type 0 where
  data_available no_data_available unauthorized client_error error : DataProviderRequestResult

pub record FullRequestContext : Type 0 where
  pub authorized_request_context : AuthorizedRequestContext

pub record ResponseContext : Type 0 where
  pub result_type : DataProviderRequestResult
  pub lcut : ℕ
  pub request_since_time : ℕ
  pub body : ResponsePayload
