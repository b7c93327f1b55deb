-- ===== src/Capabilities.antt =====
-- The requests and answers of a plugin's capabilities, core/pluginbinding/capabilities.go.
pub mod Paths
pub mod Local
pub mod Http
use fluxplane_dex.Prelude.{ℕ, String, Bool, Option, List}
use fluxplane_dex.Prelude.Int.{ℤ}
use fluxplane_dex.Maps.{Map}

abbrev pub Bytes : Type 0
Bytes = List ℕ

abbrev pub capability_http : String
capability_http = "http"

abbrev pub capability_blob_read : String
capability_blob_read = "blob.read"

abbrev pub capability_blob_write : String
capability_blob_write = "blob.write"

abbrev pub capability_env_lookup : String
capability_env_lookup = "env.lookup"

abbrev pub capability_provider : String
capability_provider = "provider.call"

pub record HttpAuthRequest : Type 0 where
  pub bearer_token_purpose : String
  pub username_purpose : String
  pub password_purpose : String
  pub header_purposes : Map String

pub record HttpRequest : Type 0 where
  pub url : String
  pub endpoint_ref : String
  pub path : String
  pub query : Map (List String)
  pub method : String
  pub headers : Map String
  pub body : Bytes
  pub auth : Option HttpAuthRequest
  pub timeout_ms : ℤ
  pub max_bytes : ℤ
  pub user_agent : String

pub record HttpResponse : Type 0 where
  pub url : String
  pub final_url : String
  pub method : String
  pub status : String
  pub status_code : ℤ
  pub headers : Map (List String)
  pub content_type : String
  pub body : Bytes
  pub truncated : Bool
  pub duration_ms : ℤ

pub record BlobRef : Type 0 where
  pub ref : String
  pub path : String
  pub media_type : String
  pub filename : String
  pub size : ℕ
  pub metadata : Map String

pub record BlobReadRequest : Type 0 where
  pub ref : String
  pub path : String
  pub max_bytes : ℤ

pub record BlobReadResponse : Type 0 where
  pub blob : BlobRef
  pub content : Bytes
  pub truncated : Bool

pub record BlobWriteRequest : Type 0 where
  pub ref : String
  pub path : String
  pub content : Bytes
  pub media_type : String
  pub filename : String
  pub overwrite : Bool
  pub metadata : Map String

pub record BlobInfoRequest : Type 0 where
  pub ref : String
  pub path : String

pub record EnvLookupResponse : Type 0 where
  pub key : String
  pub value : String
  pub found : Bool

pub record ProviderCallRequest : Type 0 where
  pub provider : String
  pub action : String
  pub payload : String
