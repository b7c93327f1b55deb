-- ===== src/Runner/Host.antt =====
-- What a Runner reaches of the host: the state's files, the capability host and the built-in
-- providers, runtime/runner.go. A capability may change the world `W` outside of the program; the
-- time and the files do not change while one request is served.
use fluxplane_dex.Prelude.{ℕ, String, List}
use fluxplane_dex.Prelude.Outcome.{Outcome}
use fluxplane_dex.Files.{File}
use fluxplane_dex.Endpoints.{EndpointApi, EndpointRegistry}
use fluxplane_dex.Grants.{Grants}
use fluxplane_dex.Grants.Release.{SecretApi, SecretMaterial}
use fluxplane_dex.Index.{IndexRecord}
use fluxplane_dex.Index.Store.{IndexDir}
use fluxplane_dex.Index.Search.{LookupMatch}
use fluxplane_dex.Capabilities.{
  HttpRequest, HttpResponse, BlobRef, BlobReadRequest, BlobReadResponse, BlobWriteRequest,
  BlobInfoRequest, EnvLookupResponse, ProviderCallRequest,
}
use fluxplane_dex.Runner.Payloads.{Reader}

-- the interface CapabilityHost; the answer of a provider is its JSON text
pub record CapabilityHost (W : Type 0) : Type 0 where
  pub http : HttpRequest → W → Outcome HttpResponse × W
  pub blob_read : BlobReadRequest → W → Outcome BlobReadResponse × W
  pub blob_write : BlobWriteRequest → W → Outcome BlobRef × W
  pub blob_info : BlobInfoRequest → W → Outcome BlobRef × W
  pub env_lookup : String → W → Outcome EnvLookupResponse × W
  pub provider_call : ProviderCallRequest → W → Outcome String × W

-- the providers that the runner calls itself, for the instance and the grant of the request
pub record Providers (W : Type 0) : Type 0 where
  pub sql : String → String → String → ProviderCallRequest → W → Outcome String × W
  pub docker : String → String → String → ProviderCallRequest → W → Outcome String × W
  pub kubernetes : String → String → String → ProviderCallRequest → W → Outcome String × W
  pub asterisk : String → String → String → ProviderCallRequest → W → Outcome String × W
  pub system : String → String → W → Outcome String × W

-- encoding/json and encoding/base64: the readings of a raw message as the requests, and the texts
-- of the answers. `remarshal` is json.Marshal of a raw message.
pub record Wire (api : SecretApi) (endpoint_api : EndpointApi) : Type 0 where
  pub reader : Reader
  pub remarshal : String → Outcome String
  pub base64 : String → String
  pub read_purpose : String → Outcome String
  pub read_endpoint_ref : String → Outcome String
  pub read_http : String → Outcome HttpRequest
  pub read_blob_read : String → Outcome BlobReadRequest
  pub read_blob_write : String → Outcome BlobWriteRequest
  pub read_blob_info : String → Outcome BlobInfoRequest
  pub read_env_lookup : String → Outcome String
  pub read_provider_call : String → Outcome ProviderCallRequest
  pub write_material : SecretMaterial api → Outcome String
  pub write_lookup : String → List String → List LookupMatch → Outcome String
  pub write_search : String → List IndexRecord → Outcome String
  pub write_record : IndexRecord → Outcome String
  pub write_endpoint : endpoint_api.EndpointRef → Outcome String
  pub write_http : HttpResponse → Outcome String
  pub write_blob_read : BlobReadResponse → Outcome String
  pub write_blob : BlobRef → Outcome String
  pub write_env : EnvLookupResponse → Outcome String
  pub write_provider : String → Outcome String

-- the state of the program that a request is served from, and what serves it
pub record Host (api : SecretApi) (endpoint_api : EndpointApi) (W : Type 0) : Type 0 where
  pub wire : Wire api endpoint_api
  pub url_of : endpoint_api.EndpointRef → String
  pub getenv : String → String
  pub secrets : api.Store
  pub grants : Grants
  pub now : ℕ
  pub endpoints : File (EndpointRegistry endpoint_api)
  pub indexes : IndexDir
  pub capabilities : CapabilityHost W
  pub providers : Providers W
