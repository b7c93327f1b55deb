-- ===== src/Tests/Hosts.antt =====
-- Sample hosts, processes and systems for the runs of the runner.
use fluxplane_dex.Prelude.{
  ℕ, zero, suc, String, true, false, none, some, List, [], ◌∷◌, Bool-cases, inl, inr, if◌then◌else◌,
  take,
}
use fluxplane_dex.Prelude.Int.{pos}
use fluxplane_dex.Prelude.Outcome.{Outcome, ok, err}
use fluxplane_dex.Files.{holds}
use fluxplane_dex.Core.{OperationSpec, PluginManifest, OperationAccess}
use fluxplane_dex.Capabilities.{HttpRequest, BlobRef}
use fluxplane_dex.Capabilities.Paths.{FilePath, Real, found, not_exist}
use fluxplane_dex.Capabilities.Paths.Laws.{is_clean, CleanReal}
use fluxplane_dex.Capabilities.Local.{Os, missing}
use fluxplane_dex.Protocol.{version, Request, Frame, OperationCall}
use fluxplane_dex.Runner.Payloads.{Reader}
use fluxplane_dex.Runner.Host.{CapabilityHost, Providers, Wire, Host}
use fluxplane_dex.Runner.Frames.{Received, frame, broken, Process}
use fluxplane_dex.Tests.Samples.{
  secret_api, endpoint_api, Ref, endpoints, codec, environment, no_grants, index_dir,
}

-- the world: what was done, as words
abbrev pub World : Type 0
World = List String

abbrev pub no_blob : BlobRef
no_blob = record { ref = ""; path = ""; media_type = ""; filename = ""; size = 0; metadata = [] }

abbrev pub get_request : HttpRequest
get_request = record {
  url = "https://api";
  endpoint_ref = "";
  path = "";
  query = [];
  method = "GET";
  headers = [];
  body = [];
  auth = none;
  timeout_ms = pos 0;
  max_bytes = pos 0;
  user_agent = "";
}

-- a capability that is noted and then fails
abbrev pub noting : {A B : Type 0} → String → A → World → Outcome B × World
noting what a w = (err what, what ∷ w)

abbrev pub capabilities : CapabilityHost World
capabilities = record {
  http = noting "http";
  blob_read = noting "blob_read";
  blob_write = noting "blob_write";
  blob_info = noting "blob_info";
  env_lookup = noting "env_lookup";
  provider_call = noting "provider_call";
}

abbrev pub providers : Providers World
providers = record {
  sql = λ p i g. noting "sql";
  docker = λ p i g. noting "docker";
  kubernetes = λ p i g. noting "kubernetes";
  asterisk = λ p i g. noting "asterisk";
  system = λ a. noting "system";
}

abbrev pub reader : Reader
reader = record { codec = codec; elements = λ s. none; format_float = λ f. "0" }

abbrev pub wire : Wire secret_api endpoint_api
wire = record {
  reader = reader;
  remarshal = λ s. ok s;
  base64 = λ s. s;
  read_purpose = λ s. ok s;
  read_endpoint_ref = λ s. ok s;
  read_http = λ s. ok get_request;
  read_blob_read = λ s. ok (record { ref = ""; path = s; max_bytes = pos 0 });
  read_blob_write = λ s. err s;
  read_blob_info = λ s. ok (record { ref = ""; path = s });
  read_env_lookup = λ s. ok s;
  read_provider_call = λ s. ok (record { provider = s; action = "x"; payload = "" });
  write_material = λ m. ok m.value;
  write_lookup = λ t ts ms. ok t;
  write_search = λ q rs. ok q;
  write_record = λ r. ok r.id;
  write_endpoint = λ (r : Ref). ok r.id;
  write_http = λ r. ok r.url;
  write_blob_read = λ r. ok r.blob.path;
  write_blob = λ b. ok b.path;
  write_env = λ r. ok r.value;
  write_provider = λ s. ok s;
}

abbrev pub host : Host secret_api endpoint_api World
host = record {
  wire = wire;
  url_of = λ (r : Ref). r.id;
  getenv = environment;
  secrets = "files/default/token";
  grants = no_grants;
  now = 20;
  endpoints = holds endpoints;
  indexes = index_dir;
  capabilities = capabilities;
  providers = providers;
}

-- an operation with some kinds of access
abbrev pub operation : List OperationAccess → OperationSpec
operation kinds = record {
  name = "files.read";
  description = "";
  input = "";
  output = "";
  read_only = true;
  compact = false;
  secret_purposes = [];
  effects = [];
  risk = "";
  idempotency = "";
  access = kinds;
  auth_scopes = [];
  render = none;
}

abbrev pub manifest_of : List OperationAccess → PluginManifest
manifest_of kinds = record {
  name = "files";
  operations = operation kinds ∷ [];
  auth_methods = [];
  datasources = [];
  indexes = [];
  metadata = [];
}

abbrev pub calls : List OperationCall
calls = record { id = "1"; name = "files.read"; input = "" } ∷ []

abbrev pub plugin_frame : String → String → String → Frame
plugin_frame id kind command = record {
  protocol = version;
  id = id;
  kind = kind;
  target = "host";
  command = command;
  payload = "";
  is_ok = true;
  result = "42";
  error = none;
}

-- a plugin that asks for HTTP some times and then answers
abbrev pub chat : ℕ → Received × ℕ
chat zero = (broken "EOF", zero)
chat (suc zero) = (frame (plugin_frame "root" "response" ""), zero)
chat (suc (suc n)) = (frame (plugin_frame "1" "request" "host.capability.http.do"), suc n)

abbrev pub process : Process ℕ
process = record {
  next = chat;
  send = λ f n. (none, n);
  stdout_exceeded = λ n. false;
  stderr_truncated = λ n. false;
  killed = λ n. n;
  exit = λ n. some (record { wait_error = none; stderr = ""; stderr_truncated = false });
}

abbrev pub root : Request
root = record {
  protocol = version;
  command = "operations.call";
  plugin = "files";
  instance_name = "default";
  grant = "t";
  payload = "";
}

-- a system without links, where every file holds three bytes
abbrev pub real : FilePath → Real
real p = if is_clean p then found p else not_exist "no such file"

abbrev pub system : Os World
system = record {
  eval_symlinks = λ w. real;
  stat = λ w p. ok (record { size = 3; is_dir = false });
  lstat = λ w p. missing;
  read_limited = λ w p n. ok (take n (1 ∷ 2 ∷ 3 ∷ []));
  mkdir_all = λ p w. (none, "mkdir" ∷ w);
  write_file = λ p bytes w. (none, "write" ∷ w);
  lookup_env = λ w key. none;
}

pub real-CleanReal : (w : World) (p : FilePath) → CleanReal (system.eval_symlinks w) (real p)
real-CleanReal w p = elim (Bool-cases (is_clean p)) [ inl e ↦ rw e e | inr e ↦ rw e tt ]
