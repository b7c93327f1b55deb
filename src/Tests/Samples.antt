-- ===== src/Tests/Samples.antt =====
-- Sample values, and concrete instances of the code that the program imports.
use fluxplane_dex.Prelude.{
  String, Bool, false, true, none, some, [], ◌∷◌, ◌==◌, trim_space, append, if◌then◌else◌,
  has_prefix,
}
use fluxplane_dex.Prelude.Int.{pos}
use fluxplane_dex.Prelude.Outcome.{ok}
use fluxplane_dex.Files.{holds, absent}
use fluxplane_dex.Maps.{get_or}
use fluxplane_dex.Json.{text, null, Codec}
use fluxplane_dex.Endpoints.{EndpointApi, EndpointRecord, EndpointRegistry, EndpointHealth}
use fluxplane_dex.Grants.{SecretPurpose, CapabilityGrant, Grants, encoded, Grant}
use fluxplane_dex.Grants.Release.{SecretApi}
use fluxplane_dex.Plugins.{PluginEntry, InstalledPlugin, InstalledRegistry, MarketplaceData}
use fluxplane_dex.Index.{IndexRecord, IndexSnapshot}
use fluxplane_dex.Index.Store.{IndexDir, missing, entries}
use fluxplane_dex.Index.Search.{SearchOptions}
use fluxplane_dex.Index.Lookup.{LookupOptions}

-- an endpoint reference with an id and a product
pub record Ref : Type 0 where
  pub id : String
  pub product : String

abbrev pub endpoint_api : EndpointApi
endpoint_api = record {
  EndpointRef = Ref;
  id = λ (r : Ref). r.id;
  product = λ (r : Ref). r.product;
  normalize = λ (r : Ref). record { id = trim_space r.id; product = trim_space r.product };
  validate = λ (r : Ref). if r.id == "" then some "endpoint id is required" else none;
  Candidate = Ref;
  candidate_ref = λ r. r;
  HealthDetail = String;
}

abbrev pub loki_ref : Ref
loki_ref = record { id = " loki "; product = "grafana" }

abbrev pub loki : EndpointRecord endpoint_api
loki = record {
  ref = record { id = "loki"; product = "grafana" };
  created_at = 1;
  updated_at = 2;
  last_health = none;
}

abbrev pub tempo : EndpointRecord endpoint_api
tempo = record {
  ref = record { id = "tempo"; product = "other" };
  created_at = 3;
  updated_at = 3;
  last_health = none;
}

abbrev pub endpoints : EndpointRegistry endpoint_api
endpoints = loki ∷ tempo ∷ []

abbrev pub healthy : EndpointHealth endpoint_api
healthy = record { checked_at = 0; detail = "up" }

-- plugins
abbrev pub slack_entry : PluginEntry
slack_entry = record {
  name = "slack";
  description = "chat";
  binary = "dex-slack";
  go_install = "";
  local_path = "";
  metadata = [];
}

abbrev pub slack : InstalledPlugin
slack = record {
  name = "slack";
  binary = "dex-slack";
  path = "/home/dex/plugins/bin/dex-slack";
  go_install = "";
  version = "v1";
  installed_at = 5;
  managed = true;
  activated = true;
}

abbrev pub jira : InstalledPlugin
jira = record {
  name = "jira";
  binary = "dex-jira";
  path = "/usr/bin/dex-jira";
  go_install = "";
  version = "v2";
  installed_at = 6;
  managed = false;
  activated = false;
}

abbrev pub plugins : InstalledRegistry
plugins = jira ∷ slack ∷ []

abbrev pub catalogue : MarketplaceData
catalogue = record { version = "1"; plugins = slack_entry ∷ [] }

abbrev pub in_bin_dir : String → Bool
in_bin_dir path = has_prefix path "/home/dex/plugins/bin/"

-- secrets: a store with the token of one plugin instance
abbrev pub secret_api : SecretApi
secret_api = record {
  Ref = String;
  Kind = String;
  bearer_token = "bearer_token";
  plugin_ref = λ plugin instance_name slot.
      append plugin (append "/" (append instance_name (append "/" slot)));
  env_ref = λ key. append "env:" key;
  normalize = λ ref. ref;
  has_plugin_scheme = λ ref. true;
  plugin = λ ref. ref;
  instance_name = λ ref. ref;
  slot = λ ref. ref;
  Store = String;
  Stored = String;
  with_ref = λ ref stored. stored;
  resolve =
      λ store ref. ok (if ref == store then some ("bearer_token", "stored token", ref) else none);
  save = λ store stored. (ok tt, stored);
  has_plugin_secrets = λ store plugin instance_name. ok false;
}

abbrev pub token_purpose : SecretPurpose
token_purpose = record { name = " token "; env = "SLACK_TOKEN" ∷ [] }

abbrev pub read_files : CapabilityGrant
read_files = record { name = "files"; provider = ""; action = "read" }

abbrev pub no_grants : Grants
no_grants p = absent

abbrev pub slack_grant : Grant
slack_grant = record {
  token = "t";
  plugin = "slack";
  instance_name = "work";
  operations = [];
  capabilities = [];
  purposes = "token" ∷ [];
  purpose_env = ("token", "SLACK_TOKEN" ∷ []) ∷ [];
  created_at = 0;
  expires_at = 100;
}

abbrev pub with_grant : Grants
with_grant p = holds slack_grant

abbrev pub environment : String → String
environment key = if key == "SLACK_TOKEN" then "xoxb" else ""

-- a codec that knows objects of the keys `id` and `username`, with one value
abbrev pub codec : Codec
codec = record {
  unmarshal =
      λ raw. if raw == "" then none else some (("id", text raw) ∷ ("username", text raw) ∷ []);
  marshal = λ o. elim (get_or null "username" o) [ text s ↦ s | _ ↦ "{}" ];
}

abbrev pub ada : IndexRecord
ada = record {
  entity = "slack.user";
  id = "U1";
  title = "Ada";
  url = "https://s/u1";
  links = [];
  origin = record { source = ""; plugin = ""; instance_name = ""; index = "" };
  score = 0;
  matched_fields = [];
  raw = "ada";
}

abbrev pub users : IndexSnapshot
users = record {
  plugin = "slack";
  instance_name = "work";
  index = "users";
  records = ada ∷ [];
  updated_at = 9;
  metadata = "";
}

abbrev pub index_dir : IndexDir
index_dir plugin instance_name =
    entries (record { name = encoded "users"; is_json = true; content = holds users } ∷ [])

abbrev pub no_index_dir : IndexDir
no_index_dir plugin instance_name = missing

abbrev pub ask_ada : SearchOptions
ask_ada = record { datasource = ""; query = "Ada"; limit = pos 5; entity = "slack.user" }

abbrev pub who_is_ada : LookupOptions
who_is_ada = record {
  datasource = "";
  text = "who is ada?";
  terms = [];
  limit = pos 0;
  entity = "";
}
