-- ===== src/Protocol.antt =====
-- The messages between the host and a plugin, protocol/protocol.go. A raw message is its JSON text,
-- blank where there is none.
use fluxplane_dex.Prelude.{String, Bool, false, true, Option, none, some, List, [], ◌∷◌}
use fluxplane_dex.Maps.{Map, get, get_or}
use fluxplane_dex.Prelude.Outcome.{Outcome, ok, err, ◌>>=◌}

abbrev pub version : String
version = "dex.plugin.v2"

abbrev pub version_v1 : String
version_v1 = "dex.plugin.v1"

abbrev pub frame_request : String
frame_request = "request"

abbrev pub frame_response : String
frame_response = "response"

abbrev pub frame_event : String
frame_event = "event"

abbrev pub target_plugin : String
target_plugin = "plugin"

abbrev pub target_host : String
target_host = "host"

-- the commands of a plugin to the host, here and in core/pluginbinding/host.go
pub data HostCommand : Type 0 where
  secret_get : HostCommand
  index_lookup : HostCommand
  index_search : HostCommand
  index_get : HostCommand
  endpoint_resolve : HostCommand
  http_do : HostCommand
  blob_read : HostCommand
  blob_write : HostCommand
  blob_info : HostCommand
  env_lookup : HostCommand
  provider_call : HostCommand
  unknown : String → HostCommand

abbrev host_commands : Map HostCommand
host_commands =
    ("host.secret.get", secret_get)
    ∷ ("host.index.lookup", index_lookup)
    ∷ ("host.index.search", index_search)
    ∷ ("host.index.get", index_get)
    ∷ ("host.endpoint.resolve", endpoint_resolve)
    ∷ ("host.capability.http.do", http_do)
    ∷ ("host.capability.blob.read", blob_read)
    ∷ ("host.capability.blob.write", blob_write)
    ∷ ("host.capability.blob.info", blob_info)
    ∷ ("host.capability.env.lookup", env_lookup)
    ∷ ("host.capability.provider.call", provider_call)
    ∷ []

-- the command that a word stands for
unfoldable pub host_command : String → HostCommand
unfolding get
host_command word = get_or (unknown word) word host_commands

pub record Request : Type 0 where
  pub protocol : String
  pub command : String
  pub plugin : String
  pub instance_name : String
  pub grant : String
  pub payload : String

pub record Error : Type 0 where
  pub code : String
  pub message : String

pub record Response : Type 0 where
  pub protocol : String
  pub is_ok : Bool
  pub result : String
  pub error : Option Error

pub record Frame : Type 0 where
  pub protocol : String
  pub id : String
  pub kind : String
  pub target : String
  pub command : String
  pub payload : String
  pub is_ok : Bool
  pub result : String
  pub error : Option Error

pub record OperationCall : Type 0 where
  pub id : String
  pub name : String
  pub input : String

pub record OperationBatch : Type 0 where
  pub calls : List OperationCall

-- `payload` is what marshalPayload returns
unfoldable pub new_request : String → String → Outcome String → Outcome Request
new_request command plugin payload = do
  raw ← payload
  ok (record {
    protocol = version;
    command = command;
    plugin = plugin;
    instance_name = "";
    grant = "";
    payload = raw;
  })

abbrev pub fail : String → String → Response
fail code message = record {
  protocol = version;
  is_ok = false;
  result = "";
  error = some (record { code = code; message = message });
}

-- OK, for the result that marshalPayload returns
unfoldable pub ok_response : Outcome String → Response
ok_response (ok raw) = record { protocol = version; is_ok = true; result = raw; error = none }
ok_response (err e) = fail "marshal_result" e

abbrev blank_frame : String → String → Frame
blank_frame id kind = record {
  protocol = version;
  id = id;
  kind = kind;
  target = "";
  command = "";
  payload = "";
  is_ok = false;
  result = "";
  error = none;
}

unfoldable pub new_request_frame : String → String → String → Outcome String → Outcome Frame
new_request_frame id target command payload = do
  raw ← payload
  ok (record (blank_frame id frame_request) { target = target; command = command; payload = raw })

unfoldable pub new_response_frame : String → Response → Frame
new_response_frame id r = record (blank_frame id frame_response) {
  is_ok = r.is_ok;
  result = r.result;
  error = r.error;
}

unfoldable pub new_event_frame : String → String → String → Outcome String → Outcome Frame
new_event_frame id target event payload = do
  raw ← payload
  ok (record (blank_frame id frame_event) { target = target; command = event; payload = raw })

unfoldable pub frame_response_value : String → Outcome String → Frame
unfolding ok_response new_response_frame
frame_response_value id value = new_response_frame id (ok_response value)

unfoldable pub frame_response_error : String → String → String → Frame
unfolding new_response_frame
frame_response_error id code message = new_response_frame id (fail code message)
