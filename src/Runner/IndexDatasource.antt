-- ===== src/Runner/IndexDatasource.antt =====
-- Answers from the host's index to the commands on datasources, runtime/host_index_datasource.go.
use fluxplane_dex.Prelude.{
  String, Bool, true, false, not, ◌||◌, Option, none, some, ◌==◌, if◌then◌else◌,
}
use fluxplane_dex.Prelude.Outcome.{Outcome, ok, err, ◌>>=◌}
use fluxplane_dex.Endpoints.{EndpointApi}
use fluxplane_dex.Grants.Release.{SecretApi}
use fluxplane_dex.Index.{IndexRecord}
use fluxplane_dex.Index.Store.{IndexDir, has_index, has_indexed_entity, get_index_record}
use fluxplane_dex.Index.Store.Status.{has_index_records}
use fluxplane_dex.Index.Search.{lookup_index_with_options, search_index_with_options}
use fluxplane_dex.Protocol.{Response, fail, ok_response}
use fluxplane_dex.Runner.Payloads.{
  search_payload, lookup_payload, get_payload_datasource, get_payload_id,
}
use fluxplane_dex.Runner.Host.{Wire}

abbrev pub datasources_search : String
datasources_search = "datasources.search"

abbrev pub datasources_lookup : String
datasources_lookup = "datasources.lookup"

abbrev pub datasources_get : String
datasources_get = "datasources.get"

unfoldable pub is_datasource_command : String → Bool
is_datasource_command command =
    command == datasources_search || (command == datasources_lookup || command == datasources_get)

module _ {api : SecretApi} {endpoint_api : EndpointApi} (wire : Wire api endpoint_api)
    (dir : IndexDir) (plugin instance_name : String) where
  unfoldable pub should_handle : String → String → Outcome Bool
  should_handle datasource entity =
      if not (datasource == "")
      then has_index dir plugin instance_name datasource
      else if not (entity == "")
      then has_indexed_entity dir plugin instance_name entity
      else ok true

  -- The response, or none where the command goes to the plugin.
  abbrev pub Handled : Type 0
  Handled = Outcome (Option Response)

  abbrev pub unless_passed : Outcome Bool → Handled → Handled
  unless_passed (err e) next = err e
  unless_passed (ok false) next = ok none
  unless_passed (ok true) next = next

  unfoldable pub search : Outcome String → Handled
  unfolding should_handle search_payload ok_response
  search payload =
      let options = search_payload wire.reader payload in
      unless_passed (should_handle options.datasource options.entity) (do
        records ← search_index_with_options wire.reader.codec dir plugin instance_name options
        ok (some (ok_response (wire.write_search options.query records))))

  unfoldable pub lookup : Outcome String → Handled
  unfolding should_handle lookup_payload ok_response
  lookup payload =
      let options = lookup_payload wire.reader payload in
      unless_passed (should_handle options.datasource options.entity) (do
        matches ← lookup_index_with_options wire.reader.codec dir plugin instance_name options
        ok (some (ok_response (wire.write_lookup options.text options.terms matches))))

  abbrev pub record_answer : Option IndexRecord → Response
  record_answer none = fail "not_found" "indexed record not found"
  record_answer (some r) = ok_response (wire.write_record r)

  unfoldable pub get_record : Outcome String → Handled
  unfolding get_payload_datasource get_payload_id ok_response
  get_record payload =
      let datasource = get_payload_datasource wire.reader payload in
      let id = get_payload_id wire.reader payload in
      unless_passed
        (if datasource == "" then ok true else has_index dir plugin instance_name datasource)
        (if id == "" then ok (some (fail "bad_payload" "datasource get requires id")) else (do
          found ← get_index_record wire.reader.codec dir plugin instance_name id
          ok (some (record_answer found))))

  unfoldable pub index_response : String → Outcome String → Handled
  unfolding search lookup get_record
  index_response command payload = unless_passed (has_index_records dir plugin instance_name) (
      if command == datasources_search
      then search payload
      else if command == datasources_lookup
      then lookup payload
      else if command == datasources_get
      then get_record payload
      else ok none)
