-- ===== src/Tests/Registries.antt =====
-- The endpoint and plugin registries on sample files.
use fluxplane_dex.Prelude.{
  String, ◌≡◌, refl, false, true, ◌||◌, none, some, List, [], ◌∷◌, ◌==◌, trim_space, if◌then◌else◌,
  strings, All,
}
use fluxplane_dex.Prelude.Outcome.{ok}
use fluxplane_dex.Prelude.Sorting.{sort, insert, IsSorted, by_key}
use fluxplane_dex.Files.{holds, absent, Disk, written, no_directory, FileHolds}
use fluxplane_dex.Keyed.{find, has, Distinct}
use fluxplane_dex.Endpoints.{
  load_endpoints, save_endpoint, get_endpoint, remove_endpoint, list_endpoints, endpoint_id,
  EndpointRegistry,
}
use fluxplane_dex.Endpoints.Laws.{
  saved, get_endpoint-save_endpoint, get_endpoint-remove_endpoint, list_endpoints-lists,
}
use fluxplane_dex.Endpoints.Runs as EndpointRuns
use fluxplane_dex.Plugins.{
  InstalledRegistry, load_installed_plugins, installed_plugin, save_installed_plugin_activated,
  activate_plugin, new_marketplace, resolve, plugin_name,
}
use fluxplane_dex.Plugins.Laws.{
  installed_plugin-save, activated_record, installed_plugin-activate, last_named,
  resolve-last_named,
}
use fluxplane_dex.Uninstall.{Unlink, deleted, sweep, start, conclude, uninstall_plugin}
use fluxplane_dex.Uninstall.Laws.{owns, sweep-owns, installed_plugin-uninstall}
use fluxplane_dex.Uninstall.Runs as PluginRuns
use fluxplane_dex.Tests.Samples.{
  endpoint_api, loki_ref, endpoints, healthy, slack_entry, plugins, catalogue, in_bin_dir,
}

endpoints-load : load_endpoints endpoint_api (holds endpoints) ≡ ok endpoints
unfolding load_endpoints sort insert strings
endpoints-load = refl

loki_ref-valid : endpoint_api.validate (endpoint_api.normalize loki_ref) ≡ none
unfolding strings
loki_ref-valid = refl

endpoints-Distinct : Distinct (endpoint_id endpoint_api) endpoints
unfolding find
endpoints-Distinct = (refl, (refl, tt))

get_endpoint-save_endpoint_example :
    get_endpoint endpoint_api "loki"
      (save_endpoint endpoint_api written 7 loki_ref (holds endpoints)).1
    ≡ (if endpoint_api.id (endpoint_api.normalize loki_ref) == trim_space "loki"
        then ok (
            some (
              saved endpoint_api 7
                (endpoint_api.normalize loki_ref)
                (find (endpoint_id endpoint_api) (trim_space "loki") endpoints)))
        else get_endpoint endpoint_api "loki" (holds endpoints))
get_endpoint-save_endpoint_example =
    get_endpoint-save_endpoint endpoint_api 7 loki_ref "loki" (holds endpoints) endpoints
      loki_ref-valid endpoints-load

get_endpoint-remove_endpoint_example :
    (get_endpoint endpoint_api "loki"
        (remove_endpoint endpoint_api written "loki" (holds endpoints)).1
      ≡ (if trim_space "loki" == trim_space "loki"
          then ok none
          else get_endpoint endpoint_api "loki" (holds endpoints)))
    × ((remove_endpoint endpoint_api written "loki" (holds endpoints)).0
        ≡ ok (elim (find (endpoint_id endpoint_api) (trim_space "loki") endpoints) [
          | none ↦ false
          | some r ↦ true
        ]))
get_endpoint-remove_endpoint_example =
    get_endpoint-remove_endpoint endpoint_api "loki" "loki" (holds endpoints) endpoints
      endpoints-load

list_endpoints-lists_example :
    (out : EndpointRegistry endpoint_api) × (list_endpoints endpoint_api "grafana" (holds endpoints)
      ≡ ok out)
    × IsSorted (by_key (endpoint_id endpoint_api)) out
    × ((j : String)
        → find (endpoint_id endpoint_api) j out
          ≡ elim (find (endpoint_id endpoint_api) j endpoints) [
            | some r ↦
                if trim_space "grafana" == "" || endpoint_api.product r.ref == trim_space "grafana"
                then some r
                else none
            | none ↦ none
          ])
list_endpoints-lists_example =
    list_endpoints-lists endpoint_api "grafana" endpoints endpoints-Distinct

abbrev endpoint_run :
    List (Disk (EndpointRegistry endpoint_api) × EndpointRuns.Command endpoint_api)
endpoint_run =
    (written, EndpointRuns.save 4 loki_ref)
    ∷ (no_directory "read-only", EndpointRuns.remove "tempo")
    ∷ (written, EndpointRuns.save_health 5 6 "loki" healthy)
    ∷ []

exec_all-IsValid_example :
    FileHolds
      (EndpointRuns.IsValid endpoint_api)
      (EndpointRuns.exec_all endpoint_api endpoint_run absent)
exec_all-IsValid_example =
    EndpointRuns.exec_all-IsValid endpoint_api endpoint_run absent (tt, (tt, (tt, tt))) tt

plugins-load : load_installed_plugins (holds plugins) ≡ ok plugins
unfolding load_installed_plugins sort insert strings
plugins-load = refl

installed_plugin-save_example :
    installed_plugin "jira"
      (save_installed_plugin_activated written 8 slack_entry true " /bin/s " "v3" true
        (holds plugins)).1
    ≡ (if slack_entry.name == trim_space "jira"
        then ok (
            some (record {
              name = slack_entry.name;
              binary = slack_entry.binary;
              path = trim_space " /bin/s ";
              go_install = slack_entry.go_install;
              version = trim_space "v3";
              installed_at = 8;
              managed = true;
              activated = true;
            }))
        else installed_plugin "jira" (holds plugins))
installed_plugin-save_example =
    installed_plugin-save 8 slack_entry true true " /bin/s " "v3" "jira" (holds plugins) plugins
      plugins-load

installed_plugin-activate_example :
    installed_plugin "slack" (activate_plugin written 9 slack_entry (holds plugins)).1 ≡ (
      if slack_entry.name == trim_space "slack"
      then ok
          (some (activated_record 9 slack_entry (find plugin_name (trim_space "slack") plugins)))
      else installed_plugin "slack" (holds plugins))
installed_plugin-activate_example =
    installed_plugin-activate 9 slack_entry "slack" (holds plugins) plugins plugins-load

resolve-last_named_example :
    resolve (new_marketplace catalogue) " slack"
    ≡ last_named (trim_space " slack") catalogue.plugins
resolve-last_named_example = resolve-last_named catalogue " slack"

abbrev unlink : String → Unlink
unlink path = deleted

sweep-owns_example :
    All
      (λ path. owns in_bin_dir unlink "slack" plugins path ≡ true)
      (sweep in_bin_dir unlink "slack" (start in_bin_dir unlink "slack") plugins).unlinked
sweep-owns_example = sweep-owns in_bin_dir unlink "slack" (start in_bin_dir unlink "slack") plugins

sweep_test :
    (sweep in_bin_dir unlink "slack" (start in_bin_dir unlink "slack") plugins).unlinked
    ≡ "/home/dex/plugins/bin/dex-slack" ∷ []
unfolding sweep strings
sweep_test = refl

uninstall-error : (uninstall_plugin in_bin_dir unlink written "slack" (holds plugins)).1 ≡ none
unfolding uninstall_plugin conclude sweep load_installed_plugins sort insert strings
uninstall-error = refl

installed_plugin-uninstall_example :
    (installed_plugin "slack" (uninstall_plugin in_bin_dir unlink written "slack" (holds plugins)).2
      ≡ (if trim_space "slack" == trim_space "slack"
          then ok none
          else installed_plugin "slack" (holds plugins)))
    × ((uninstall_plugin in_bin_dir unlink written "slack" (holds plugins)).0.removed
        ≡ has plugin_name (trim_space "slack") plugins)
installed_plugin-uninstall_example =
    installed_plugin-uninstall in_bin_dir unlink "slack" "slack" (holds plugins) plugins
      plugins-load uninstall-error

abbrev plugin_run : List (Disk InstalledRegistry × PluginRuns.Command in_bin_dir)
plugin_run =
    (written, PluginRuns.activation 4 slack_entry)
    ∷ (no_directory "read-only", PluginRuns.deactivation "slack")
    ∷ (written, PluginRuns.uninstall unlink "slack")
    ∷ []

exec_all-IsDistinct_example :
    FileHolds (PluginRuns.IsValid in_bin_dir) (PluginRuns.exec_all in_bin_dir plugin_run absent)
exec_all-IsDistinct_example =
    PluginRuns.exec_all-IsDistinct in_bin_dir plugin_run absent (tt, (tt, (tt, tt))) tt
