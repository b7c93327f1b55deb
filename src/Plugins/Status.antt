-- ===== src/Plugins/Status.antt =====
-- What is shown of plugins: PluginStatus and SearchPlugins of runtime/plugins.go.
use fluxplane_dex.Prelude.{
  String, Bool, false, true, not, ◌||◌, none, some, List, [], ◌∷◌, ◌==◌, if◌then◌else◌, trim_space,
  to_lower, str_contains, append,
}
use fluxplane_dex.Prelude.Outcome
use fluxplane_dex.Prelude.Outcome.{Outcome, ok, err}
use fluxplane_dex.Files.{File}
use fluxplane_dex.Keyed.{find}
use fluxplane_dex.Maps.{Map, put}
use fluxplane_dex.Plugins.{
  PluginEntry, Marketplace, InstalledPlugin, InstalledRegistry, PluginStatus, plugin_name,
  load_installed_plugins,
}

abbrev pub is_set : String → Bool
is_set s = not (trim_space s == "")

-- the fields that PluginStatus takes from an installed record
abbrev pub with_installed : PluginStatus → InstalledPlugin → PluginStatus
with_installed s p = record {
  name = s.name;
  known = s.known;
  installed = true;
  activated = p.activated;
  managed = p.managed;
  binary = if is_set p.binary then p.binary else s.binary;
  path = if is_set p.path then p.path else s.path;
  go_install = if is_set p.go_install then p.go_install else s.go_install;
  version = if is_set p.version then p.version else s.version;
}

abbrev pub bare_status : PluginEntry → PluginStatus
bare_status entry = record {
  name = entry.name;
  known = is_set entry.name;
  installed = false;
  activated = false;
  managed = false;
  binary = entry.binary;
  path = "";
  go_install = entry.go_install;
  version = "";
}

unfoldable pub plugin_status : PluginEntry → File InstalledRegistry → Outcome PluginStatus
plugin_status entry f = Outcome.◌>>=◌ (load_installed_plugins f) λ registry.
    elim (find plugin_name entry.name registry) [
      | some p ↦ ok (with_installed (bare_status entry) p)
      | none ↦ ok (bare_status entry)
    ]

plugin_statuses_from :
    File InstalledRegistry → Map PluginStatus → List PluginEntry → Outcome (Map PluginStatus)
plugin_statuses_from f out [] = ok out
plugin_statuses_from f out (entry ∷ rest) =
    Outcome.◌>>=◌ (plugin_status entry f)
      (λ status. plugin_statuses_from f (put entry.name status out) rest)

unfoldable pub plugin_statuses : Marketplace → File InstalledRegistry → Outcome (Map PluginStatus)
unfolding plugin_statuses_from
plugin_statuses m f = plugin_statuses_from f [] m.content.plugins

plugin_matches : PluginEntry → String → Bool
plugin_matches p query =
    str_contains
      (to_lower (
        append p.name (
          append " "
            (append p.description (append " " (append p.binary (append " " p.go_install)))))))
      query

search_from : String → List PluginEntry → List PluginEntry
search_from query [] = []
search_from query (p ∷ ps) =
    let rest = search_from query ps in
    if query == "" || plugin_matches p query then p ∷ rest else rest

unfoldable pub search_plugins : Marketplace → String → List PluginEntry
unfolding search_from plugin_matches
search_plugins m query = search_from (to_lower (trim_space query)) m.content.plugins
