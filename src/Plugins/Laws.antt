-- ===== src/Plugins/Laws.antt =====
-- The operations of runtime/plugins.go, seen through InstalledPlugin and IsPluginActivated, and
-- Resolve of runtime/marketplace.go.
use fluxplane_dex.Prelude.{
  ℕ, String, ◌≡◌, refl, Bool, true, false, nat_eq, not, ◌&&◌, Option, none, some, List, [], ◌∷◌,
  ◌++◌, ◌==◌, if◌then◌else◌, arith, eq_iff, trim_space,
}
use fluxplane_dex.Prelude.Outcome.{ok}
use fluxplane_dex.Files.{File, holds, written}
use fluxplane_dex.Keyed.{find, change_first}
use fluxplane_dex.Keyed.Laws.{find-append, find-change_first, find-sort, has-find}
use fluxplane_dex.Maps.{Map, get, put, get-put}
use fluxplane_dex.Plugins.{
  PluginEntry, MarketplaceData, new_marketplace, by_name_from, resolve, InstalledPlugin,
  InstalledRegistry, plugin_name, load_installed_plugins, replace_or_add,
  save_installed_plugin_activated, installed_plugin, activate, newly_activated, activate_plugin,
}

pub installed_plugin-holds :
    (j : String) (rs : InstalledRegistry)
    → installed_plugin j (holds rs) ≡ ok (find plugin_name (trim_space j) rs)
unfolding installed_plugin load_installed_plugins
installed_plugin-holds j rs = rw find-sort

pub load-installed :
    (j : String) (f : File InstalledRegistry) (rs : InstalledRegistry)
    → load_installed_plugins f ≡ ok rs
    → installed_plugin j f ≡ ok (find plugin_name (trim_space j) rs)
unfolding installed_plugin
load-installed j f rs l = rw l

find-replace_or_add :
    (r : InstalledPlugin) (j : String) (rs : InstalledRegistry)
    → find plugin_name j (replace_or_add r rs)
      ≡ (if r.name == j then some r else find plugin_name j rs)
unfolding replace_or_add
find-replace_or_add r j rs = ground (
  arith,
  find-change_first plugin_name r.name j (λ _. r) rs (λ _ _. refl),
  find-append plugin_name j rs r,
  has-find plugin_name r.name rs,
  eq_iff r.name j,
)

-- For a file that loads, after a plugin is saved and the registry is written, its name holds the
-- given record, with the path and the version trimmed, and every other name what it held.
pub installed_plugin-save :
    (now : ℕ) (entry : PluginEntry) (managed activated : Bool) (path version j : String)
    (f : File InstalledRegistry) (rs : InstalledRegistry)
    → load_installed_plugins f ≡ ok rs
    → installed_plugin j
        (save_installed_plugin_activated written now entry managed path version activated f).1
      ≡ (if entry.name == trim_space j
          then ok (
              some (record {
                name = entry.name;
                binary = entry.binary;
                path = trim_space path;
                go_install = entry.go_install;
                version = trim_space version;
                installed_at = now;
                managed = managed;
                activated = activated;
              }))
          else installed_plugin j f)
unfolding save_installed_plugin_activated
installed_plugin-save now entry managed activated path version j f rs l =
    let r : InstalledPlugin = record {
      name = entry.name;
      binary = entry.binary;
      path = trim_space path;
      go_install = entry.go_install;
      version = trim_space version;
      installed_at = now;
      managed = managed;
      activated = activated;
    } in
    ground (
      arith,
      installed_plugin-holds j (replace_or_add r rs),
      find-replace_or_add r (trim_space j) rs,
      load-installed j f rs l,
    )

-- What ActivatePlugin leaves under the name of its entry.
abbrev pub activated_record : ℕ → PluginEntry → Option InstalledPlugin → InstalledPlugin
activated_record now entry (some p) = record {
  name = p.name;
  binary = if p.binary == "" then entry.binary else p.binary;
  path = p.path;
  go_install = if p.go_install == "" then entry.go_install else p.go_install;
  version = p.version;
  installed_at = if nat_eq p.installed_at 0 then now else p.installed_at;
  managed = p.managed;
  activated = true;
}
activated_record now entry none = record {
  name = entry.name;
  binary = entry.binary;
  path = "";
  go_install = entry.go_install;
  version = "";
  installed_at = now;
  managed = false;
  activated = true;
}

-- For a file that loads, after an activation that is written, the plugin is installed and
-- activated: an installed record keeps its path, version and management, its installation time
-- unless that is zero, and
-- its binary and source where they were given; every other name holds what it held.
pub installed_plugin-activate :
    (now : ℕ) (entry : PluginEntry) (j : String) (f : File InstalledRegistry)
    (rs : InstalledRegistry)
    → load_installed_plugins f ≡ ok rs
    → installed_plugin j (activate_plugin written now entry f).1 ≡ (
        if entry.name == trim_space j
        then ok (some (activated_record now entry (find plugin_name (trim_space j) rs)))
        else installed_plugin j f)
unfolding activate_plugin
installed_plugin-activate now entry j f rs l = ground (
  arith,
  installed_plugin-holds j (change_first plugin_name entry.name (activate now entry) rs),
  installed_plugin-holds j (rs ++ newly_activated now entry ∷ []),
  find-change_first plugin_name entry.name (trim_space j) (activate now entry) rs (λ p e. e),
  find-append plugin_name (trim_space j) rs (newly_activated now entry),
  has-find plugin_name entry.name rs,
  eq_iff entry.name (trim_space j),
  load-installed j f rs l,
)

-- The last entry of a catalogue with a trimmed name, blank names aside.
abbrev pub last_named : String → List PluginEntry → Option PluginEntry
last_named k [] = none
last_named k (p ∷ ps) = elim (last_named k ps) [
  | some q ↦ some q
  | none ↦ if not (trim_space p.name == "") && trim_space p.name == k then some p else none
]

by_name-last :
    (k : String) (m : Map PluginEntry) (ps : List PluginEntry)
    → get k (by_name_from m ps) ≡ elim (last_named k ps) [ some p ↦ some p | none ↦ get k m ]
unfolding by_name_from
by_name-last k m [] = refl
by_name-last k m (p ∷ ps) = ground (
  arith,
  by_name-last k m ps,
  by_name-last k (put (trim_space p.name) p m) ps,
  get-put (trim_space p.name) k p m,
)

-- Resolving a name in a marketplace gives the last entry of the catalogue with that name, both
-- trimmed; a blank name resolves to nothing.
pub resolve-last_named :
    (raw : MarketplaceData) (name : String)
    → resolve (new_marketplace raw) name ≡ last_named (trim_space name) raw.plugins
unfolding resolve new_marketplace get
resolve-last_named raw name = ground (arith, by_name-last (trim_space name) [] raw.plugins)
