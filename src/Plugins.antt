-- ===== src/Plugins.antt =====
-- The registry of installed plugins, runtime/plugins.go, and the marketplace that it is matched
-- with, runtime/marketplace.go. Times are nanoseconds, with 0 for Go's zero time.
pub mod Laws
pub mod Status
use fluxplane_dex.Prelude.{
  ℕ, String, Bool, false, true, not, ◌&&◌, ◌||◌, Option, none, some, List, [], ◌∷◌, ◌++◌, ◌==◌,
  if◌then◌else◌, nat_eq, trim_space, to_lower, str_contains, append,
}
use fluxplane_dex.Prelude.Outcome
use fluxplane_dex.Prelude.Outcome.{Outcome, ok, err}
use fluxplane_dex.Prelude.Sorting.{sort, by_key}
use fluxplane_dex.Files.{File, Disk, read, Plan, stop, save, run, ◌>>=◌}
use fluxplane_dex.Keyed.{find, change_first, remove, has}
use fluxplane_dex.Maps.{Map, get, put}

-- core.PluginEntry
pub record PluginEntry : Type 0 where
  pub name : String
  pub description : String
  pub binary : String
  pub go_install : String
  pub local_path : String
  pub metadata : Map String

-- core.Marketplace
pub record MarketplaceData : Type 0 where
  pub version : String
  pub plugins : List PluginEntry

pub record Marketplace : Type 0 where
  pub content : MarketplaceData
  pub by_name : Map PluginEntry

by_name_from : Map PluginEntry → List PluginEntry → Map PluginEntry
by_name_from m [] = m
by_name_from m (p ∷ ps) =
    by_name_from (if trim_space p.name == "" then m else put (trim_space p.name) p m) ps

unfoldable pub new_marketplace : MarketplaceData → Marketplace
unfolding by_name_from
new_marketplace raw = record { content = raw; by_name = by_name_from [] raw.plugins }

unfoldable pub resolve : Marketplace → String → Option PluginEntry
resolve m name_or_alias = get (trim_space name_or_alias) m.by_name

pub record InstalledPlugin : Type 0 where
  pub name : String
  pub binary : String
  pub path : String
  pub go_install : String
  pub version : String
  pub installed_at : ℕ
  pub managed : Bool
  pub activated : Bool

abbrev pub InstalledRegistry : Type 0
InstalledRegistry = List InstalledPlugin

pub record PluginStatus : Type 0 where
  pub name : String
  pub known : Bool
  pub installed : Bool
  pub activated : Bool
  pub managed : Bool
  pub binary : String
  pub path : String
  pub go_install : String
  pub version : String

pub record PluginUninstallResult : Type 0 where
  pub plugin : String
  pub removed : Bool
  pub binary_removed : Bool
  pub path : String

abbrev pub plugin_name : InstalledPlugin → String
plugin_name p = p.name

unfoldable pub load_installed_plugins : File InstalledRegistry → Outcome InstalledRegistry
load_installed_plugins f = Outcome.◌>>=◌ (read [] f) (λ rs. ok (sort (by_key plugin_name) rs))

-- the loop of saveInstalledPluginActivated, and the `append` after it
unfoldable pub replace_or_add : InstalledPlugin → InstalledRegistry → InstalledRegistry
replace_or_add r rs =
    if has plugin_name r.name rs then change_first plugin_name r.name (λ _. r) rs else rs ++ r ∷ []

unfoldable pub save_plan :
    ℕ
    → PluginEntry
    → Bool
    → String
    → String
    → Bool
    → File InstalledRegistry
    → Plan InstalledRegistry (Unit {0})
save_plan now entry managed path version activated f = do
  registry ← load_installed_plugins f
  let r : InstalledPlugin = record {
    name = entry.name;
    binary = entry.binary;
    path = trim_space path;
    go_install = entry.go_install;
    version = trim_space version;
    installed_at = now;
    managed = managed;
    activated = activated;
  }
  save (replace_or_add r registry) tt

unfoldable pub save_installed_plugin_activated :
    Disk InstalledRegistry
    → ℕ
    → PluginEntry
    → Bool
    → String
    → String
    → Bool
    → File InstalledRegistry
    → Outcome (Unit {0}) × File InstalledRegistry
unfolding save_plan
save_installed_plugin_activated disk now entry managed path version activated f =
    run disk (save_plan now entry managed path version activated f) f

-- SaveInstalledPluginVersionActivated
abbrev pub save_installed_plugin_version_activated :
    Disk InstalledRegistry
    → ℕ
    → PluginEntry
    → Bool
    → String
    → String
    → Bool
    → File InstalledRegistry
    → Outcome (Unit {0}) × File InstalledRegistry
save_installed_plugin_version_activated = save_installed_plugin_activated

-- SaveInstalledPluginVersion, and saveInstalledPlugin that it calls
unfoldable pub save_installed_plugin_version :
    Disk InstalledRegistry
    → ℕ
    → PluginEntry
    → Bool
    → String
    → String
    → File InstalledRegistry
    → Outcome (Unit {0}) × File InstalledRegistry
unfolding save_installed_plugin_activated
save_installed_plugin_version disk now entry managed path version f =
    save_installed_plugin_activated disk now entry managed path version true f

unfoldable pub save_installed_plugin_at :
    Disk InstalledRegistry
    → ℕ
    → PluginEntry
    → Bool
    → String
    → File InstalledRegistry
    → Outcome (Unit {0}) × File InstalledRegistry
unfolding save_installed_plugin_version
save_installed_plugin_at disk now entry managed path f =
    save_installed_plugin_version disk now entry managed path "" f

unfoldable pub save_installed_plugin :
    Disk InstalledRegistry
    → ℕ
    → PluginEntry
    → Bool
    → File InstalledRegistry
    → Outcome (Unit {0}) × File InstalledRegistry
unfolding save_installed_plugin_version
save_installed_plugin disk now entry managed f =
    save_installed_plugin_version disk now entry managed "" "" f

abbrev pub mark_plugin_installed :
    Disk InstalledRegistry
    → ℕ
    → PluginEntry
    → Bool
    → File InstalledRegistry
    → Outcome (Unit {0}) × File InstalledRegistry
mark_plugin_installed = save_installed_plugin

unfoldable pub installed_plugin : String → File InstalledRegistry → Outcome (Option InstalledPlugin)
installed_plugin name f =
    Outcome.◌>>=◌ (load_installed_plugins f)
      (λ registry. ok (find plugin_name (trim_space name) registry))

unfoldable pub is_plugin_installed : String → File InstalledRegistry → Outcome Bool
is_plugin_installed name f =
    Outcome.◌>>=◌ (load_installed_plugins f)
      (λ registry. ok (has plugin_name (trim_space name) registry))

unfoldable pub is_plugin_activated : String → File InstalledRegistry → Outcome Bool
is_plugin_activated name f = Outcome.◌>>=◌ (load_installed_plugins f) λ registry.
    ok (elim (find plugin_name (trim_space name) registry) [ some p ↦ p.activated | none ↦ false ])

-- what ActivatePlugin makes of a record that is installed
abbrev pub activate : ℕ → PluginEntry → InstalledPlugin → InstalledPlugin
activate now entry p = record p {
  binary = if p.binary == "" then entry.binary else p.binary;
  go_install = if p.go_install == "" then entry.go_install else p.go_install;
  installed_at = if nat_eq p.installed_at 0 then now else p.installed_at;
  activated = true;
}

abbrev pub newly_activated : ℕ → PluginEntry → InstalledPlugin
newly_activated now entry = record {
  name = entry.name;
  binary = entry.binary;
  path = "";
  go_install = entry.go_install;
  version = "";
  installed_at = now;
  managed = false;
  activated = true;
}

unfoldable pub activate_plan :
    ℕ → PluginEntry → File InstalledRegistry → Plan InstalledRegistry (Unit {0})
activate_plan now entry f = do
  registry ← load_installed_plugins f
  if has plugin_name entry.name registry
      then save (change_first plugin_name entry.name (activate now entry) registry) tt
      else save (registry ++ newly_activated now entry ∷ []) tt

unfoldable pub activate_plugin :
    Disk InstalledRegistry
    → ℕ
    → PluginEntry
    → File InstalledRegistry
    → Outcome (Unit {0}) × File InstalledRegistry
unfolding activate_plan
activate_plugin disk now entry f = run disk (activate_plan now entry f) f

abbrev pub deactivate : InstalledPlugin → InstalledPlugin
deactivate p = record p { activated = false }

unfoldable pub deactivate_plan : String → File InstalledRegistry → Plan InstalledRegistry Bool
deactivate_plan name f = do
  registry ← load_installed_plugins f
  elim (find plugin_name (trim_space name) registry) [
    | some p ↦ save (change_first plugin_name (trim_space name) deactivate registry) p.activated
    | none ↦ stop (ok false)
  ]

unfoldable pub deactivate_plugin :
    Disk InstalledRegistry → String → File InstalledRegistry → Outcome Bool × File InstalledRegistry
unfolding deactivate_plan
deactivate_plugin disk name f = run disk (deactivate_plan name f) f
