-- ===== src/Uninstall.antt =====
-- UninstallPlugin of runtime/plugins.go: the only operation that deletes a file of its own accord.
pub mod Laws
pub mod Runs
use fluxplane_dex.Prelude.{
  String, Bool, false, true, ◌&&◌, Option, none, some, List, [], ◌∷◌, ◌==◌, if◌then◌else◌,
  trim_space,
}
use fluxplane_dex.Prelude.Outcome.{ok, err}
use fluxplane_dex.Files.{File, Disk, after_write, write_error}
use fluxplane_dex.Plugins.{
  InstalledPlugin, InstalledRegistry, PluginUninstallResult, load_installed_plugins,
}

-- what os.Remove does with a path
pub data Unlink : Type 0 where
  deleted : Unlink
  not_there : Unlink
  failed : String → Unlink

-- the state of the loop when it ends: the result, the error that it returned with, the records
-- kept, and the paths that os.Remove was called with
pub record Sweep : Type 0 where
  pub result : PluginUninstallResult
  pub error : Option String
  pub kept : List InstalledPlugin
  pub unlinked : List String

module _ (inside : String → Bool) (unlink : String → Unlink) where
  -- `inside p` is insideDir(s.PluginBinDir(), p)
  abbrev pub is_own_binary : InstalledPlugin → Bool
  is_own_binary p = p.managed && inside p.path

  abbrev marked : PluginUninstallResult → PluginUninstallResult
  marked r = record r { removed = true }

  abbrev with_path : InstalledPlugin → PluginUninstallResult → PluginUninstallResult
  with_path p r = record r { removed = true; path = p.path }

  abbrev pub after_unlink : Unlink → PluginUninstallResult → PluginUninstallResult
  after_unlink deleted r = record r { binary_removed = true }
  after_unlink not_there r = r
  after_unlink (failed e) r = r

  abbrev pub unlink_error : Unlink → Option String
  unlink_error deleted = none
  unlink_error not_there = none
  unlink_error (failed e) = some e

  unfoldable pub sweep : String → PluginUninstallResult → List InstalledPlugin → Sweep
  sweep name r [] = record { result = r; error = none; kept = []; unlinked = [] }
  sweep name r (p ∷ ps) =
      let passed = sweep name r ps in
      let dropped = sweep name (marked r) ps in
      let cleaned = sweep name (after_unlink (unlink p.path) (with_path p r)) ps in
      if p.name == name
      then if is_own_binary p
        then elim (unlink_error (unlink p.path)) [
          | some e ↦ record {
            result = with_path p r;
            error = some e;
            kept = [];
            unlinked = p.path ∷ [];
          }
          | none ↦ record cleaned { unlinked = p.path ∷ cleaned.unlinked }
        ]
        else dropped
      else record passed { kept = p ∷ passed.kept }

  abbrev pub start : String → PluginUninstallResult
  start name = record { plugin = name; removed = false; binary_removed = false; path = "" }

  -- the end of the loop: a failed deletion returns before the registry is written
  unfoldable pub conclude :
      Disk InstalledRegistry
      → File InstalledRegistry
      → Sweep
      → PluginUninstallResult × Option String × File InstalledRegistry
  conclude disk f s = elim s.error [
    | some e ↦ (s.result, some e, f)
    | none ↦ (s.result, write_error disk, after_write disk s.kept f)
  ]

  -- the result, the error, and the file afterwards
  unfoldable pub uninstall_plugin :
      Disk InstalledRegistry
      → String
      → File InstalledRegistry
      → PluginUninstallResult × Option String × File InstalledRegistry
  uninstall_plugin disk raw f =
      let name = trim_space raw in
      elim (load_installed_plugins f) [
        | err e ↦ (start name, some e, f)
        | ok registry ↦ conclude disk f (sweep name (start name) registry)
      ]
