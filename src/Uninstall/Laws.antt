-- ===== src/Uninstall/Laws.antt =====
-- The records that UninstallPlugin drops and the files that it deletes, runtime/plugins.go.
use fluxplane_dex.Prelude.{
  String, ◌≡◌, refl, Bool, false, true, ◌&&◌, ◌||◌, none, List, [], ◌∷◌, ◌==◌, if◌then◌else◌, arith,
  eq_iff, trim_space, Bool-cases, Option-cases, inl, inr, All,
}
use fluxplane_dex.Prelude.Outcome.{ok}
use fluxplane_dex.Files.{File, written}
use fluxplane_dex.Keyed.{remove, has}
use fluxplane_dex.Keyed.Laws.{find-remove}
use fluxplane_dex.Plugins.{
  InstalledPlugin, InstalledRegistry, PluginUninstallResult, plugin_name, load_installed_plugins,
  installed_plugin,
}
use fluxplane_dex.Plugins.Laws.{installed_plugin-holds, load-installed}
use fluxplane_dex.Uninstall.{
  Unlink, deleted, not_there, failed, is_own_binary, unlink_error, after_unlink, sweep, start,
  conclude, uninstall_plugin,
}

module _ (inside : String → Bool) (unlink : String → Unlink) where
  removed-after_unlink :
      (u : Unlink) (r : PluginUninstallResult)
      → (after_unlink inside unlink u r).removed ≡ r.removed
  removed-after_unlink deleted r = refl
  removed-after_unlink not_there r = refl
  removed-after_unlink (failed e) r = refl

  -- A sweep that ends without an error has kept the records with other names, in their order, and
  -- has marked the result if there was one with the name.
  pub sweep-kept :
      (name : String) (r : PluginUninstallResult) (ps : List InstalledPlugin)
      → (sweep inside unlink name r ps).error ≡ none
      → ((sweep inside unlink name r ps).kept ≡ remove plugin_name name ps)
        × ((sweep inside unlink name r ps).result.removed ≡ r.removed || has plugin_name name ps)
  unfolding sweep remove has
  sweep-kept name r [] h = ground arith
  sweep-kept name r (p ∷ ps) h =
      let at = record r { removed = true; path = p.path } in
      ground (
        arith,
        sweep-kept name r ps,
        sweep-kept name (record r { removed = true }) ps,
        sweep-kept name (after_unlink inside unlink (unlink p.path) at) ps,
        removed-after_unlink (unlink p.path) at,
      )

  -- Does a list hold a record with the name and the path, which dex manages and whose path lies in
  -- its directory of binaries.
  unfoldable pub owns : String → List InstalledPlugin → String → Bool
  owns name [] path = false
  owns name (p ∷ ps) path =
      (p.name == name && (p.path == path && (p.managed && inside path))) || owns name ps path

  All-owns-cons :
      (name : String) (p : InstalledPlugin) (ps : List InstalledPlugin) (paths : List String)
      → All (λ path. owns name ps path ≡ true) paths
      → All (λ path. owns name (p ∷ ps) path ≡ true) paths
  unfolding owns
  All-owns-cons name p ps [] h = tt
  All-owns-cons name p ps (path ∷ paths) (x, h) = (ground arith, All-owns-cons name p ps paths h)

  owns-head :
      (name : String) (p : InstalledPlugin) (ps : List InstalledPlugin)
      → (p.name == name) ≡ true
      → is_own_binary inside unlink p ≡ true
      → owns name (p ∷ ps) p.path ≡ true
  unfolding owns
  owns-head name p ps same own = ground (arith, eq_iff p.path p.path)

  -- Whatever the outcome, a sweep asks for the deletion of nothing but binaries that dex manages,
  -- inside its own directory, of records with the name.
  pub sweep-owns :
      (name : String) (r : PluginUninstallResult) (ps : List InstalledPlugin)
      → All (λ path. owns name ps path ≡ true) (sweep inside unlink name r ps).unlinked
  unfolding sweep
  sweep-owns name r [] = tt
  sweep-owns name r (p ∷ ps) = elim (Bool-cases (p.name == name)) [
    | inr other ↦ rw other (All-owns-cons name p ps _ (sweep-owns name r ps))
    | inl same ↦ elim (Bool-cases (is_own_binary inside unlink p)) [
      | inr foreign ↦
          rw (same, foreign)
            (All-owns-cons name p ps _ (sweep-owns name (record r { removed = true }) ps))
      | inl own ↦
          let at = record r { removed = true; path = p.path } in
          let later =
            All-owns-cons name p ps _
              (sweep-owns name (after_unlink inside unlink (unlink p.path) at) ps) in
          let here = owns-head name p ps same own in
          elim (Option-cases (unlink_error inside unlink (unlink p.path))) [
            | inl fine ↦ rw (same, own, fine) (here, later)
            | inr (e, failed_with) ↦ rw (same, own, failed_with) (here, tt)
          ]
    ]
  ]

  -- For a file that loads, after an uninstall without an error on a disk that writes, the name
  -- holds nothing, every other name what it held, and the result says whether there was a record.
  pub installed_plugin-uninstall :
      (name j : String) (f : File InstalledRegistry) (rs : InstalledRegistry)
      → load_installed_plugins f ≡ ok rs
      → (uninstall_plugin inside unlink written name f).1 ≡ none
      → (installed_plugin j (uninstall_plugin inside unlink written name f).2
          ≡ (if trim_space name == trim_space j then ok none else installed_plugin j f))
        × ((uninstall_plugin inside unlink written name f).0.removed
            ≡ has plugin_name (trim_space name) rs)
  unfolding uninstall_plugin conclude
  installed_plugin-uninstall name j f rs l h =
      let k = trim_space name in
      ground (
        arith,
        sweep-kept k (start inside unlink k) rs,
        installed_plugin-holds j (remove plugin_name k rs),
        find-remove plugin_name k (trim_space j) rs,
        load-installed j f rs l,
      )
