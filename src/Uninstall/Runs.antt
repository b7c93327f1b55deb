-- ===== src/Uninstall/Runs.antt =====
-- Runs of the registry of installed plugins, runtime/plugins.go: sequences of its changes.
use mathlib.Core.Path.{subst}
use fluxplane_dex.Prelude.{
  ℕ, String, ◌≡◌, refl, Bool, false, none, List, [], ◌∷◌, All, Bool-cases, Option-cases, inl, inr,
  trim_space, arith,
}
use fluxplane_dex.Prelude.Outcome.{ok, >>=-eq-ok, ok-injective, Outcome-cases}
use fluxplane_dex.Prelude.Sorting.{sort, by_key}
use fluxplane_dex.Files.{
  File, Disk, written, no_directory, write_failed, IsAtomic, Writes, FileHolds, read, after_write,
  run-FileHolds, Writes-bind, read-holds,
}
use fluxplane_dex.Keyed.{find, has, Distinct}
use fluxplane_dex.Keyed.Laws.{
  Distinct-sort, Distinct-append, Distinct-remove, Distinct-change_first, has-find,
}
use fluxplane_dex.Plugins.{
  PluginEntry, InstalledPlugin, InstalledRegistry, plugin_name, load_installed_plugins,
  replace_or_add, save_plan, save_installed_plugin_activated, activate, newly_activated,
  activate_plan, activate_plugin, deactivate, deactivate_plan, deactivate_plugin,
}
use fluxplane_dex.Uninstall.{Unlink, sweep, start, conclude, uninstall_plugin}
use fluxplane_dex.Uninstall.Laws.{sweep-kept}

module _ (inside : String → Bool) where
  pub data Command : Type 0 where
    save : ℕ → PluginEntry → Bool → String → String → Bool → Command
    activation : ℕ → PluginEntry → Command
    deactivation : String → Command
    uninstall : (String → Unlink) → String → Command

  -- the file after one command
  unfoldable pub exec :
      Disk InstalledRegistry → Command → File InstalledRegistry → File InstalledRegistry
  exec disk (save now entry managed path version activated) f =
      (save_installed_plugin_activated disk now entry managed path version activated f).1
  exec disk (activation now entry) f = (activate_plugin disk now entry f).1
  exec disk (deactivation name) f = (deactivate_plugin disk name f).1
  exec disk (uninstall unlink name) f = (uninstall_plugin inside unlink disk name f).2

  unfoldable pub exec_all :
      List (Disk InstalledRegistry × Command) → File InstalledRegistry → File InstalledRegistry
  exec_all [] f = f
  exec_all ((disk, c) ∷ rest) f = exec_all rest (exec disk c f)

  abbrev pub IsValid : InstalledRegistry → Type 0
  IsValid rs = Distinct plugin_name rs

  load-IsValid :
      (f : File InstalledRegistry) (rs : InstalledRegistry)
      → FileHolds IsValid f
      → load_installed_plugins f ≡ ok rs
      → IsValid rs
  unfolding load_installed_plugins
  load-IsValid f rs h l =
      let (raw, r, e) = >>=-eq-ok (read [] f) (λ t. ok (sort (by_key plugin_name) t)) l in
      subst IsValid (ok-injective e)
        (Distinct-sort plugin_name raw (read-holds IsValid [] f raw tt h r))

  missing-find :
      (k : String) (rs : InstalledRegistry)
      → has plugin_name k rs ≡ false
      → find plugin_name k rs ≡ none
  missing-find k rs h = ground (arith, has-find plugin_name k rs)

  replace_or_add-IsValid :
      (r : InstalledPlugin) (rs : InstalledRegistry) → IsValid rs → IsValid (replace_or_add r rs)
  unfolding replace_or_add
  replace_or_add-IsValid r rs d = elim (Bool-cases (has plugin_name r.name rs)) [
    | inl there ↦
        rw (there, replace_or_add)
          (Distinct-change_first plugin_name r.name (λ _. r) rs (λ _ _. refl) d)
    | inr missing ↦
        rw (missing, replace_or_add)
          (Distinct-append plugin_name rs r (missing-find r.name rs missing) d)
  ]

  activate_plan-IsValid :
      (now : ℕ) (entry : PluginEntry) (f : File InstalledRegistry)
      → FileHolds IsValid f
      → Writes IsValid (activate_plan now entry f)
  unfolding activate_plan
  activate_plan-IsValid now entry f h = Writes-bind IsValid (load_installed_plugins f) _ λ rs l.
      let d = load-IsValid f rs h l in
      elim (Bool-cases (has plugin_name entry.name rs)) [
        | inl there ↦
            rw there
              (Distinct-change_first plugin_name entry.name (activate now entry) rs (λ p e. e) d)
        | inr missing ↦ rw missing (
            Distinct-append plugin_name rs (newly_activated now entry)
              (missing-find entry.name rs missing) d)
      ]

  deactivate_plan-IsValid :
      (name : String) (f : File InstalledRegistry)
      → FileHolds IsValid f
      → Writes IsValid (deactivate_plan name f)
  unfolding deactivate_plan
  deactivate_plan-IsValid name f h = Writes-bind IsValid (load_installed_plugins f) _ λ rs l.
      let d = load-IsValid f rs h l in
      elim (Option-cases (find plugin_name (trim_space name) rs)) [
        | inl missing ↦ rw missing tt
        | inr (p, here) ↦
            rw here (Distinct-change_first plugin_name (trim_space name) deactivate rs (λ p e. e) d)
      ]

  save_plan-IsValid :
      (now : ℕ) (entry : PluginEntry) (managed : Bool) (path version : String) (activated : Bool)
      (f : File InstalledRegistry)
      → FileHolds IsValid f
      → Writes IsValid (save_plan now entry managed path version activated f)
  unfolding save_plan
  save_plan-IsValid now entry managed path version activated f h =
      Writes-bind IsValid (load_installed_plugins f) _
        (λ rs l. replace_or_add-IsValid _ rs (load-IsValid f rs h l))

  after_write-IsValid :
      (disk : Disk InstalledRegistry) (rs : InstalledRegistry) (f : File InstalledRegistry)
      → IsAtomic disk
      → IsValid rs
      → FileHolds IsValid f
      → FileHolds IsValid (after_write disk rs f)
  after_write-IsValid written rs f a d h = d
  after_write-IsValid (no_directory e) rs f a d h = h
  after_write-IsValid (write_failed e g) rs f a d h = absurd a

  conclude-IsValid :
      (unlink : String → Unlink) (disk : Disk InstalledRegistry) (name : String)
      (rs : InstalledRegistry) (f : File InstalledRegistry)
      → IsAtomic disk
      → IsValid rs
      → FileHolds IsValid f
      → FileHolds IsValid
          (conclude inside unlink disk f (sweep inside unlink name (start inside unlink name) rs)).2
  unfolding conclude
  conclude-IsValid unlink disk name rs f a d h =
      let s = sweep inside unlink name (start inside unlink name) rs in
      elim (Option-cases s.error) [
        | inr (e, failed_with) ↦ rw (failed_with, conclude) h
        | inl fine ↦
            rw
              (fine, conclude, (sweep-kept inside unlink name (start inside unlink name) rs fine).0)
              (after_write-IsValid disk _ f a (Distinct-remove plugin_name name rs d) h)
      ]

  uninstall-IsValid :
      (unlink : String → Unlink) (disk : Disk InstalledRegistry) (name : String)
      (f : File InstalledRegistry)
      → IsAtomic disk
      → FileHolds IsValid f
      → FileHolds IsValid (uninstall_plugin inside unlink disk name f).2
  unfolding uninstall_plugin
  uninstall-IsValid unlink disk name f a h = elim (Outcome-cases (load_installed_plugins f)) [
    | inl (rs, l) ↦
        rw (l, uninstall_plugin)
          (conclude-IsValid unlink disk (trim_space name) rs f a (load-IsValid f rs h l) h)
    | inr (e, l) ↦ rw (l, uninstall_plugin) h
  ]

  exec-IsValid :
      (disk : Disk InstalledRegistry) (c : Command) (f : File InstalledRegistry)
      → IsAtomic disk
      → FileHolds IsValid f
      → FileHolds IsValid (exec disk c f)
  unfolding exec save_installed_plugin_activated activate_plugin deactivate_plugin
  exec-IsValid disk (save now entry managed path version activated) f a h =
      run-FileHolds IsValid disk _ f a
        (save_plan-IsValid now entry managed path version activated f h) h
  exec-IsValid disk (activation now entry) f a h =
      run-FileHolds IsValid disk _ f a (activate_plan-IsValid now entry f h) h
  exec-IsValid disk (deactivation name) f a h =
      run-FileHolds IsValid disk _ f a (deactivate_plan-IsValid name f h) h
  exec-IsValid disk (uninstall unlink name) f a h = uninstall-IsValid unlink disk name f a h

  -- From a registry with distinct names, any sequence of saves, activations, deactivations and
  -- uninstalls, on disks whose failed writes change nothing, leaves a registry with distinct names.
  pub exec_all-IsDistinct :
      (run : List (Disk InstalledRegistry × Command)) (f : File InstalledRegistry)
      → All (λ (s : Disk InstalledRegistry × Command). IsAtomic s.0) run
      → FileHolds IsValid f
      → FileHolds IsValid (exec_all run f)
  unfolding exec_all
  exec_all-IsDistinct [] f a h = h
  exec_all-IsDistinct ((disk, c) ∷ rest) f (a, as') h =
      exec_all-IsDistinct rest (exec disk c f) as' (exec-IsValid disk c f a h)
