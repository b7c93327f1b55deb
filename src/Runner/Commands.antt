-- ===== src/Runner/Commands.antt =====
-- How the runner finds the command of a plugin, and the environment of its process: command,
-- installedPluginCommandCandidates, localPluginPath, withEnv, dedupeStrings, pluginEnv and their
-- helpers in runtime/runner.go, on Unix. `is_dir` and `is_executable` ask the file system.
use fluxplane_dex.Prelude.{
  String, Bool, not, Option, none, some, List, [], ◌∷◌, ◌++◌, ◌==◌, if◌then◌else◌, trim_space,
  append, has_prefix,
}
use fluxplane_dex.Prelude.Outcome.{Outcome, ok, err, ◌>>=◌}
use fluxplane_dex.Prelude.Unique.{collect}
use fluxplane_dex.Maps.{Map, get_or}
use fluxplane_dex.Plugins.{PluginEntry, InstalledPlugin}

-- an entry of the environment is a text "key=value"
unfoldable pub without_key : String → List String → List String
without_key prefix [] = []
without_key prefix (item ∷ env) =
    let rest = without_key prefix env in if has_prefix item prefix then rest else item ∷ rest

unfoldable pub with_env : List String → String → String → List String
unfolding without_key
with_env env key value = without_key (append key "=") env ++ append (append key "=") value ∷ []

unfoldable pub dedupe_strings : List String → List String
dedupe_strings values = collect ◌==◌ trim_space (λ v. v == "") [] values

abbrev allowed_keys : List String
allowed_keys =
    "PATH" ∷ "HOME" ∷ "USER" ∷ "TMPDIR" ∷ "TEMP" ∷ "TMP" ∷ "GOCACHE" ∷ "GOPATH" ∷ "GOMODCACHE"
    ∷ "GOENV" ∷ "GOROOT" ∷ "GOPROXY" ∷ "GOSUMDB" ∷ "GONOSUMDB" ∷ "GOPRIVATE" ∷ "GONOPROXY"
    ∷ "HTTP_PROXY" ∷ "HTTPS_PROXY" ∷ "NO_PROXY" ∷ "SSL_CERT_FILE" ∷ "SSL_CERT_DIR"
    ∷ "XDG_CACHE_HOME" ∷ []

abbrev env_entry : String → Option String → List String → List String
env_entry key none rest = rest
env_entry key (some value) rest = append key (append "=" value) ∷ rest

unfoldable pub allowed_env : (String → Option String) → List String → List String
allowed_env lookup_env [] = []
allowed_env lookup_env (key ∷ keys) = env_entry key (lookup_env key) (allowed_env lookup_env keys)

unfoldable pub plugin_env : (String → Option String) → List String
unfolding allowed_env
plugin_env lookup_env = allowed_env lookup_env allowed_keys

-- the first path that passes a test
unfoldable pub first_that : (String → Bool) → List String → Option String
first_that test [] = none
first_that test (p ∷ ps) = if test p then some p else first_that test ps

-- `join` is filepath.Join, `cwd` what os.Getwd gives
unfoldable pub local_plugin_path :
    (String → String → String) → (String → Bool) → Option String → String → String → Option String
unfolding first_that
local_plugin_path join is_dir cwd work_dir local_path =
    if trim_space local_path == ""
    then none
    else if has_prefix local_path "/"
    then if is_dir local_path then some local_path else none
    else first_that is_dir (
        (if trim_space work_dir == "" then [] else join work_dir local_path ∷ [])
        ++ elim cwd [ none ↦ [] | some dir ↦ join dir local_path ∷ [] ])

abbrev pub executable_name : String → String
executable_name binary = trim_space binary

-- `binary_path` is State.PluginBinaryPath
abbrev binary_candidate : (String → String) → String → List String
binary_candidate binary_path untrimmed =
    let binary = trim_space untrimmed in
    if binary == ""
    then []
    else (if has_prefix binary "/" then binary else binary_path (executable_name binary)) ∷ []

unfoldable pub installed_plugin_command_candidates :
    (String → String) → InstalledPlugin → PluginEntry → List String
unfolding dedupe_strings
installed_plugin_command_candidates binary_path installed entry =
    let path = trim_space installed.path in
    dedupe_strings (
      (if path == "" then [] else path ∷ [])
      ++ binary_candidate binary_path installed.binary
      ++ binary_candidate binary_path entry.binary)

-- the command of a plugin: `go run` of the package in a directory, or an executable
pub data Command : Type 0 where
  go_run : String → String → Command
  exec : String → Command

-- what of the system the search asks
pub record Search : Type 0 where
  pub dev_plugins : Map String
  pub work_dir : String
  pub join : String → String → String
  pub cwd : Option String
  pub binary_path : String → String
  pub is_dir : String → Bool
  pub is_executable : String → Bool
  pub look_path : String → Option String

-- installedPluginCommandPath, for what State.InstalledPlugin has found
unfoldable pub installed_plugin_command_path :
    Search → Outcome (Option InstalledPlugin) → PluginEntry → Outcome (Option String)
unfolding first_that installed_plugin_command_candidates
installed_plugin_command_path search (err e) entry = err e
installed_plugin_command_path search (ok none) entry = ok none
installed_plugin_command_path search (ok (some installed)) entry = ok (
    first_that search.is_executable
      (installed_plugin_command_candidates search.binary_path installed entry))

abbrev local_or_path : Search → PluginEntry → Option String → Outcome Command
local_or_path search entry (some dir) = ok (go_run dir entry.binary)
local_or_path search entry none = elim (search.look_path entry.binary) [
  | some path ↦ ok (exec path)
  | none ↦ err (append "plugin " (append entry.name " is not installed"))
]

abbrev installed_or_local : Search → PluginEntry → Option String → Outcome Command
installed_or_local search entry (some path) = ok (exec path)
installed_or_local search entry none =
    local_or_path search entry
      (local_plugin_path search.join search.is_dir search.cwd search.work_dir entry.local_path)

unfoldable pub command : Search → Outcome (Option InstalledPlugin) → PluginEntry → Outcome Command
unfolding local_plugin_path installed_plugin_command_path
command search installed entry =
    let dev = trim_space (get_or "" entry.name search.dev_plugins) in
    if not (dev == "") then ok (go_run dev entry.binary) else (do
      path ← installed_plugin_command_path search installed entry
      installed_or_local search entry path)
