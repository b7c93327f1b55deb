-- ===== src/Capabilities/Local.antt =====
-- LocalCapabilityHost, runtime/capabilities.go. The operating system and net/http are parameters: a
-- write changes the world `W`, a read depends on it.
pub mod Laws
use mathlib.Core.Option
use fluxplane_dex.Prelude.{
  ℕ, zero, suc, ◌+◌, ◌-◌, ◌*◌, ◌%◌, ◌^◌, String, Bool, false, true, not, ◌||◌, Option, none, some,
  List, [], ◌∷◌, ◌++◌, ◌==◌, if◌then◌else◌, length, take, ltb, nat_eq, trim_space, to_upper, append,
}
use fluxplane_dex.Prelude.Int.{ℤ, pos, negsuc}
use fluxplane_dex.Prelude.Outcome.{Outcome, ok, err, ◌>>=◌}
use fluxplane_dex.Prelude.Slices
use fluxplane_dex.Prelude.Unique.{mem}
use fluxplane_dex.Maps.{Map, get}
use fluxplane_dex.Capabilities.{
  Bytes, HttpRequest, HttpResponse, BlobRef, BlobReadRequest, BlobReadResponse, BlobWriteRequest,
  BlobInfoRequest, EnvLookupResponse, ProviderCallRequest,
}
use fluxplane_dex.Capabilities.Paths.{
  FilePath, dir, Real, blob_path, resolve_existing, resolve_create,
}

-- what os.Lstat says of a path
pub data Entry : Type 0 where
  exists : Entry
  missing : Entry
  unknown : String → Entry

pub record FileInfo : Type 0 where
  pub size : ℕ
  pub is_dir : Bool

-- `read_limited n` is io.ReadAll of io.LimitReader of the opened file
pub record Os (W : Type 0) : Type 0 where
  pub eval_symlinks : W → FilePath → Real
  pub stat : W → FilePath → Outcome FileInfo
  pub lstat : W → FilePath → Entry
  pub read_limited : W → FilePath → ℕ → Outcome Bytes
  pub mkdir_all : FilePath → W → Option String × W
  pub write_file : FilePath → Bytes → W → Option String × W
  pub lookup_env : W → String → Option String

abbrev pub default_http_response_max_bytes : ℕ
default_http_response_max_bytes = 512 * 1024

abbrev pub hard_http_response_max_bytes : ℕ
hard_http_response_max_bytes = 16 * 1024 * 1024

abbrev pub hard_blob_read_max_bytes : ℕ
hard_blob_read_max_bytes = 32 * 1024 * 1024

unfoldable pub bounded_http_max_bytes : ℤ → ℕ
bounded_http_max_bytes (negsuc n) = default_http_response_max_bytes
bounded_http_max_bytes (pos zero) = default_http_response_max_bytes
bounded_http_max_bytes (pos (suc n)) =
    if ltb hard_http_response_max_bytes (suc n) then hard_http_response_max_bytes else suc n

abbrev pub at_most_hard : ℕ → ℕ
at_most_hard n = if ltb hard_blob_read_max_bytes n then hard_blob_read_max_bytes else n

unfoldable pub bounded_blob_max_bytes : ℤ → ℕ → ℕ
bounded_blob_max_bytes (negsuc n) size = at_most_hard size
bounded_blob_max_bytes (pos zero) size = at_most_hard size
bounded_blob_max_bytes (pos (suc n)) size = at_most_hard (suc n)

-- the first bytes of what was read with one byte more than allowed, and whether more were there
abbrev pub cut_to : ℕ → Bytes → Bytes × Bool
cut_to max bytes = (take max bytes, ltb max (length bytes))

abbrev first_non_empty : String → String → String
first_non_empty a b = if trim_space a == "" then trim_space b else trim_space a

abbrev pub file_name : String → String
file_name rel = elim (Slices.before_last Slices.slash rel) [
  | none ↦ rel
  | some before ↦ Slices.drop_same rel (append before "/")
]

module _ {W : Type 0} (os : Os W) (root : Outcome FilePath) where
  abbrev blob_ref : String → ℕ → BlobRef
  blob_ref rel size = record {
    ref = append "workspace:" rel;
    path = rel;
    media_type = "";
    filename = file_name rel;
    size = size;
    metadata = [];
  }

  abbrev pub read_answer : String → ℕ → Bytes × Bool → BlobReadResponse
  read_answer rel size (content, truncated) = record {
    blob = blob_ref rel size;
    content = content;
    truncated = truncated;
  }

  unfoldable pub blob_read : BlobReadRequest → W → Outcome BlobReadResponse × W
  unfolding blob_path bounded_blob_max_bytes resolve_existing
  blob_read input w = (
    (do
      place ← resolve_existing (os.eval_symlinks w) root (blob_path input.ref input.path)
      info ← os.stat w place.0
      let max = bounded_blob_max_bytes input.max_bytes info.size
      if info.is_dir then err "blob path is a directory" else (do
        content ← os.read_limited w place.0 (suc max)
        ok (read_answer place.1 info.size (cut_to max content)))),
    w,
  )

  unfoldable pub blob_info : BlobInfoRequest → W → Outcome BlobRef × W
  unfolding blob_path resolve_existing
  blob_info input w = (
    (do
      place ← resolve_existing (os.eval_symlinks w) root (blob_path input.ref input.path)
      info ← os.stat w place.0
      ok (blob_ref place.1 info.size)),
    w,
  )

  abbrev written_ref : BlobWriteRequest → String → BlobRef
  written_ref input rel = record {
    ref = append "workspace:" rel;
    path = rel;
    media_type = trim_space input.media_type;
    filename = first_non_empty input.filename (file_name rel);
    size = length input.content;
    metadata = input.metadata;
  }

  -- the file may be written: os.Lstat, where nothing is to be overwritten
  abbrev pub may_write : Bool → Entry → Outcome (Unit {0})
  may_write true entry = ok tt
  may_write false exists = err "blob path already exists"
  may_write false missing = ok tt
  may_write false (unknown e) = err e

  abbrev pub after_write : BlobWriteRequest → String → Option String × W → Outcome BlobRef × W
  after_write input rel (some e, w) = (err e, w)
  after_write input rel (none, w) = (ok (written_ref input rel), w)

  abbrev pub after_mkdir :
      BlobWriteRequest → FilePath → String → Option String × W → Outcome BlobRef × W
  after_mkdir input path rel (some e, w) = (err e, w)
  after_mkdir input path rel (none, w) = after_write input rel (os.write_file path input.content w)

  abbrev pub write_if :
      Outcome (Unit {0}) → BlobWriteRequest → FilePath → String → W → Outcome BlobRef × W
  write_if (err e) input path rel w = (err e, w)
  write_if (ok u) input path rel w = after_mkdir input path rel (os.mkdir_all (dir path) w)

  abbrev pub write_at : BlobWriteRequest → W → Outcome (FilePath × String) → Outcome BlobRef × W
  write_at input w (err e) = (err e, w)
  write_at input w (ok (path, rel)) =
      write_if (may_write input.overwrite (os.lstat w path)) input path rel w

  unfoldable pub blob_write : BlobWriteRequest → W → Outcome BlobRef × W
  unfolding blob_path dir resolve_create
  blob_write input w =
      write_at input w (resolve_create (os.eval_symlinks w) root (blob_path input.ref input.path))

  abbrev env_answer : String → Option String → EnvLookupResponse
  env_answer key none = record { key = key; value = ""; found = false }
  env_answer key (some value) = record { key = key; value = value; found = true }

  unfoldable pub env_lookup : String → W → Outcome EnvLookupResponse × W
  env_lookup untrimmed w =
      let key = trim_space untrimmed in
      if key == ""
      then (err "environment key is empty", w)
      else (ok (env_answer key (os.lookup_env w key)), w)

  abbrev provider_named :
      Map (String → String → W → Outcome String × W)
      → (String → String → W → Outcome String × W)
      → String
      → Option (String → String → W → Outcome String × W)
  provider_named providers system name = elim (get name providers) [
    | some p ↦ some p
    | none ↦ if name == "system" then some system else none
  ]

  -- `system` is localSystemProvider
  unfoldable pub provider_call :
      Map (String → String → W → Outcome String × W)
      → (String → String → W → Outcome String × W)
      → ProviderCallRequest
      → W
      → Outcome String × W
  unfolding get
  provider_call providers system input w =
      let name = trim_space input.provider in
      if name == ""
      then (err "provider is required", w)
      else elim (provider_named providers system name) [
        | none ↦ (err (append "host provider " (append name " is unavailable")), w)
        | some call ↦ call (trim_space input.action) input.payload w
      ]
