-- ===== src/Runner/Buffers.antt =====
-- The limits on what a plugin's process prints, limitedBuffer and limitedReadCloser, and the decoding
-- of a response without frames, in runtime/runner.go.
pub mod Laws
use fluxplane_dex.Prelude.{
  ℕ, zero, suc, ◌-◌, ◌*◌, String, Bool, true, false, not, ◌&&◌, Option, none, some, List, [], ◌∷◌,
  ◌++◌, ◌==◌, if◌then◌else◌, length, take, ltb, leb, append, trim_space,
}
use mathlib.Core.Option
use fluxplane_dex.Prelude.Outcome.{Outcome, ok, err}
use fluxplane_dex.Capabilities.{Bytes}
use fluxplane_dex.Protocol.{version, version_v1, Response, Error}

abbrev pub max_plugin_output_bytes : ℕ
max_plugin_output_bytes = 4 * 1024 * 1024

pub record LimitedBuffer : Type 0 where
  pub written : Bytes
  pub limit : ℕ
  pub truncated : Bool

-- Write of limitedBuffer; the number of bytes that it reports is always that of `p`. A limit of 0 is no limit.
unfoldable pub write : Bytes → LimitedBuffer → LimitedBuffer
write p b =
    let remaining = b.limit - length b.written in
    if leb b.limit 0
    then record b { written = b.written ++ p }
    else if leb remaining 0
    then record b { truncated = true }
    else if ltb remaining (length p)
    then record b { written = b.written ++ take remaining p; truncated = true }
    else record b { written = b.written ++ p }

-- ReadFrom and WriteString are those of the embedded bytes.Buffer: they append, and know no limit.
-- io.Copy, by which os/exec copies the output of a process, calls ReadFrom where there is one.
pub data Use : Type 0 where
  by_write : Bytes → Use
  by_read_from : Bytes → Use
  by_write_string : Bytes → Use

abbrev pub append_bytes : Bytes → LimitedBuffer → LimitedBuffer
append_bytes p b = record b { written = b.written ++ p }

unfoldable pub perform : Use → LimitedBuffer → LimitedBuffer
unfolding write
perform (by_write p) b = write p b
perform (by_read_from p) b = append_bytes p b
perform (by_write_string p) b = append_bytes p b

unfoldable pub perform_all : List Use → LimitedBuffer → LimitedBuffer
unfolding perform
perform_all [] b = b
perform_all (u ∷ us) b = perform_all us (perform u b)

abbrev pub new_buffer : ℕ → LimitedBuffer
new_buffer limit = record { written = []; limit = limit; truncated = false }

pub record LimitedReader : Type 0 where
  pub remaining : ℕ
  pub exceeded : Bool

-- Read into a buffer of `size` bytes. `read` is the reader below: it gives at most as many bytes as
-- it is asked for.
unfoldable pub read_limited :
    (ℕ → Outcome Bytes) → ℕ → LimitedReader → Outcome Bytes × LimitedReader
read_limited read size r =
    if leb r.remaining 0
    then (err "plugin output exceeded 4194304 bytes", record r { exceeded = true })
    else taken (read (if ltb r.remaining size then r.remaining else size))
  where
    taken : Outcome Bytes → Outcome Bytes × LimitedReader
    taken (ok bytes) = (ok bytes, record r { remaining = r.remaining - length bytes })
    taken (err e) = (err e, r)

-- the response and the error of decodeResponse, for what json.Unmarshal has read
abbrev pub decoded_error : Response → Option String
decoded_error resp =
    if not (resp.protocol == version) && not (resp.protocol == version_v1)
    then some (append "plugin protocol mismatch: " resp.protocol)
    else if resp.is_ok
    then none
    else Option.map (λ (e : Error). e.message) resp.error

unfoldable pub decode_response : Outcome Response → Response → Response × Option String
decode_response (err e) partly = (partly, some (append "decode plugin response: " e))
decode_response (ok resp) partly = (resp, decoded_error resp)
