-- ===== src/Runner/Buffers/Laws.antt =====
-- A limited buffer loses nothing without its mark, and Write keeps its limit, limitedBuffer in runtime/runner.go.
use Prim.Native.Nat.{max}
use mathlib.Core.List.{append_assoc}
use fluxplane_dex.Prelude.{
  ℕ, ◌+◌, ◌⊎◌, inl, inr, Bool-cases, ◌<◌, ◌≤◌, ◌-◌, take, length, length-append, length-take, true,
  ◌≡◌, refl, ap, ◌∙◌, false, List, [], ◌∷◌, ◌++◌, arith,
}
use fluxplane_dex.Capabilities.{Bytes}
use fluxplane_dex.Runner.Buffers.{
  LimitedBuffer, Use, by_write, by_read_from, by_write_string, write, append_bytes, perform,
  perform_all,
}

append_none : (xs : Bytes) → xs ≡ xs ++ []
append_none [] = refl
append_none (x ∷ xs) = ap (λ zs. x ∷ zs) (append_none xs)

abbrev bytes_of : Use → Bytes
bytes_of (by_write p) = p
bytes_of (by_read_from p) = p
bytes_of (by_write_string p) = p

-- all bytes that were given to the buffer, in order
abbrev pub given : List Use → Bytes
given [] = []
given (u ∷ us) = bytes_of u ++ given us

write-whole :
    (p : Bytes) (b : LimitedBuffer)
    → (write p b).truncated ≡ false
    → (b.truncated ≡ false) × ((write p b).written ≡ b.written ++ p)
unfolding write
write-whole p b h = (ground arith, ground arith)

perform-whole :
    (u : Use) (b : LimitedBuffer)
    → (perform u b).truncated ≡ false
    → (b.truncated ≡ false) × ((perform u b).written ≡ b.written ++ bytes_of u)
unfolding perform
perform-whole (by_write p) b h = write-whole p b h
perform-whole (by_read_from p) b h = (h, refl)
perform-whole (by_write_string p) b h = (h, refl)

perform_all-whole :
    (us : List Use) (b : LimitedBuffer)
    → (perform_all us b).truncated ≡ false
    → (b.truncated ≡ false) × ((perform_all us b).written ≡ b.written ++ given us)
unfolding perform_all
perform_all-whole [] b h = (h, append_none b.written)
perform_all-whole (u ∷ us) b h =
    let later = perform_all-whole us (perform u b) h in
    let now = perform-whole u b later.0 in
    (
      now.0,
      later.1 ∙ ap (λ xs. xs ++ given us) now.1 ∙ append_assoc b.written (bytes_of u) (given us),
    )

-- the bytes that pass the limit, those not given by Write
abbrev pub unlimited : List Use → Bytes
unlimited [] = []
unlimited (by_write p ∷ us) = unlimited us
unlimited (by_read_from p ∷ us) = p ++ unlimited us
unlimited (by_write_string p ∷ us) = p ++ unlimited us

write-limit : (p : Bytes) (b : LimitedBuffer) → (write p b).limit ≡ b.limit
unfolding write
write-limit p b = ground arith

write-bounded :
    (p : Bytes) (b : LimitedBuffer) (n : ℕ)
    → 0 < b.limit
    → b.limit ≤ n
    → length b.written ≤ n
    → length (write p b).written ≤ n
unfolding write
write-bounded p b n l k h = ground (
  arith,
  length-append b.written p,
  length-append b.written (take (b.limit - length b.written) p),
  length-take (b.limit - length b.written) p,
)

perform_all-bounded :
    (us : List Use) (b : LimitedBuffer) (n : ℕ)
    → 0 < b.limit
    → b.limit ≤ n
    → length b.written ≤ n
    → length (perform_all us b).written ≤ n + length (unlimited us)
unfolding perform_all perform
perform_all-bounded [] b n l k h = omega arith
perform_all-bounded (by_write p ∷ us) b n l k h =
    let same = write-limit p b in
    let now = write-bounded p b n l k h in
    perform_all-bounded us (write p b) n (omega (arith, same)) (omega (arith, same)) now
perform_all-bounded (by_read_from p ∷ us) b n l k h =
    let len = length-append b.written p in
    let later =
      perform_all-bounded us (append_bytes p b) (n + length p) l (omega arith)
        (omega (arith, len)) in
    let all = length-append p (unlimited us) in omega (arith, later, all)
perform_all-bounded (by_write_string p ∷ us) b n l k h =
    let len = length-append b.written p in
    let later =
      perform_all-bounded us (append_bytes p b) (n + length p) l (omega arith)
        (omega (arith, len)) in
    let all = length-append p (unlimited us) in omega (arith, later, all)

-- After any sequence of calls of Write, ReadFrom and WriteString, a buffer with a limit above 0 is
-- marked as truncated, or it was not marked before and holds what it held, followed by all bytes that
-- it was given. It holds at most as many bytes as its limit, or as it held if that is more, apart from
-- those that were not given by Write.
pub perform_all-keeps :
    (us : List Use) (b : LimitedBuffer)
    → 0 < b.limit
    → (((perform_all us b).truncated ≡ true)
        ⊎ ((b.truncated ≡ false) × ((perform_all us b).written ≡ b.written ++ given us)))
      × (length (perform_all us b).written ≤ max b.limit (length b.written) + length (unlimited us))
perform_all-keeps us b l = (
  elim (Bool-cases (perform_all us b).truncated) [
    | inl t ↦ inl t
    | inr t ↦ inr (perform_all-whole us b t)
  ],
  perform_all-bounded us b (max b.limit (length b.written)) l (omega arith) (omega arith),
)
