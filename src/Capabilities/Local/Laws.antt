-- ===== src/Capabilities/Local/Laws.antt =====
-- What LocalCapabilityHost of runtime/capabilities.go writes and how much it reads.
use mathlib.Core.Path.{subst}
use fluxplane_dex.Prelude.{
  ℕ, zero, suc, ◌≤◌, String, ◌≡◌, ◌≢◌, refl, ◌⊎◌, Bool, inl, inr, true, false, Option, none, some,
  is_none, nat_eq, not, ◌||◌, Bool-cases, length, length-take, arith,
}
use fluxplane_dex.Prelude.Int.{ℤ, pos, negsuc}
use fluxplane_dex.Prelude.Outcome.{Outcome, ok, err, is_ok, Gives, Gives-after}
use fluxplane_dex.Capabilities.{Bytes, BlobRef, BlobReadRequest, BlobReadResponse, BlobWriteRequest}
use fluxplane_dex.Capabilities.Paths.{FilePath, dir, blob_path, resolve_existing, resolve_create}
use fluxplane_dex.Capabilities.Paths.Laws.{
  CleanReal, IsCreatedFrom, IsCreatable, HasRoot, resolve_create-Gives,
}
use fluxplane_dex.Capabilities.Local.{
  Entry, exists, missing, unknown, Os, hard_blob_read_max_bytes, bounded_blob_max_bytes, cut_to,
  read_answer, blob_read, may_write, after_write, after_mkdir, write_if, write_at, blob_write,
}

module _ {W : Type 0} (os : Os W) (root : Outcome FilePath) where
  abbrev made : FilePath → W → Option String × W
  made p w = os.mkdir_all (dir p) w

  abbrev stored : BlobWriteRequest → FilePath → W → Option String × W
  stored input p w = os.write_file p input.content (made p w).1

  -- What a write at a path has done: nothing, where it may not write; else only the directory, if
  -- making it failed; else the directory and the file, and it succeeds just if the write did.
  abbrev pub IsDone : BlobWriteRequest → FilePath → W → Outcome BlobRef × W → Type 0
  IsDone input p w (out, v) =
      ((v ≡ w) × (is_ok out ≡ false) × (input.overwrite ≡ false) × (os.lstat w p ≢ missing))
      ⊎ (((input.overwrite ≡ true) ⊎ (os.lstat w p ≡ missing))
          × (((v ≡ (made p w).1) × (is_ok out ≡ false) × (is_none (made p w).0 ≡ false))
              ⊎ ((v ≡ (stored input p w).1)
                  × (is_ok out ≡ is_none (stored input p w).0)
                  × (is_none (made p w).0 ≡ true))))

  after_write-IsDone :
      (input : BlobWriteRequest) (p : FilePath) (rel : String) (s : Option String × W)
      → ((after_write os root input rel s).1 ≡ s.1)
        × (is_ok (after_write os root input rel s).0 ≡ is_none s.0)
  after_write-IsDone input p rel (none, w) = (refl, refl)
  after_write-IsDone input p rel (some e, w) = (refl, refl)

  after_mkdir-IsDone :
      (input : BlobWriteRequest) (p : FilePath) (rel : String) (s : Option String × W)
      → (((after_mkdir os root input p rel s).1 ≡ s.1)
          × (is_ok (after_mkdir os root input p rel s).0 ≡ false)
          × (is_none s.0 ≡ false))
        ⊎ (((after_mkdir os root input p rel s).1 ≡ (os.write_file p input.content s.1).1)
            × (is_ok (after_mkdir os root input p rel s).0
                ≡ is_none (os.write_file p input.content s.1).0)
            × (is_none s.0 ≡ true))
  after_mkdir-IsDone input p rel (some e, w) = inl (refl, refl, refl)
  after_mkdir-IsDone input p rel (none, w) =
      let written = after_write-IsDone input p rel (os.write_file p input.content w) in
      inr (written.0, written.1, refl)

  may_write-cases :
      (overwrite : Bool) (entry : Entry)
      → ((may_write os root overwrite entry ≡ ok tt) × ((overwrite ≡ true) ⊎ (entry ≡ missing)))
        ⊎ ((e : String) × (may_write os root overwrite entry ≡ err e)
            × (overwrite ≡ false)
            × (entry ≢ missing))
  may_write-cases true entry = inl (refl, inl refl)
  may_write-cases false exists = inr ("blob path already exists", refl, refl, λ h. cc)
  may_write-cases false missing = inl (refl, inr refl)
  may_write-cases false (unknown e) = inr (e, refl, refl, λ h. cc)

  write_if-IsDone :
      (input : BlobWriteRequest) (p : FilePath) (rel : String) (w : W)
      → IsDone input p w
          (write_if os root (may_write os root input.overwrite (os.lstat w p)) input p rel w)
  write_if-IsDone input p rel w = elim (may_write-cases input.overwrite (os.lstat w p)) [
    | inl o ↦ rw o.0 (inr (o.1, after_mkdir-IsDone input p rel (made p w)))
    | inr (e, refused, kept, taken) ↦ rw refused (inl (refl, refl, kept, taken))
  ]

  module _
      (clean : (w : W) (p : FilePath) → CleanReal (os.eval_symlinks w) (os.eval_symlinks w p)) where
    -- the path that resolveCreate has found for a request
    abbrev pub IsPlaceOf : BlobWriteRequest → W → FilePath → Type 0
    IsPlaceOf input w p =
        HasRoot (os.eval_symlinks w) (clean w) root (λ r. IsCreatable (os.eval_symlinks w) r p)

    write_at-cases :
        (input : BlobWriteRequest) (w : W) (found : Outcome (FilePath × String))
        → Gives (IsCreatedFrom (os.eval_symlinks w) (clean w) root) found
        → (((write_at os root input w found).1 ≡ w)
            × (is_ok (write_at os root input w found).0 ≡ false)
            × (is_ok found ≡ false))
          ⊎ ((p : FilePath) × IsPlaceOf input w p
              × IsDone input p w (write_at os root input w found))
    write_at-cases input w (err e) g = inl (refl, refl, refl)
    write_at-cases input w (ok (p, rel)) (r, at_root, c) =
        inr (p, (r, at_root, c.0), write_if-IsDone input p rel w)

    -- If filepath.EvalSymlinks gives clean paths, BlobWrite either fails with the world as it was, as
    -- resolveCreate fails, or has found a path that lies in the root by its names and whose directory
    -- lies in the root, by its real path where it is there. Then it has done nothing and fails, as
    -- something, or an error, is found at the path and it is not to be overwritten; or it fails as
    -- making the directory failed; or it has made the directory and written the content at the path,
    -- and succeeds exactly if the write did.
    pub blob_write-IsDone :
        (input : BlobWriteRequest) (w : W)
        → (((blob_write os root input w).1 ≡ w)
            × (is_ok (blob_write os root input w).0 ≡ false)
            × (is_ok (resolve_create (os.eval_symlinks w) root (blob_path input.ref input.path))
                ≡ false))
          ⊎ ((p : FilePath) × IsPlaceOf input w p × IsDone input p w (blob_write os root input w))
    unfolding blob_write
    blob_write-IsDone input w =
        let place = resolve_create (os.eval_symlinks w) root (blob_path input.ref input.path) in
        write_at-cases input w place (
          resolve_create-Gives (os.eval_symlinks w) (clean w) root (blob_path input.ref input.path))

-- the bytes that a request may be given
abbrev pub wanted : ℤ → ℕ → ℕ
wanted (pos (suc n)) size = suc n
wanted _ size = size

bounded_blob_max_bytes-bounds :
    (max : ℤ) (size : ℕ)
    → (bounded_blob_max_bytes max size ≤ hard_blob_read_max_bytes)
      × (bounded_blob_max_bytes max size ≤ wanted max size)
unfolding bounded_blob_max_bytes
bounded_blob_max_bytes-bounds (negsuc n) size = ground arith
bounded_blob_max_bytes-bounds (pos zero) size = ground arith
bounded_blob_max_bytes-bounds (pos (suc n)) size = ground arith

module _ {W : Type 0} (os : Os W) (root : Outcome FilePath) where
  -- what an answer to a read says of the request
  abbrev pub IsBounded : ℤ → BlobReadResponse → Type 0
  IsBounded max out =
      (length out.content ≤ hard_blob_read_max_bytes)
      × (length out.content ≤ wanted max out.blob.size)
      × (nat_eq (length out.content) (bounded_blob_max_bytes max out.blob.size) || not out.truncated
          ≡ true)

  read_answer-IsBounded :
      (max : ℤ) (rel : String) (size : ℕ) (bytes : Bytes)
      → IsBounded max
          (read_answer os root rel size (cut_to (bounded_blob_max_bytes max size) bytes))
  read_answer-IsBounded max rel size bytes =
      let len = length-take (bounded_blob_max_bytes max size) bytes in
      let bounds = bounded_blob_max_bytes-bounds max size in
      (omega (arith, len, bounds), omega (arith, len, bounds), ground (arith, len))

  -- An answer of BlobRead has at most 32 MiB, and at most the bytes asked for, or those of the file
  -- where no positive number is asked for; an answer marked as truncated has just as many as allowed.
  pub blob_read-IsBounded :
      (input : BlobReadRequest) (w : W) (out : BlobReadResponse)
      → (blob_read os root input w).0 ≡ ok out
      → IsBounded input.max_bytes out
  unfolding blob_read
  blob_read-IsBounded input w out h = subst (Gives (IsBounded input.max_bytes)) h (
      Gives-after (IsBounded input.max_bytes)
        (resolve_existing (os.eval_symlinks w) root (blob_path input.ref input.path)) _
        (λ place. Gives-after (IsBounded input.max_bytes) (os.stat w place.0) _ (λ info.
          elim (Bool-cases info.is_dir) [
            | inl d ↦ rw d tt
            | inr d ↦ rw d (
                Gives-after (IsBounded input.max_bytes)
                  (os.read_limited w place.0
                    (suc (bounded_blob_max_bytes input.max_bytes info.size)))
                  _ (λ content. read_answer-IsBounded input.max_bytes place.1 info.size content))
          ])))
