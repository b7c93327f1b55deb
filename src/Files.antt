-- ===== src/Files.antt =====
-- A JSON file that a registry of the package `runtime` loads and rewrites: the decoded content, or
-- why there is none. Encoding and decoding by encoding/json are taken to be inverse, so a file that
-- was written holds the value that was written.
use fluxplane_dex.Prelude.{String, ◌≡◌, refl, Option, none, some}
use mathlib.Core.Path.{subst}
use fluxplane_dex.Prelude.Outcome.{Outcome, ok, err, ok-injective}

pub data File (R : Type 0) : Type 0 where
  absent : File R
  unreadable : String → File R
  malformed : String → File R
  holds : R → File R

-- What the operating system makes of os.MkdirAll and os.WriteFile: the value is written, the
-- directory cannot be made and the file stays, or the write fails and leaves the file in any state.
pub data Disk (R : Type 0) : Type 0 where
  written : Disk R
  no_directory : String → Disk R
  write_failed : String → File R → Disk R

-- os.ReadFile and json.Unmarshal: a file that does not exist holds the empty registry.
abbrev pub read : {R : Type 0} → R → File R → Outcome R
read empty absent = ok empty
read empty (unreadable e) = err e
read empty (malformed e) = err e
read empty (holds r) = ok r

-- The file after a write, and the error that the write returns.
abbrev pub after_write : {R : Type 0} → Disk R → R → File R → File R
after_write written r f = holds r
after_write (no_directory e) r f = f
after_write (write_failed e g) r f = g

abbrev pub write_error : {R : Type 0} → Disk R → Option String
write_error written = none
write_error (no_directory e) = some e
write_error (write_failed e g) = some e

-- A handler that ends in a write: the value to write and its result, or an error with no write.
pub data Plan (R A : Type 0) : Type 0 where
  stop : Outcome A → Plan R A
  save : R → A → Plan R A

abbrev finish : {A : Type 0} → Option String → A → Outcome A
finish none a = ok a
finish (some e) a = err e

-- Runs a plan: the file afterwards, and what the handler returns.
abbrev pub run : {R A : Type 0} → Disk R → Plan R A → File R → Outcome A × File R
run disk (stop out) f = (out, f)
run disk (save r a) f = (finish (write_error disk) a, after_write disk r f)

infixl 5 ◌>>=◌ ◌>>◌
abbrev pub ◌>>=◌ : {R A B : Type 0} → Outcome A → (A → Plan R B) → Plan R B
ok a >>= f = f a
err e >>= f = stop (err e)

abbrev pub ◌>>◌ : {R B : Type 0} → Outcome (Unit {0}) → Plan R B → Plan R B
m >> p = m >>= λ _. p

-- a check of a library that returns an error or nothing
abbrev pub check : Option String → Outcome (Unit {0})
check none = ok tt
check (some e) = err e

-- A write that fails leaves the file as it was.
abbrev pub IsAtomic : {R : Type 0} → Disk R → Type 0
IsAtomic written = Unit
IsAtomic (no_directory e) = Unit
IsAtomic (write_failed e g) = ⊥

-- A handler that fails on such a disk has changed nothing.
pub run-err :
    {R A : Type 0} (disk : Disk R) (p : Plan R A) (f : File R) (e : String)
    → IsAtomic disk
    → (run disk p f).0 ≡ err e
    → (run disk p f).1 ≡ f
run-err disk (stop out) f e a h = refl
run-err written (save r x) f e a h = cc
run-err (no_directory m) (save r x) f e a h = refl
run-err (write_failed m g) (save r x) f e a h = absurd a

-- What holds of the file and of every value that a plan writes holds afterwards.
abbrev pub Writes : {R A : Type 0} → (R → Type 0) → Plan R A → Type 0
Writes P (stop out) = Unit
Writes P (save r a) = P r

abbrev pub FileHolds : {R : Type 0} → (R → Type 0) → File R → Type 0
FileHolds P (holds r) = P r
FileHolds P _ = Unit

pub run-FileHolds :
    {R A : Type 0} (P : R → Type 0) (disk : Disk R) (p : Plan R A) (f : File R)
    → IsAtomic disk
    → Writes P p
    → FileHolds P f
    → FileHolds P (run disk p f).1
run-FileHolds P disk (stop out) f a w h = h
run-FileHolds P written (save r x) f a w h = w
run-FileHolds P (no_directory m) (save r x) f a w h = h
run-FileHolds P (write_failed m g) (save r x) f a w h = absurd a

pub Writes-bind :
    {R A B : Type 0} (P : R → Type 0) (m : Outcome A) (k : A → Plan R B)
    → ((a : A) → m ≡ ok a → Writes P (k a))
    → Writes P (m >>= k)
Writes-bind P (ok a) k h = h a refl
Writes-bind P (err e) k h = tt

pub Writes-check :
    {R B : Type 0} (P : R → Type 0) (o : Option String) (p : Plan R B)
    → (o ≡ none → Writes P p)
    → Writes P (check o >> p)
Writes-check P none p h = h refl
Writes-check P (some e) p h = tt

-- What holds of a file's registry holds of what is read from it.
pub read-holds :
    {R : Type 0} (P : R → Type 0) (empty : R) (f : File R) (r : R)
    → P empty
    → FileHolds P f
    → read empty f ≡ ok r
    → P r
read-holds P empty absent r e h l = subst P (ok-injective l) e
read-holds P empty (holds s) r e h l = subst P (ok-injective l) h
read-holds P empty (unreadable m) r e h l = cc
read-holds P empty (malformed m) r e h l = cc
