-- ===== src/File/Results.antt =====
-- How esio_file_create, esio_file_open and esio_file_close end, on the whole state.
use esio.Io.{PathPointer, unset, owned, dangling}
use esio.FilePath.{is_set}
use esio.Prelude.{ℤ, negsuc, eq_ℤ, ◌≡◌, refl, Bool, true, false, not, Option, arith}
use esio.Io.{Text, Handle, Machine, HandlePointer, unset}
use esio.Error.{success}
use esio.File.{set_file_id, file_create, file_open, file_close}
use esio.FilePath.{set_file_path}
use esio.File.Outcomes.{HasOpened, HasFailed}
use esio.File.Opening.{file_create-Runs, file_open-Runs}
use esio.CanonicalPath.Sharing.{IsRank}
use esio.CanonicalPath.Rounds.{free_file_path-Runs}
use esio.Io.Runs.{Runs, Ends}
use esio.Error.Runs.{runs_rules}

-- When file_create returns, either it reports success, a file is open, the handle owns a path and
-- the rest of the handle is as before, or it reports an error and at most the pointer to the path
-- has changed.
pub file_create-Ends :
    (p : HandlePointer) (file : Option Text) (overwrite : Bool) (s : Machine)
    → Ends
        (HasOpened s.handle)
        (HasFailed s.handle)
        (file_create p file overwrite s).0
        (file_create p file overwrite s).1.handle
file_create-Ends p file overwrite s = (file_create-Runs s.handle p file overwrite).at s refl

-- When file_open returns on a rank of the communicator, either it reports success, a file is open,
-- the handle owns a path and the rest of the handle is as before, or it reports an error and at
-- most the pointer to the path has changed, whatever the world outside replies.
pub file_open-Ends :
    (p : HandlePointer) (file : Option Text) (readwrite : Bool) (s : Machine)
    → IsRank s.handle
    → Ends
        (HasOpened s.handle)
        (HasFailed s.handle)
        (file_open p file readwrite s).0
        (file_open p file readwrite s).1.handle
file_open-Ends p file readwrite s rank = (file_open-Runs s.handle p file readwrite rank).at s refl

-- A handle without a file: what file_close leaves on success.
pub record HasClosed (before : Handle) (r : ℤ) (h : Handle) : Type 0 where
  pub status : r ≡ success
  pub file : eq_ℤ h.file_id (negsuc 0) ≡ true
  pub path : eq_ℤ before.file_id (negsuc 0) ≡ false → h.file_path ≡ unset

-- The handle after file_close has reported an error.
abbrev pub IsUnchanged : Handle → ℤ → Handle → Type 0
IsUnchanged before r h = (eq_ℤ r success ≡ false) × (h ≡ before)

unchanged : (h : Handle) (r : ℤ) → eq_ℤ r success ≡ false → IsUnchanged h r h
unchanged h r e = (e, refl)

nothing_open : (h : Handle) → not (eq_ℤ h.file_id (negsuc 0)) ≡ false → HasClosed h success h
nothing_open h e = record { status = refl; file = ground arith; path = λ c. absurd (ground arith) }

closed : (h : Handle) → HasClosed h success (record h { file_id = negsuc 0; file_path = unset })
closed h = record { status = refl; file = refl; path = λ _. refl }

is_set-unset : (p : PathPointer) → is_set p ≡ false → p ≡ unset
unfolding is_set
is_set-unset unset e = refl
is_set-unset (owned path) e = absurd (ground arith)
is_set-unset dangling e = absurd (ground arith)

closed_without :
    (h : Handle)
    → is_set h.file_path ≡ false
    → HasClosed h success (record h { file_id = negsuc 0 })
closed_without h e = record { status = refl; file = refl; path = λ _. is_set-unset h.file_path e }

file_close-Runs :
    (h : Handle) (p : HandlePointer) → Runs h (file_close p) (HasClosed h) (IsUnchanged h)
unfolding file_close set_file_path set_file_id
file_close-Runs h p =
    search (runs_rules, free_file_path-Runs, unchanged, nothing_open, closed, closed_without) depth
      40

-- When file_close returns, either it reports success, no file is open and the path of a file that
-- was open is reset, or it reports an error and the handle is as before.
pub file_close-Ends :
    (p : HandlePointer) (s : Machine)
    → Ends (HasClosed s.handle) (IsUnchanged s.handle) (file_close p s).0 (file_close p s).1.handle
file_close-Ends p s = (file_close-Runs s.handle p).at s refl
