-- ===== src/File/Opening.antt =====
-- What esio_file_create and esio_file_open leave in the handle.
use esio.Prelude.{refl}
use esio.CanonicalPath.Sharing.{share_canonical_path-Runs, IsRank}
use esio.FilePath.{set_file_path, keep_path}
use esio.Io.{owned, is_null}
use esio.Prelude.{ℤ, Bool, Option, none, some, eq_ℤ, negsuc, ◌≡◌, false, not, arith}
use esio.Io.{Text, Handle, HandlePointer, owned, Proc, ◌>>=◌}
use esio.File.{file_create, set_file_id, file_open, fail_if, einval, efault, success}
use esio.Io.Runs.{Runs, Runs-get_handle_bind}
use esio.Error.Runs.{runs_rules, Runs-fail_if_bind}
use esio.File.Outcomes.{HasOpened, HasFailed, HasOpened-now, HasFailed-now, configured_fapl-Runs}

keep_path-Runs :
    {Q : ℤ → Handle → Type 0} (h : Handle) (path : Option Text) (f : Unit → Proc ℤ ℤ)
    → ((p : Text) → Runs (record h { file_path = owned p }) (f tt) Q (HasFailed h))
    → Runs h (keep_path path >>= f) Q (HasFailed h)
unfolding keep_path set_file_path
keep_path-Runs h none f k = search (runs_rules, HasFailed-now)
keep_path-Runs h (some p) f k = search runs_rules

pub file_create-Runs :
    (h : Handle) (p : HandlePointer) (file : Option Text) (ow : Bool)
    → Runs h (file_create p file ow) (HasOpened h) (HasFailed h)
unfolding file_create set_file_id
file_create-Runs h p file ow =
    search (runs_rules, configured_fapl-Runs, keep_path-Runs, HasFailed-now, HasOpened-now) depth 80

pub file_open-Runs :
    (h : Handle) (p : HandlePointer) (file : Option Text) (rw' : Bool)
    → IsRank h
    → Runs h (file_open p file rw') (HasOpened h) (HasFailed h)
unfolding file_open set_file_id
file_open-Runs h p file rw' rank =
    search
      (runs_rules, configured_fapl-Runs, share_canonical_path-Runs, HasFailed-now, HasOpened-now)
      depth 80

-- A second file is refused, and the handle is left alone.
abbrev pub IsRefused : Handle → ℤ → Handle → Type 0
IsRefused before r h = (eq_ℤ r success ≡ false) × (h ≡ before)

refused :
    (h : Handle) (f : Unit → Proc ℤ ℤ)
    → eq_ℤ h.file_id (negsuc 0) ≡ false
    → Runs h (fail_if (not (eq_ℤ h.file_id (negsuc 0))) einval >>= f) (λ _ _. ⊥) (IsRefused h)
refused h f e =
    Runs-fail_if_bind (not (eq_ℤ h.file_id (negsuc 0))) einval f (λ _. (refl, refl))
      (λ c. absurd (ground arith))

pub file_create-IsRefused :
    (h : Handle) (p : HandlePointer) (file : Option Text) (overwrite : Bool)
    → eq_ℤ h.file_id (negsuc 0) ≡ false
    → Runs h (file_create p file overwrite) (λ _ _. ⊥) (IsRefused h)
unfolding file_create
file_create-IsRefused h p file ow e =
    search (Runs-fail_if_bind (is_null p) efault, Runs-get_handle_bind, refused)

pub file_open-IsRefused :
    (h : Handle) (p : HandlePointer) (file : Option Text) (readwrite : Bool)
    → eq_ℤ h.file_id (negsuc 0) ≡ false
    → Runs h (file_open p file readwrite) (λ _ _. ⊥) (IsRefused h)
unfolding file_open
file_open-IsRefused h p file ow e =
    search (Runs-fail_if_bind (is_null p) efault, Runs-get_handle_bind, refused)
