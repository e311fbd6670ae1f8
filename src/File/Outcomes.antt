-- ===== src/File/Outcomes.antt =====
-- How esio_file_create and esio_file_open end, and what they have in common.
use esio.Prelude.{refl}
use esio.Io.{owned}
use esio.Prelude.{ℤ, is_neg, eq_ℤ, ◌≡◌, refl, false, not, true, arith}
use esio.Io.{Text, Handle, owned, Proc, ◌>>=◌}
use esio.Error.{success}
use esio.File.{configured_fapl}
use esio.Io.Runs.{Runs}
use esio.Error.Runs.{runs_rules}
use esio.Plist.{h5p_file_access_create, configure_metadata_caching}
use esio.Io.Keeps.{Keeps}
use esio.Error.Keeps.{error_rules}

module _ {P : Handle → Type 0} where
  Keeps-fapl_create : Keeps P h5p_file_access_create
  unfolding h5p_file_access_create
  Keeps-fapl_create = search error_rules depth 30

  Keeps-metadata_caching : (id : ℤ) → Keeps P (configure_metadata_caching id)
  unfolding configure_metadata_caching
  Keeps-metadata_caching id = search error_rules depth 30

-- A function returned success: the file is open, the handle owns its path, and all else is as
-- before.
pub record HasOpened (before : Handle) (r : ℤ) (h : Handle) : Type 0 where
  pub status : r ≡ success
  pub file : is_neg h.file_id ≡ false
  pub path : Text
  pub owns : h.file_path ≡ owned path
  pub same : record h { file_id = before.file_id; file_path = before.file_path } ≡ before

-- A function returned an error, and changed nothing but the pointer to the path.
pub record HasFailed (before : Handle) (r : ℤ) (h : Handle) : Type 0 where
  pub status : eq_ℤ r success ≡ false
  pub same : record h { file_path = before.file_path } ≡ before

pub HasOpened-now :
    (h : Handle) (id : ℤ) (path : Text)
    → is_neg id ≡ false
    → HasOpened h success (record h { file_id = id; file_path = owned path })
HasOpened-now h id path e = record {
  status = refl;
  file = e;
  path = path;
  owns = refl;
  same = refl;
}

pub HasFailed-now :
    (h h' : Handle) (r : ℤ)
    → eq_ℤ r success ≡ false
    → record h' { file_path = h.file_path } ≡ h
    → HasFailed h r h'
HasFailed-now h h' r e e' = record { status = e; same = e' }

pub HasFailed-not :
    (h h' : Handle) (r : ℤ)
    → not (eq_ℤ r success) ≡ true
    → record h' { file_path = h.file_path } ≡ h
    → HasFailed h r h'
HasFailed-not h h' r e e' = record { status = ground arith; same = e' }

pub configured_fapl-Runs :
    {Q : ℤ → Handle → Type 0} {h : Handle} (f : ℤ → Proc ℤ ℤ)
    → ((id : ℤ) → Runs h (f id) Q (HasFailed h))
    → Runs h (configured_fapl >>= f) Q (HasFailed h)
unfolding configured_fapl
configured_fapl-Runs f k =
    search (runs_rules, error_rules, Keeps-fapl_create, Keeps-metadata_caching, HasFailed-now) depth
      80
