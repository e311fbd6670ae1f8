-- ===== src/CanonicalPath.antt =====
-- How esio_file_open of esio/esio.c finds the canonical path of a file on its last rank and shares
-- it with the others.
pub mod Rounds
pub mod Sharing
use esio.Prelude.{
  ℤ, pos, negsuc, eq_ℤ, ltb_ℤ, ◌+ℤ◌, ℕ, Bool, not, Option, none, some, List, [], ◌∷◌, ltb, ◌==◌,
  if◌then◌else◌, length, get_or,
}
use esio.Io.{
  Text, PathPointer, HandlePointer, mpi_allreduce_sum, mpi_allreduce_max, mpi_bcast, mpi_bcast_path,
  malloc, canonicalize_file_name, strdup, pclose, fcreate, fopen, fflush, fflush_global, fclose,
  unset, owned, dangling, Proc, pure, return, undefined, modify_handle, get_handle, external,
  ignore, external_text, external_stored, external_received, ◌>>=◌, ◌>>◌, invoke, when, is_null,
  is_none, next, fault,
}
use esio.Error.{
  success, efault, einval, efailed, esanity, enomem, error, fail_val, fail, fail_if, fail_val_if,
  require, mpichk_result,
}
use esio.Plist.{h5p_file_access_create, configure_metadata_caching}
use esio.FileCopy.{file_copy}
use esio.Uri.{scheme_prefix_len}
use esio.FilePath.{set_file_path, is_set, free_file_path, without_scheme}

abbrev pub or_empty : Option Text → Text
or_empty none = []
or_empty (some path) = path

-- The array `buf` of esio_file_open.
pub record Agreement : Type 0 where
  pub path_length : ℤ
  pub status : ℤ
  pub line : ℤ

abbrev pub entry : List ℤ → ℕ → ℤ
entry stored i = get_or stored i (pos 0)

abbrev agreement_of : List ℤ → Agreement
agreement_of stored = record {
  path_length = entry stored 0;
  status = entry stored 1;
  line = entry stored 2;
}

abbrev as_list : Agreement → List ℤ
as_list buf = buf.path_length ∷ buf.status ∷ buf.line ∷ []

-- What the last rank does with its copy of the canonical path `s`.
unfoldable pub keep_copy : Agreement → Text → Option Text → Proc ℤ Agreement
unfolding set_file_path
keep_copy buf s none = do set_file_path unset; pure (record buf { status = enomem; line = pos 603 })
keep_copy buf s (some copy) = do
  set_file_path (owned copy)
  pure (
      if length s == 0
      then record { path_length = pos 0; status = esanity; line = pos 607 }
      else record buf { path_length = pos (length s) })

unfoldable pub duplicate_canonical : Agreement → Option Text → Proc ℤ Agreement
unfolding keep_copy
duplicate_canonical buf none = pure (record buf { status = efailed; line = pos 599 })
duplicate_canonical buf (some s) = do copy ← external_text (strdup s); keep_copy buf s copy

-- The last rank finds the canonical path, duplicates it and measures it.
unfoldable pub canonicalize_on_worker : Text → Agreement → Proc ℤ Agreement
unfolding without_scheme duplicate_canonical
canonicalize_on_worker file buf = do
  s ← external_text (canonicalize_file_name (without_scheme file))
  duplicate_canonical buf s

-- A collective call that fills `buf`: on its root the values stay.
unfoldable pub bcast_agreement : Bool → Agreement → Proc ℤ Agreement
bcast_agreement is_worker buf = do
  (status, stored) ← external_stored (mpi_bcast (as_list buf))
  mpichk_result status efailed
  pure (if is_worker then buf else agreement_of stored)

unfoldable pub reduce_agreement : Agreement → Proc ℤ Agreement
reduce_agreement buf = do
  (status, stored) ← external_stored (mpi_allreduce_max (as_list buf))
  mpichk_result status efailed
  pure (agreement_of stored)

-- The values of `buf` before the ranks agree.
abbrev pub initial : Agreement
initial = record { path_length = negsuc 0; status = success; line = negsuc 0 }

-- `if (h->file_path == NULL) buf[1] = ESIO_ENOMEM;`
unfoldable pub note_missing : PathPointer → Agreement → Agreement
note_missing path buf = if is_set path then buf else record buf { status = enomem }

-- `if (buf[1] != ESIO_SUCCESS) …` after the first broadcast: the last rank reports.
unfoldable pub stop_if_unknown : Bool → Agreement → Proc ℤ Unit
unfolding free_file_path
stop_if_unknown is_worker buf = when (not (eq_ℤ buf.status success)) do
  when is_worker do invoke (error buf.status); free_file_path
  return buf.status

-- The memory for the path that is to come.
unfoldable pub reserve : Agreement → Proc ℤ Unit
unfolding set_file_path
reserve buf = do
  memory ← external (malloc (buf.path_length +ℤ pos 1))
  set_file_path (if eq_ℤ memory (pos 0) then unset else owned [])

-- The same test after the reduction.
unfoldable pub stop_if_missing : PathPointer → Agreement → Proc ℤ Unit
unfolding free_file_path is_set
stop_if_missing path buf =
    when (not (eq_ℤ buf.status success))
      do when (not (is_set path)) (invoke (error enomem)); free_file_path; return buf.status

-- The broadcast of the path itself.
unfoldable pub receive_path : Bool → Proc ℤ Unit
unfolding set_file_path
receive_path is_receiver = do
  (received, path) ← external_received mpi_bcast_path
  mpichk_result received efailed
  when is_receiver (set_file_path (owned (or_empty path)))

-- The ranks learn whether all of them have memory for the path, and receive it.
unfoldable pub settle : Bool → Agreement → Proc ℤ Unit
unfolding reduce_agreement note_missing stop_if_missing receive_path
settle is_receiver buf = do
  h ← get_handle
  buf ← reduce_agreement (note_missing h.file_path buf)
  stop_if_missing h.file_path buf
  receive_path is_receiver

-- The rounds of communication that follow, where a receiver is a rank before the last one.
unfoldable pub agree_on_path : Bool → Bool → Agreement → Proc ℤ Unit
unfolding bcast_agreement stop_if_unknown reserve settle
agree_on_path is_worker is_receiver buf = do
  buf ← bcast_agreement is_worker buf
  stop_if_unknown is_worker buf
  when is_receiver (reserve buf)
  settle is_receiver buf

-- All ranks agree on the canonical path; every return before the end leaves `file_id` as it was.
unfoldable pub share_canonical_path : Text → Proc ℤ Unit
unfolding canonicalize_on_worker agree_on_path
share_canonical_path file = do
  h ← get_handle
  let is_worker = eq_ℤ (h.comm_rank +ℤ pos 1) h.comm_size
  let is_receiver = ltb_ℤ (h.comm_rank +ℤ pos 1) h.comm_size
  buf ← (if is_worker then canonicalize_on_worker file initial else pure initial)
  agree_on_path is_worker is_receiver buf
