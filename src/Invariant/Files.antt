-- ===== src/Invariant/Files.antt =====
-- The file operations and the handle: what they keep, and how esio_file_close ends.
use esio.Io.{PathPointer, unset, owned, dangling, Proc}
use esio.FilePath.{duplicate}
use esio.Prelude.{ℤ, ℕ, zero, suc, Bool, Option, List, [], ◌∷◌}
use esio.Io.{Text, PathPointer, Handle, HandlePointer, unset, owned, dangling}
use esio.File.{
  set_file_id, configured_fapl, file_create, file_open, on_last_rank, file_clone, file_path,
  file_flush, file_close,
}
use esio.FilePath.{duplicate}
use esio.FileCopy.{copy_loop, file_copy, copy_round}
use esio.Decomposition.{line_established, plane_established, field_established}
use esio.Handle.{handle_comm_size, handle_comm_rank}
use esio.Restart.Format.{snprintf_realloc}
use esio.Restart.Rename.{Pattern, rename_entry, shift_entries, restart_rename}
use esio.Layout.Table.{field_layout_get}
use esio.File
use esio.Io.Keeps.{Keeps}
use esio.Error.Keeps.{error_rules}

module _ {P : Handle → Type 0} where
  Keeps-copy_round :
      (src dst : ℤ) (again : Proc ℤ Unit) → Keeps P again → Keeps P (copy_round src dst again)
  unfolding copy_round
  Keeps-copy_round src dst again k = search error_rules depth 30

  Keeps-copy_loop : (fuel : ℕ) (src dst : ℤ) → Keeps P (copy_loop fuel src dst)
  unfolding copy_loop
  Keeps-copy_loop zero src dst = search error_rules
  Keeps-copy_loop (suc fuel) src dst =
      Keeps-copy_round src dst (copy_loop fuel src dst) (Keeps-copy_loop fuel src dst)

  pub Keeps-file_copy :
      (fuel : ℕ) (src dst : Text) (overwrite sync : Bool)
      → Keeps P (file_copy fuel src dst overwrite sync)
  unfolding file_copy
  Keeps-file_copy fuel src dst overwrite sync = search (error_rules, Keeps-copy_loop) depth 40

  Keeps-snprintf_realloc : (size : ℕ) (text : Text) → Keeps P (snprintf_realloc size text)
  unfolding snprintf_realloc
  Keeps-snprintf_realloc size text = search error_rules depth 40

  Keeps-rename_entry :
      (p : Pattern) (name : Text) (index : ℕ) (sizes : ℕ × ℕ)
      → Keeps P (rename_entry p name index sizes)
  unfolding rename_entry
  Keeps-rename_entry p name index sizes = search (error_rules, Keeps-snprintf_realloc) depth 40

  Keeps-shift_entries :
      (p : Pattern) (retain_count : ℕ) (names : List Text) (sizes : ℕ × ℕ)
      → Keeps P (shift_entries p retain_count names sizes)
  unfolding shift_entries
  Keeps-shift_entries p r [] sizes = search error_rules
  Keeps-shift_entries p r (name ∷ names) sizes =
      search (error_rules, Keeps-rename_entry, Keeps-shift_entries p r names) depth 30

  pub Keeps-restart_rename :
      (src template : Option Text) (retain_count : ℤ)
      → Keeps P (restart_rename src template retain_count)
  unfolding restart_rename
  Keeps-restart_rename src template r =
      search (error_rules, Keeps-shift_entries, Keeps-snprintf_realloc) depth 60

  Keeps-duplicate : (path : PathPointer) → Keeps P (duplicate path)
  unfolding duplicate
  Keeps-duplicate unset = search error_rules
  Keeps-duplicate (owned path) = search error_rules
  Keeps-duplicate dangling = search error_rules

  pub Keeps-file_path : (p : HandlePointer) → Keeps P (File.file_path p)
  unfolding File.file_path
  Keeps-file_path p = search (error_rules, Keeps-duplicate) depth 40

  pub Keeps-file_flush : (p : HandlePointer) → Keeps P (file_flush p)
  unfolding file_flush
  Keeps-file_flush p = search error_rules depth 40

  pub Keeps-comm_size : (p : HandlePointer) (wanted : Bool) → Keeps P (handle_comm_size p wanted)
  unfolding handle_comm_size
  Keeps-comm_size p wanted = search error_rules depth 40

  pub Keeps-comm_rank : (p : HandlePointer) (wanted : Bool) → Keeps P (handle_comm_rank p wanted)
  unfolding handle_comm_rank
  Keeps-comm_rank p wanted = search error_rules depth 40

  pub Keeps-layout_get : (p : HandlePointer) → Keeps P (field_layout_get p)
  unfolding field_layout_get
  Keeps-layout_get p = search error_rules depth 40

  pub Keeps-line_established :
      (p : HandlePointer) (g s l : Bool) → Keeps P (line_established p g s l)
  unfolding line_established
  Keeps-line_established p g s l = search error_rules depth 40

  pub Keeps-plane_established :
      (p : HandlePointer) (bg bs bl ag as₀ al : Bool)
      → Keeps P (plane_established p bg bs bl ag as₀ al)
  unfolding plane_established
  Keeps-plane_established p bg bs bl ag as₀ al = search error_rules depth 40

  pub Keeps-field_established :
      (p : HandlePointer) (cg cs cl bg bs bl ag as₀ al : Bool)
      → Keeps P (field_established p cg cs cl bg bs bl ag as₀ al)
  unfolding field_established
  Keeps-field_established p cg cs cl bg bs bl ag as₀ al = search error_rules depth 40
