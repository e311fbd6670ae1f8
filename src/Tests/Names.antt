-- ===== src/Tests/Names.antt =====
-- Runs on texts and buffers: schemes, restart files and the copy of a file.
use esio.Error.Messages.{is_efault, strerror-injective}
use esio.Error.{efault}
use esio.Restart.Rename.Directory.Shift.{IsPattern, name_of, shift_entries-files}
use esio.Restart.Rename.Directory.{eq_text, files_after}
use esio.Restart.Rename.{Pattern, shift_entries, destination}
use esio.Restart.Rename.Rotation.{renamings}
use esio.Restart.Format.{indexed_name, decimal}
use esio.Restart.Format.Digits.{restart_nextindex-indexed_name}
use esio.Restart.NextIndex.RoundTrip.{hashes, restart_nextindex-decimal}
use esio.Prelude.{
  pos, negsuc, ◌≡◌, refl, ◌≢◌, some, ◌∷◌, ◌++◌, arith, [], Option, none, map, inl, if◌then◌else◌,
  ◌↔◌, ◌+◌, length,
}
use esio.Io.{Text, exhausted, next}
use esio.FileCopy.{copy_loop}
use esio.FileCopy.Fuel.{copy_loop-fuel}
use esio.Restart.NextIndex.{restart_nextindex}
use esio.Uri.{scheme_prefix_len}
use esio.Uri.Scheme.{IsScheme, scheme_prefix_len_iff-IsScheme}
use esio.Tests.{reply, idle}

-- The restart file with the number 41 of the template r##.h5.
abbrev digits_of_41 : Text
digits_of_41 = b'1' ∷ []

restart_nextindex-decimal_example :
    restart_nextindex
      ((b'r' ∷ []) ++ ((b'#' ∷ b'#' ∷ []) ++ (b'.' ∷ [])))
      ((b'r' ∷ []) ++ (b'4' ∷ digits_of_41 ++ (b'.' ∷ [])))
      (negsuc 0)
    ≡ pos 42
restart_nextindex-decimal_example =
    restart_nextindex-decimal (b'r' ∷ []) (b'.' ∷ []) digits_of_41 b'4' 1 (negsuc 0) (ground arith)
      (refl, tt) (ground arith) (ground arith) (ground arith)

copy_loop-fuel_example : (copy_loop 1 (pos 3) (pos 4) idle).0 ≢ exhausted
unfolding reply
copy_loop-fuel_example = copy_loop-fuel 1 0 (pos 3) (pos 4) idle (λ calls le. refl) (ground arith)

scheme_prefix_len_iff-IsScheme_example :
    (scheme_prefix_len (some (b'n' ∷ b':' ∷ b'/' ∷ [])) ≡ 2) ↔ (
      (scheme : Text) × (rest : Text) × ((b'n' ∷ b':' ∷ b'/' ∷ []) ≡ scheme ++ b':' ∷ rest)
      × IsScheme scheme
      × (2 ≡ length scheme + 1))
scheme_prefix_len_iff-IsScheme_example =
    scheme_prefix_len_iff-IsScheme (b'n' ∷ b':' ∷ b'/' ∷ []) 2 (ground arith)

restart_nextindex-indexed_name_example :
    restart_nextindex
      ((b'r' ∷ []) ++ (hashes 2 ++ (b'.' ∷ [])))
      (indexed_name (b'r' ∷ []) 4 7 (b'.' ∷ []))
      (negsuc 0)
    ≡ pos 8
restart_nextindex-indexed_name_example =
    restart_nextindex-indexed_name (b'r' ∷ []) (b'.' ∷ []) 1 4 7 (negsuc 0) (refl, tt) (refl, tt)
      refl (ground arith)

-- The template r#.h with two files in its directory.
abbrev template : Pattern
template = record {
  tmpl_dirname = b'd' ∷ [];
  tmpl_basename = b'r' ∷ b'#' ∷ b'.' ∷ b'h' ∷ [];
  prefix = b'r' ∷ [];
  ndigits = 1;
  suffix = b'.' ∷ b'h' ∷ [];
}

-- The same directory by its indices.
abbrev contents : Text → Option Text
contents path = if eq_text path (destination template 1) then some (b'x' ∷ []) else none

template-IsPattern : IsPattern template
template-IsPattern = record {
  more_hashes = 0;
  template = refl;
  no_hash = (refl, (refl, tt));
  no_digit = refl;
}

by_index-returns :
    (shift_entries template 3 (map (name_of template) (1 ∷ 0 ∷ [])) (100, 100) idle).0
    ≡ next (100, 100)
unfolding shift_entries reply restart_nextindex indexed_name decimal
by_index-returns = refl

shift_entries-files_example :
    files_after
      (renamings
        (shift_entries template 3 (map (name_of template) (1 ∷ 0 ∷ [])) (100, 100) idle).1.calls)
      contents
      (destination template 2)
    ≡ contents (destination template 1)
shift_entries-files_example =
    shift_entries-files template 3 (1 ∷ 0 ∷ []) 1 (100, 100) (100, 100) idle contents
      template-IsPattern (omega arith) (omega arith) (inl refl) (omega arith) by_index-returns

strerror-injective_example : efault ≡ efault
strerror-injective_example = strerror-injective efault efault is_efault refl
