-- ===== src/Tests/Renaming.antt =====
-- A run of the whole of restart_rename on a directory with two files.
use esio.Prelude.{ℤ, pos, ◌≡◌, refl, some, List, [], ◌∷◌, arith, ◌<◌}
use esio.Io.{Text, Call, Machine, malloc, realloc, next}
use esio.Error.{success}
use esio.Restart.Rename.{restart_rename}
use esio.Restart.Rename.Rotation.{renamings}
use esio.Restart.Rename.Permitted.{Permits}
use esio.Restart.Rename.Whole.{pattern_of, rotated, restart_rename-rotated}
use esio.Restart.Format.{count_hashes, from_hash, after_hashes}
use esio.Tests.{idle}

abbrev two_files : List Text
two_files = (b'r' ∷ b'0' ∷ b'.' ∷ b'h' ∷ []) ∷ (b'r' ∷ b'1' ∷ b'.' ∷ b'h' ∷ []) ∷ []

-- Memory is available, and all else succeeds with zero.
permitting_reply : Call → ℤ
permitting_reply (malloc size) = pos 1
permitting_reply (realloc size) = pos 1
permitting_reply c = pos 0

abbrev permitting : Machine
permitting = record idle {
  env = record idle.env {
    status = λ calls c. permitting_reply c;
    entries = λ calls c. two_files;
    ceil_log10 = λ n. 1;
  };
}

permits : Permits permitting.env two_files
unfolding permitting_reply
permits = record {
  found = λ calls path. refl;
  allocates = λ calls size. refl;
  grows = λ calls size. refl;
  prints = λ calls text size. refl;
  scans = λ calls dir. refl;
  lists = λ calls dir. refl;
  renames = λ calls src dst. refl;
}

abbrev source : Text
source = b'n' ∷ []

-- The template r#.h.
abbrev template : Text
template = b'r' ∷ b'#' ∷ b'.' ∷ b'h' ∷ []

one_hash : 0 < count_hashes (from_hash template)
unfolding count_hashes from_hash
one_hash = omega arith

no_other_hash : count_hashes (from_hash (after_hashes (from_hash template))) ≡ 0
unfolding count_hashes from_hash after_hashes
no_other_hash = refl

restart_rename-rotated_example :
    ((restart_rename (some source) (some template) (pos 3) permitting).0 ≡ next success)
    × (renamings (restart_rename (some source) (some template) (pos 3) permitting).1.calls
        ≡ rotated two_files source (pattern_of permitting.env template 3) 3 [])
restart_rename-rotated_example =
    restart_rename-rotated permitting two_files source template 3 permits (omega arith) one_hash
      no_other_hash
