-- ===== src/Restart/Rename.antt =====
-- `restart_rename` of esio/restart-rename.c: every restart file moves up by one index, and the
-- source file becomes index zero.
pub mod Rotation
pub mod Directory
pub mod Permitted
pub mod Whole
use mathlib.Core.List.{reverse}
use esio.Prelude.{
  ℤ, pos, negsuc, pos_part, is_neg, ltb_ℤ, is_zero, ℕ, ◌+◌, ◌-◌, ◌*◌, not, ◌&&◌, Option, List, [],
  ◌∷◌, ltb, ◌==◌, if◌then◌else◌, length,
}
use esio.Io.{Text, malloc, stat, scandir, rename, Proc, pure, gets, external, ◌>>=◌, ◌>>◌, invoke}
use esio.Error.{success, efault, einval, efailed, enomem, fail_if, require}
use esio.Restart.NextIndex.{restart_nextindex}
use esio.Restart.Format.{
  before_hash, from_hash, count_hashes, after_hashes, join, indexed_name, snprintf_realloc,
}
use esio.Restart.NextIndex.{int_max}

abbrev min_ℕ : ℕ → ℕ → ℕ
min_ℕ a b = if ltb a b then a else b

abbrev max_ℕ : ℕ → ℕ → ℕ
max_ℕ a b = if ltb b a then a else b

-- The parts of the template that the renaming needs.
pub record Pattern : Type 0 where
  pub tmpl_dirname : Text
  pub tmpl_basename : Text
  pub prefix : Text
  pub ndigits : ℕ
  pub suffix : Text

-- Enough digits for the retained files, and at most those of INT_MAX - 1.
unfoldable pub width_for : (ℕ → ℕ) → ℕ → ℕ → ℕ
width_for ceil_log10 hashes retain_count =
    max_ℕ (min_ℕ hashes (ceil_log10 (int_max - 1)))
      (if retain_count == 1 then 1 else ceil_log10 (retain_count - 1))

-- The names that scandir keeps: its filter is `restart_nextindex` with 0 for an error.
unfoldable pub matching : Text → List Text → List Text
unfolding restart_nextindex
matching tmpl [] = []
matching tmpl (name ∷ names) =
    if is_zero (restart_nextindex tmpl name (pos 0))
    then matching tmpl names
    else name ∷ matching tmpl names

unfoldable pub destination : Pattern → ℕ → Text
unfolding join indexed_name
destination p index = join p.tmpl_dirname (indexed_name p.prefix p.ndigits index p.suffix)

-- The body of the loop for an entry that moves to index `next`. The sizes of the two buffers go
-- from one round to the next.
unfoldable pub rename_entry : Pattern → Text → ℕ → ℕ × ℕ → Proc ℤ (ℕ × ℕ)
unfolding snprintf_realloc destination join fail_if
rename_entry p name index (srclen, dstlen) = do
  (src, srclen) ← invoke (snprintf_realloc srclen (join p.tmpl_dirname name))
  fail_if (is_neg src) enomem
  (dst, dstlen) ← invoke (snprintf_realloc dstlen (destination p index))
  fail_if (is_neg dst) enomem
  renamed ← external (rename (join p.tmpl_dirname name) (destination p index))
  fail_if (not (is_zero renamed)) efailed
  pure (srclen, dstlen)

-- The loop `while (n--)`, on the entries in the order in which it visits them.
unfoldable pub shift_entries : Pattern → ℕ → List Text → ℕ × ℕ → Proc ℤ (ℕ × ℕ)
unfolding rename_entry
shift_entries p retain_count [] sizes = pure sizes
shift_entries p retain_count (name ∷ names) sizes =
    let index = restart_nextindex p.tmpl_basename name (negsuc 0) in
    (if ltb_ℤ (pos 0) index && ltb_ℤ index (pos retain_count)
      then rename_entry p name (pos_part index) sizes
      else pure sizes)
    >>= shift_entries p retain_count names

-- The template is split, and refused if it has no hash or two runs of hashes.
split_template : Text → ℕ → Proc ℤ Pattern
unfolding before_hash from_hash count_hashes after_hashes width_for fail_if
split_template dst_template retain_count = do
  env ← gets (λ s. s.env)
  let basename = env.basename dst_template
  fail_if (count_hashes (from_hash basename) == 0) einval
  let suffix = after_hashes (from_hash basename)
  fail_if (not (count_hashes (from_hash suffix) == 0)) einval
  pure (record {
    tmpl_dirname = env.dirname dst_template;
    tmpl_basename = basename;
    prefix = before_hash basename;
    ndigits = width_for env.ceil_log10 (count_hashes (from_hash basename)) retain_count;
    suffix = suffix;
  })

-- `scandir`, whose result is the number of entries or negative, with the filter applied.
scan : Pattern → Proc ℤ (List Text)
unfolding matching fail_if
scan p = do
  names ← gets (λ s. s.env.entries s.calls (scandir p.tmpl_dirname))
  n ← external (scandir p.tmpl_dirname)
  fail_if (is_neg n) efailed
  pure (matching p.tmpl_basename names)

unfoldable pub restart_rename : Option Text → Option Text → ℤ → Proc ℤ ℤ
unfolding split_template scan shift_entries destination snprintf_realloc fail_if require
restart_rename src_filepath dst_template retain_count = do
  src ← require src_filepath efault efault
  template ← require dst_template efault efault
  fail_if (ltb_ℤ retain_count (pos 1)) einval
  found ← external (stat src)
  fail_if (is_neg found) efailed
  buffer ← external (malloc (pos (3 * (length template + 1))))
  fail_if (is_zero buffer) enomem
  p ← split_template template (pos_part retain_count)
  names ← scan p
  (srclen, dstlen) ← shift_entries p (pos_part retain_count) (reverse names) (0, 0)
  (dst, dstlen) ← invoke (snprintf_realloc dstlen (destination p 0))
  fail_if (is_neg dst) enomem
  renamed ← external (rename src (destination p 0))
  fail_if (not (is_zero renamed)) efailed
  pure success
