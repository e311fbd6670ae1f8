-- ===== src/Restart/Rename/Whole.antt =====
-- The whole of restart_rename, esio/restart-rename.c, where the C library grants what it asks for.
use esio.Prelude.{
  ℤ, pos, is_neg, ltb_ℤ, is_zero, ℕ, ◌+◌, ◌*◌, ◌<◌, ◌≡◌, refl, ap, ◌∙◌, inl, inr, true, false, not,
  some, List, ◌∷◌, arith, ltb, ◌==◌, ltb→lt, ==_iff, Bool-cases, length,
}
use esio.Io.{
  Text, Env, Machine, malloc, stat, scandir, rename, Proc, pure, gets, external, ◌>>=◌, ◌>>◌,
  invoke, next,
}
use mathlib.Core.List.{reverse}
use esio.Error.{success, einval, efailed, enomem, fail_if, require}
use esio.Restart.Format.{before_hash, from_hash, count_hashes, after_hashes, snprintf_realloc}
use esio.Restart.Rename.{
  Pattern, destination, shift_entries, split_template, scan, matching, width_for, restart_rename,
}
use esio.Restart.Rename.Rotation.{moves, renamings}
use esio.Restart.Rename.Permitted.{
  Permits, Does, Does-bind, Does-then, Does-pure, Does-fail_if, Does-external,
  Does-snprintf_realloc, Does-shift_entries,
}

-- The parts of a template.
abbrev pub pattern_of : Env → Text → ℕ → Pattern
pattern_of env template retain_count =
    let basename = env.basename template in
    record {
      tmpl_dirname = env.dirname template;
      tmpl_basename = basename;
      prefix = before_hash basename;
      ndigits = width_for env.ceil_log10 (count_hashes (from_hash basename)) retain_count;
      suffix = after_hashes (from_hash basename);
    }

-- The files that are retained move up, and the source takes index zero. The last renaming is first.
abbrev pub rotated : List Text → Text → Pattern → ℕ → List (Text × Text) → List (Text × Text)
rotated names src p retain_count before =
    (src, destination p 0) ∷ moves p retain_count (reverse (matching p.tmpl_basename names)) before

-- What follows the scan of the directory, and the split of the template.
abbrev finish_scanned : Text → ℕ → Pattern → List Text → Proc ℤ ℤ
finish_scanned src retain_count p names = do
  (srclen, dstlen) ← shift_entries p retain_count (reverse names) (0, 0)
  (dst, dstlen) ← invoke (snprintf_realloc dstlen (destination p 0))
  fail_if (is_neg dst) enomem
  renamed ← external (rename src (destination p 0))
  fail_if (not (is_zero renamed)) efailed
  pure success

abbrev finish : Text → ℕ → Pattern → Proc ℤ ℤ
finish src retain_count p = scan p >>= finish_scanned src retain_count p

module _ {s : Machine} {names : List Text} (permits : Permits s.env names) where
  Does-scan : (p : Pattern) → Does s (λ b. b) (scan p) (λ l. l ≡ matching p.tmpl_basename names)
  unfolding scan
  Does-scan p =
      Does-bind _ _ (gets (λ s. s.env.entries s.calls (scandir p.tmpl_dirname))) _ (λ l. l ≡ names)
        _
        (record {
          does = λ calls. (
            s.env.entries calls (scandir p.tmpl_dirname),
            calls,
            refl,
            refl,
            permits.lists calls p.tmpl_dirname,
          );
        })
        λ l listed.
          Does-bind _ _ _ _ _ _
            (Does-external (scandir p.tmpl_dirname) (λ r. is_neg r ≡ false)
              (λ calls. permits.scans calls p.tmpl_dirname))
            λ n e.
              Does-bind _ _ _ _ _ _ (Does-fail_if (is_neg n) efailed e) λ u v.
                Does-pure (matching p.tmpl_basename l) _ (ap (matching p.tmpl_basename) listed)

  Does-split_template :
      (template : Text) (retain_count : ℕ)
      → count_hashes (from_hash (s.env.basename template)) == 0 ≡ false
      → count_hashes (from_hash (after_hashes (from_hash (s.env.basename template)))) == 0 ≡ true
      → Does s
          (λ b. b)
          (split_template template retain_count)
          (λ p. p ≡ pattern_of s.env template retain_count)
  unfolding split_template
  Does-split_template template retain_count hashed once =
      Does-bind _ _ (gets (λ s. s.env)) _ (λ env. env ≡ s.env) _
        (record { does = λ calls. (s.env, calls, refl, refl, refl) })
        λ env same.
          Does-bind _ _ _ _ _ _
            (Does-fail_if (count_hashes (from_hash (env.basename template)) == 0) einval (
              ap (λ (env : Env). count_hashes (from_hash (env.basename template)) == 0) same
              ∙ hashed))
            λ u v.
              Does-bind _ _ _ _ _ _
                (Does-fail_if
                  (not (
                    count_hashes (from_hash (after_hashes (from_hash (env.basename template))))
                    == 0))
                  einval
                  (ap
                      (λ (env : Env). not (
                        count_hashes (from_hash (after_hashes (from_hash (env.basename template))))
                        == 0))
                      same
                    ∙ ap not once))
                λ u v. Does-pure _ _ (ap (λ (env : Env). pattern_of env template retain_count) same)

  Does-finish :
      (src : Text) (retain_count : ℕ) (p : Pattern)
      → Does s (rotated names src p retain_count) (finish src retain_count p) (λ r. r ≡ success)
  Does-finish src retain_count p =
      Does-then _ _ (scan p) (finish_scanned src retain_count p) (matching p.tmpl_basename names) _
        (Does-scan p)
        (Does-bind _ _ _ _ _ _
          (Does-shift_entries permits p retain_count (reverse (matching p.tmpl_basename names))
            (0, 0))
          λ sizes u.
            Does-bind _ _ _ _ _ _ (Does-snprintf_realloc permits sizes.1 (destination p 0)) λ dst f.
              Does-bind _ _ _ _ _ _ (Does-fail_if (is_neg dst.0) enomem f) λ u v.
                Does-bind _ _ _ _ _ _
                  (Does-external (rename src (destination p 0)) (λ r. not (is_zero r) ≡ false)
                    (λ calls. ap not (permits.renames calls _ _)))
                  λ r g.
                    Does-bind _ _ _ _ _ _ (Does-fail_if (not (is_zero r)) efailed g)
                      λ u v. Does-pure success _ refl)

  Does-restart_rename :
      (src template : Text) (retain_count : ℕ)
      → 0 < retain_count
      → count_hashes (from_hash (s.env.basename template)) == 0 ≡ false
      → count_hashes (from_hash (after_hashes (from_hash (s.env.basename template)))) == 0 ≡ true
      → Does s
          (rotated names src (pattern_of s.env template retain_count) retain_count)
          (restart_rename (some src) (some template) (pos retain_count))
          (λ r. r ≡ success)
  unfolding restart_rename require
  Does-restart_rename src template retain_count positive hashed once =
      Does-bind _ _ _ _ _ _ (Does-fail_if (ltb_ℤ (pos retain_count) (pos 1)) einval (at_least_one))
        λ u v.
          Does-bind _ _ _ _ _ _
            (Does-external (stat src) (λ r. is_neg r ≡ false) (λ calls. permits.found calls src))
            λ found f. Does-bind _ _ _ _ _ _ (Does-fail_if (is_neg found) efailed f) λ u v.
              Does-bind _ _ _ _ _ _
                (Does-external (malloc (pos (3 * (length template + 1)))) (λ r. is_zero r ≡ false)
                  (λ calls. permits.allocates calls _))
                λ buffer g. Does-bind _ _ _ _ _ _ (Does-fail_if (is_zero buffer) enomem g) λ u v.
                  Does-then _ _ (split_template template retain_count) (finish src retain_count)
                    (pattern_of s.env template retain_count) _
                    (Does-split_template template retain_count hashed once)
                    (Does-finish src retain_count (pattern_of s.env template retain_count))
    where
      at_least_one : ltb_ℤ (pos retain_count) (pos 1) ≡ false
      at_least_one = elim (Bool-cases (ltb (retain_count + 0) 1)) [
        | inl l ↦ absurd (omega (arith, ltb→lt (retain_count + 0) 1 l, positive))
        | inr e ↦ e
      ]

not_zero : (n : ℕ) → 0 < n → n == 0 ≡ false
not_zero n positive = elim (Bool-cases (n == 0)) [
  | inl e ↦ absurd (omega (arith, (==_iff n 0).0 e, positive))
  | inr e ↦ e
]

-- Where the source can be found, memory is available, names can be printed, the directory can be
-- read and files can be renamed, for a positive retain_count and a template with one run of
-- hashes, restart_rename succeeds. It has then asked for exactly these renamings: those of the
-- matching entries whose next index is below retain_count, from the last entry to the first, and
-- after them that of the source to index zero. The entry with index retain_count - 1 is not
-- renamed, against the documentation.
pub restart_rename-rotated :
    (s : Machine) (names : List Text) (src template : Text) (retain_count : ℕ)
    → Permits s.env names
    → 0 < retain_count
    → 0 < count_hashes (from_hash (s.env.basename template))
    → count_hashes (from_hash (after_hashes (from_hash (s.env.basename template)))) ≡ 0
    → ((restart_rename (some src) (some template) (pos retain_count) s).0 ≡ next success)
      × (renamings (restart_rename (some src) (some template) (pos retain_count) s).1.calls
          ≡ rotated names src
              (pattern_of s.env template retain_count)
              retain_count
              (renamings s.calls))
restart_rename-rotated s names src template retain_count permits positive hashed once =
    let (r, left, ran, seen, succeeded) =
      (Does-restart_rename {s = s} permits src template retain_count positive (not_zero _ hashed)
          ((==_iff _ _).1 once)).does
        s.calls in
    (ap (λ r. r.0) ran ∙ ap next succeeded, ap (λ r. renamings r.1.calls) ran ∙ seen)
