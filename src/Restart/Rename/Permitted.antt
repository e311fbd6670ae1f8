-- ===== src/Restart/Rename/Permitted.antt =====
-- Running restart_rename, esio/restart-rename.c, forwards, where the C library grants what it asks
-- for: one rule for each statement, and the loop over the entries.
use esio.Prelude.{
  ℤ, pos, negsuc, pos_part, is_neg, eq_ℤ, ltb_ℤ, is_zero, ℕ, ◌≡◌, refl, sym, ap, ◌∙◌, Bool, true,
  false, not, ◌&&◌, List, [], ◌∷◌, ◌++◌, arith, if◌then◌else◌, length,
}
use esio.Io.{
  vsnprintf, Text, Call, Event, Env, Machine, malloc, realloc, stat, scandir, rename, Outcome, Proc,
  pure, external, continue, ◌>>=◌, returned, invoke, next,
}
use mathlib.Core.Path.{subst}
use esio.Error.{efailed, enomem, fail_if}
use esio.Restart.Format.Buffer.{snprintf_realloc-Leaves}
use esio.Restart.NextIndex.{restart_nextindex}
use esio.Restart.Format.{join, snprintf_realloc}
use esio.Restart.Rename.{Pattern, destination, rename_entry, shift_entries}
use esio.Restart.Rename.Rotation.{snprintf_realloc-renamings, moves, renamings, renamed_by}

-- The file is there, memory is available, the directory holds these names, and files are renamed.
pub record Permits (env : Env) (names : List Text) : Type 0 where
  pub found : (calls : List Event) (path : Text) → is_neg (env.status calls (stat path)) ≡ false
  pub allocates : (calls : List Event) (size : ℤ) → is_zero (env.status calls (malloc size)) ≡ false
  pub grows :
      (calls : List Event) (size : ℕ) → eq_ℤ (env.status calls (realloc size)) (pos 0) ≡ false
  pub prints :
      (calls : List Event) (text : Text) (size : ℕ)
      → is_neg (env.status calls (vsnprintf text size)) ≡ false
  pub scans : (calls : List Event) (dir : Text) → is_neg (env.status calls (scandir dir)) ≡ false
  pub lists : (calls : List Event) (dir : Text) → env.entries calls (scandir dir) ≡ names
  pub renames :
      (calls : List Event) (src dst : Text) → is_zero (env.status calls (rename src dst)) ≡ true

-- A body that goes on, whose renamings `change` makes of those before it, and whose result is in `P`.
pub record Does {A : Type 0} (s : Machine) (change : List (Text × Text) → List (Text × Text))
    (m : Proc ℤ A) (P : A → Type 0) : Type 0 where
  pub does :
      (calls : List Event)
      → (a : A) × (left : List Event) × (m (record s { calls = calls })
          ≡ (next a, record s { calls = left }))
        × (renamings left ≡ change (renamings calls))
        × P a

abbrev pub Anything : {A : Type 0} → A → Type 0
Anything a = Unit

module _ {s : Machine} {A B : Type 0} where
  pub Does-bind :
      (t u : List (Text × Text) → List (Text × Text)) (m : Proc ℤ A) (f : A → Proc ℤ B)
      (P : A → Type 0) (Q : B → Type 0)
      → Does s t m P
      → ((a : A) → P a → Does s u (f a) Q)
      → Does s (λ b. u (t b)) (m >>= f) Q
  Does-bind t u m f P Q dm df = record {
    does = λ calls.
        let (a, left, ran, seen, p) = dm.does calls in
        let (b, rest, ran', seen', q) = (df a p).does left in
        (b, rest, ap (λ r. continue r.0 f r.1) ran ∙ ran', seen' ∙ ap u seen, q);
  }

  -- A statement with a known result.
  pub Does-then :
      (t u : List (Text × Text) → List (Text × Text)) (m : Proc ℤ A) (f : A → Proc ℤ B) (a : A)
      (Q : B → Type 0)
      → Does s t m (λ a'. a' ≡ a)
      → Does s u (f a) Q
      → Does s (λ b. u (t b)) (m >>= f) Q
  Does-then t u m f a Q dm df =
      Does-bind t u m f (λ a'. a' ≡ a) Q dm λ a' e. subst (λ a. Does s u (f a) Q) (sym e) df

module _ {s : Machine} where
  pub Does-pure : {A : Type 0} (a : A) (P : A → Type 0) → P a → Does s (λ b. b) (pure a) P
  Does-pure a P p = record { does = λ calls. (a, calls, refl, refl, p) }

  pub Does-fail_if :
      (test : Bool) (code : ℤ) → test ≡ false → Does s (λ b. b) (fail_if test code) Anything
  unfolding fail_if
  Does-fail_if true code e = absurd (ground arith)
  Does-fail_if false code e = record { does = λ calls. (tt, calls, refl, refl, tt) }

  pub Does-external :
      (c : Call) (P : ℤ → Type 0)
      → ((calls : List Event) → P (s.env.status calls c))
      → Does s (λ b. renamed_by c ++ b) (external c) P
  Does-external c P p = record {
    does = λ calls. (
      s.env.status calls c,
      record { call = c; result = s.env.status calls c } ∷ calls,
      refl,
      refl,
      p calls,
    );
  }

  module _ {names : List Text} (permits : Permits s.env names) where
    pub Does-snprintf_realloc :
        (size : ℕ) (text : Text)
        → Does s (λ b. b) (invoke (snprintf_realloc size text)) (λ r. is_neg r.0 ≡ false)
    Does-snprintf_realloc size text = record {
      does = λ calls.
          let (size', left, ran) =
            snprintf_realloc-Leaves size text (record s { calls = calls }) permits.grows
              (λ calls n. permits.prints calls text n) in
          (
            (pos (length text), size'),
            left,
            ap (λ (r : Outcome (ℤ × ℕ) (ℤ × ℕ) × Machine). (returned r.0, r.1)) ran,
            ap (λ (r : Outcome (ℤ × ℕ) (ℤ × ℕ) × Machine). renamings r.1.calls) (sym ran)
                ∙ snprintf_realloc-renamings size text (record s { calls = calls }),
            refl,
          );
    }

    Does-rename_entry :
        (p : Pattern) (name : Text) (index : ℕ) (sizes : ℕ × ℕ)
        → Does s
            (λ b. (join p.tmpl_dirname name, destination p index) ∷ b)
            (rename_entry p name index sizes)
            Anything
    unfolding rename_entry
    Does-rename_entry p name index sizes =
        Does-bind _ _ _ _ _ _ (Does-snprintf_realloc sizes.0 (join p.tmpl_dirname name)) λ src e.
          Does-bind _ _ _ _ _ _ (Does-fail_if (is_neg src.0) enomem e) λ u v.
            Does-bind _ _ _ _ _ _ (Does-snprintf_realloc sizes.1 (destination p index)) λ dst f.
              Does-bind _ _ _ _ _ _ (Does-fail_if (is_neg dst.0) enomem f) λ u v.
                Does-bind _ _ _ _ _ _
                  (Does-external (rename (join p.tmpl_dirname name) (destination p index))
                    (λ r. not (is_zero r) ≡ false) (λ calls. ap not (permits.renames calls _ _)))
                  λ r g.
                    Does-bind _ _ _ _ _ _ (Does-fail_if (not (is_zero r)) efailed g)
                      λ u v. Does-pure (src.1, dst.1) Anything tt

    -- The renamings of an entry that is in range.
    Does-entry :
        (p : Pattern) (name : Text) (index : ℕ) (in_range : Bool) (sizes : ℕ × ℕ)
        → Does s
            (λ b. if in_range then (join p.tmpl_dirname name, destination p index) ∷ b else b)
            (if in_range then rename_entry p name index sizes else pure sizes)
            Anything
    Does-entry p name index true sizes = Does-rename_entry p name index sizes
    Does-entry p name index false sizes = Does-pure sizes Anything tt

    pub Does-shift_entries :
        (p : Pattern) (retain_count : ℕ) (entries : List Text) (sizes : ℕ × ℕ)
        → Does s
            (moves p retain_count entries)
            (shift_entries p retain_count entries sizes)
            Anything
    unfolding shift_entries
    Does-shift_entries p retain_count [] sizes = Does-pure sizes Anything tt
    Does-shift_entries p retain_count (name ∷ entries) sizes =
        let index = restart_nextindex p.tmpl_basename name (negsuc 0) in
        Does-bind _ _ _ _ _ _
          (Does-entry p name (pos_part index)
            (ltb_ℤ (pos 0) index && ltb_ℤ index (pos retain_count)) sizes)
          λ after u. Does-shift_entries p retain_count entries after
