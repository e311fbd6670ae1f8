-- ===== src/Restart/Rename/Rotation.antt =====
-- The renamings that the loop of restart_rename asks for.
use esio.Prelude.{
  ℤ, pos, negsuc, pos_part, ltb_ℤ, ℕ, ◌≡◌, refl, sym, ap, ◌∙◌, Bool, true, false, ◌&&◌, List, [],
  ◌∷◌, ◌++◌, arith, if◌then◌else◌,
}
use esio.Io.{Text, Call, Event, Machine, rename, Proc, pure, external, ◌>>=◌, invoke, next}
use esio.Error.{fail_if}
use esio.Error.Fails.{fail_if_next}
use esio.Restart.Rename.{Pattern, destination, rename_entry, shift_entries}
use esio.Restart.Format.{join, snprintf_realloc}
use esio.Restart.NextIndex.{restart_nextindex}
use esio.Io.Steps.{bind_next}

-- The renamings among the calls that were made, the last one first.
abbrev pub renamed_by : Call → List (Text × Text)
renamed_by (rename src dst) = (src, dst) ∷ []
renamed_by c = []

abbrev pub renamings : List Event → List (Text × Text)
renamings [] = []
renamings (e ∷ calls) = renamed_by e.call ++ renamings calls

-- A file whose index is in range moves to the name for the next index, the others stay. The last
-- renaming comes first.
abbrev pub moves : Pattern → ℕ → List Text → List (Text × Text) → List (Text × Text)
moves p retain_count [] before = before
moves p retain_count (name ∷ names) before =
    let index = restart_nextindex p.tmpl_basename name (negsuc 0) in
    moves p retain_count names (
      if ltb_ℤ (pos 0) index && ltb_ℤ index (pos retain_count)
      then (join p.tmpl_dirname name, destination p (pos_part index)) ∷ before
      else before)

pub snprintf_realloc-renamings :
    (size : ℕ) (text : Text) (s : Machine)
    → renamings (snprintf_realloc size text s).1.calls ≡ renamings s.calls
unfolding snprintf_realloc
snprintf_realloc-renamings size text s = ground arith

-- A body that goes on to its end has asked for the renamings `k`, the last one first.
record Adds {R A : Type 0} (k : List (Text × Text)) (m : Proc R A) : Type 0 where
  at : (s : Machine) (a : A) → (m s).0 ≡ next a → renamings (m s).1.calls ≡ k ++ renamings s.calls

module _ {R A B : Type 0} (k : List (Text × Text)) where
  Adds-bind :
      (m : Proc R A) (f : A → Proc R B) → Adds [] m → ((a : A) → Adds k (f a)) → Adds k (m >>= f)
  Adds-bind m f km kf = record {
    at = λ s b e.
        let (a, ma, rest) = bind_next m f s b e in
        ap (λ r. renamings r.1.calls) rest
        ∙ (kf a).at (m s).1 b (sym (ap (λ r. r.0) rest) ∙ e)
        ∙ ap (λ l. k ++ l) (km.at s a ma);
  }

module _ {B : Type 0} where
  Adds-rename_bind :
      (src dst : Text) (f : ℤ → Proc ℤ B)
      → ((r : ℤ) → Adds [] (f r))
      → Adds ((src, dst) ∷ []) (external (rename src dst) >>= f)
  Adds-rename_bind src dst f kf = record {
    at = λ s b e.
        (kf (s.env.status s.calls (rename src dst))).at (external {R = Unit} (rename src dst) s).1 b
          e;
  }

Adds-fail_if : (test : Bool) (code : ℤ) → Adds [] (fail_if test code)
Adds-fail_if test code = record {
  at = λ s a e. ap (λ s. renamings s.calls) (fail_if_next test code s e);
}

Adds-pure : {A : Type 0} (a : A) → Adds [] (pure {R = ℤ} a)
Adds-pure a = record { at = λ s b e. refl }

Adds-snprintf_realloc :
    (size : ℕ) (text : Text) → Adds [] (invoke {R = ℤ} (snprintf_realloc size text))
Adds-snprintf_realloc size text = record { at = λ s b e. snprintf_realloc-renamings size text s }

Adds-rename_entry :
    (p : Pattern) (name : Text) (index : ℕ) (sizes : ℕ × ℕ)
    → Adds ((join p.tmpl_dirname name, destination p index) ∷ []) (rename_entry p name index sizes)
unfolding rename_entry
Adds-rename_entry p name index sizes =
    search (Adds-bind, Adds-rename_bind, Adds-fail_if, Adds-pure, Adds-snprintf_realloc) depth 20

-- One round of the loop.
moved :
    (p : Pattern) (name : Text) (index : ℕ) (in_range : Bool) (sizes out : ℕ × ℕ) (s : Machine)
    → ((if in_range then rename_entry p name index sizes else pure sizes) s).0 ≡ next out
    → renamings ((if in_range then rename_entry p name index sizes else pure sizes) s).1.calls ≡ (
        if in_range
        then (join p.tmpl_dirname name, destination p index) ∷ renamings s.calls
        else renamings s.calls)
moved p name index true sizes out s e = (Adds-rename_entry p name index sizes).at s out e
moved p name index false sizes out s e = refl

-- Where the loop over the entries of the directory goes on to its end, it has asked for exactly
-- these renamings, in this order: each entry whose next index is positive and below retain_count
-- moves to the formatted name of that index, and no other entry moves.
pub shift_entries-moves :
    (p : Pattern) (retain_count : ℕ) (names : List Text) (sizes out : ℕ × ℕ) (s : Machine)
    → (shift_entries p retain_count names sizes s).0 ≡ next out
    → renamings (shift_entries p retain_count names sizes s).1.calls
      ≡ moves p retain_count names (renamings s.calls)
unfolding shift_entries
shift_entries-moves p r [] sizes out s e = refl
shift_entries-moves p r (name ∷ names) sizes out s e =
    let index = restart_nextindex p.tmpl_basename name (negsuc 0) in
    let in_range = ltb_ℤ (pos 0) index && ltb_ℤ index (pos r) in
    let first : Proc ℤ (ℕ × ℕ) =
      if in_range then rename_entry p name (pos_part index) sizes else pure sizes in
    let (after, first_next, rest) = bind_next first (shift_entries p r names) s out e in
    ap (λ r. renamings r.1.calls) rest
    ∙ shift_entries-moves p r names after out (first s).1 (sym (ap (λ r. r.0) rest) ∙ e)
    ∙ ap (moves p r names) (moved p name (pos_part index) in_range sizes after s first_next)
