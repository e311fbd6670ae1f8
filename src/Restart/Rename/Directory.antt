-- ===== src/Restart/Rename/Directory.antt =====
-- What the renamings of restart_rename make of the files of a directory.
pub mod Shift
use esio.Prelude.{
  ◌≡◌, refl, Bool, true, false, ◌&&◌, Option, none, List, [], ◌∷◌, ◌==◌, ==-refl, if◌then◌else◌,
  arith,
}
use esio.Io.{Text}

abbrev pub eq_text : Text → Text → Bool
eq_text [] [] = true
eq_text [] (d ∷ t) = false
eq_text (c ∷ s) [] = false
eq_text (c ∷ s) (d ∷ t) = c == d && eq_text s t

pub eq_text_refl : (s : Text) → eq_text s s ≡ true
eq_text_refl [] = refl
eq_text_refl (c ∷ s) = rw (==-refl c) (eq_text_refl s)

pub eq_text-eq : (s t : Text) → eq_text s t ≡ true → s ≡ t
eq_text-eq [] [] h = refl
eq_text-eq [] (d ∷ t) h = absurd (ground arith)
eq_text-eq (c ∷ s) [] h = absurd (ground arith)
eq_text-eq (c ∷ s) (d ∷ t) h = ground (arith, eq_text-eq s t)

module _ {C : Type 0} where
  -- rename(2), on the contents of the files by their paths: the file at `src` replaces the one at `dst`, if there is one.
  abbrev pub renamed : Text → Text → (Text → Option C) → Text → Option C
  renamed src dst files path =
      if eq_text path dst then files src else if eq_text path src then none else files path

  -- The files after renamings, of which the last one comes first.
  abbrev pub files_after : List (Text × Text) → (Text → Option C) → Text → Option C
  files_after [] files = files
  files_after ((src, dst) ∷ before) files = renamed src dst (files_after before files)
