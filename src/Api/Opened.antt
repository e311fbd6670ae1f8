-- ===== src/Api/Opened.antt =====
-- The operations that open and close files keep a handle well-formed.
use esio.FileCopy.{file_copy}
use esio.Io.{◌>>=◌, invoke}
use esio.File
use esio.Io.Safe.{Safe, Safe-runs_each, Safe-Keeps}
use esio.Error.Safe.{statement_rules}
use esio.Restart.Close.{file_close_restart}
use esio.Restart.Rename.{restart_rename}
use esio.Io.Safe.{Safe, Safe-runs_each}
use esio.Io.Keeps.{Keeps}
use esio.Error.Keeps.{error_rules}
use esio.Invariant.Files.{Keeps-file_copy, Keeps-file_path, Keeps-restart_rename}
use esio.CanonicalPath.Rounds.{free_file_path-Runs}
use esio.Prelude.{sym, ap, inl, inr, ℕ, some}
use mathlib.Core.Path.{subst}
use esio.Prelude.{ℤ, negsuc, eq_ℤ, ◌≡◌, refl, sym, ap, inl, inr, Bool, true, Option, Bool-cases}
use esio.Io.{Text, PathPointer, Handle, HandlePointer}
use esio.File.{set_file_id, file_create, file_open, file_close, advance, file_clone, on_last_rank}
use esio.FilePath.{set_file_path}
use esio.File
use esio.Api.WellFormed.{IsFileOwned, IsWellFormed}
use esio.File.Outcomes.{HasOpened, HasFailed}
use esio.File.Opening.{file_create-Runs, file_open-Runs, file_create-IsRefused, file_open-IsRefused}
use esio.Io.Runs.{Runs, Runs-weaken}
use esio.Error.Runs.{runs_rules}
use mathlib.Core.Path.{subst}

module _ (h : Handle) (w : IsWellFormed h) where
  -- A handle that differs from a well-formed one in its file alone, if that is in order.
  with_file :
      (h' : Handle)
      → record h' { file_id = h.file_id; file_path = h.file_path } ≡ h
      → IsFileOwned h'
      → IsWellFormed h'
  with_file h' e o =
      let w' = subst IsWellFormed (sym e) w in
      record {
        rank = w'.rank;
        layout = w'.layout;
        line = w'.line;
        plane = w'.plane;
        field = w'.field;
        file = o;
      }

  opened : (r : ℤ) (h' : Handle) → HasOpened h r h' → IsWellFormed h'
  opened r h' o = with_file h' o.same (inr (o.file, o.path, o.owns))

  failed :
      eq_ℤ h.file_id (negsuc 0) ≡ true → (r : ℤ) (h' : Handle) → HasFailed h r h' → IsWellFormed h'
  failed e r h' o = with_file h' (ap {A = Handle} (λ x. record x { file_id = h.file_id }) o.same) (
      inl
        (subst (λ id. eq_ℤ id (negsuc 0) ≡ true) (sym (ap {A = Handle} (λ x. x.file_id) o.same)) e))

  file_create-WellFormed :
      (p : HandlePointer) (file : Option Text) (overwrite : Bool)
      → Runs h (file_create p file overwrite) (λ _. IsWellFormed) (λ _. IsWellFormed)
  file_create-WellFormed p file overwrite = elim (Bool-cases (eq_ℤ h.file_id (negsuc 0))) [
    | inl none_open ↦
        Runs-weaken (file_create p file overwrite) opened (failed none_open)
          (file_create-Runs h p file overwrite)
    | inr open_already ↦
        Runs-weaken (file_create p file overwrite) (λ _ _ no. absurd no)
          (λ _ h' o. subst IsWellFormed (sym o.1) w)
          (file_create-IsRefused h p file overwrite open_already)
  ]

  file_open-WellFormed :
      (p : HandlePointer) (file : Option Text) (readwrite : Bool)
      → Runs h (file_open p file readwrite) (λ _. IsWellFormed) (λ _. IsWellFormed)
  file_open-WellFormed p file readwrite = elim (Bool-cases (eq_ℤ h.file_id (negsuc 0))) [
    | inl none_open ↦
        Runs-weaken (file_open p file readwrite) opened (failed none_open)
          (file_open-Runs h p file readwrite w.rank)
    | inr open_already ↦
        Runs-weaken (file_open p file readwrite) (λ _ _ no. absurd no)
          (λ _ h' o. subst IsWellFormed (sym o.1) w)
          (file_open-IsRefused h p file readwrite open_already)
  ]

  closed : (path : PathPointer) → IsWellFormed (record h { file_id = negsuc 0; file_path = path })
  closed path = record {
    rank = w.rank;
    layout = w.layout;
    line = w.line;
    plane = w.plane;
    field = w.field;
    file = inl refl;
  }

  file_close-WellFormed :
      (p : HandlePointer) → Runs h (file_close p) (λ _. IsWellFormed) (λ _. IsWellFormed)
  unfolding file_close set_file_path set_file_id
  file_close-WellFormed p = search (runs_rules, free_file_path-Runs, closed, w) depth 40

pub Safe-file_create :
    (p : HandlePointer) (file : Option Text) (overwrite : Bool)
    → Safe IsWellFormed (file_create p file overwrite)
Safe-file_create p file overwrite =
    Safe-runs_each _ (λ h w. file_create-WellFormed h w p file overwrite)

pub Safe-file_open :
    (p : HandlePointer) (file : Option Text) (readwrite : Bool)
    → Safe IsWellFormed (file_open p file readwrite)
Safe-file_open p file readwrite =
    Safe-runs_each _ (λ h w. file_open-WellFormed h w p file readwrite)

pub Safe-file_close : (p : HandlePointer) → Safe IsWellFormed (file_close p)
Safe-file_close p = Safe-runs_each _ (λ h w. file_close-WellFormed h w p)

Keeps-advance : (s : Text) (n : ℕ) → Keeps IsWellFormed (advance s n)
unfolding advance
Keeps-advance s n = search error_rules

copy_on_last_rank :
    (fuel prefix_len : ℕ) (src dst : Text) (overwrite : Bool)
    → Safe IsWellFormed (
        on_last_rank do
          src_path ← advance src prefix_len
          dst_path ← advance dst prefix_len
          invoke (file_copy fuel src_path dst_path overwrite true))
copy_on_last_rank fuel n src dst overwrite =
    Safe-Keeps _ (search (error_rules, Keeps-advance, Keeps-file_copy) depth 30)

pub Safe-file_clone :
    (fuel : ℕ) (p : HandlePointer) (src dst : Option Text) (overwrite : Bool)
    → Safe IsWellFormed (file_clone fuel p src dst overwrite)
unfolding file_clone
Safe-file_clone fuel p src dst overwrite =
    search (statement_rules, Safe-file_open, copy_on_last_rank) depth 40

rename_on_last_rank :
    (src template : Text) (retain_count : ℤ)
    → Safe IsWellFormed
        (on_last_rank (invoke (restart_rename (some src) (some template) retain_count)))
rename_on_last_rank src template r =
    Safe-Keeps _ (search (error_rules, Keeps-restart_rename) depth 30)

path_of_file : (p : HandlePointer) → Safe IsWellFormed (File.file_path p)
path_of_file p = Safe-Keeps _ (Keeps-file_path p)

pub Safe-close_restart :
    (p : HandlePointer) (template : Option Text) (retain_count : ℤ)
    → Safe IsWellFormed (file_close_restart p template retain_count)
unfolding file_close_restart
Safe-close_restart p template retain_count =
    search (statement_rules, Safe-file_close, path_of_file, rename_on_last_rank) depth 60
