-- ===== src/Layout/Pencils/Trace.antt =====
-- What the transfers of esio/x-*.c ask HDF5 to move: for each transfer, what is selected in memory and
-- in the file, and the offset in the buffer.
use esio.Prelude.{
  ◌*◌, ℤ, pos, is_neg, eq_ℤ, eq_ℤ_iff, ℕ, zero, suc, ◌+◌, ◌≡◌, refl, sym, ap, ◌∙◌, true, false,
  List, [], ◌∷◌, ◌++◌, if◌then◌else◌, not, ◌≤◌, ◌<◌, arith, ltb, Bool, All,
}
use esio.Io.{
  SelectOp, Direction, Call, Event, Env, Machine, select_set, select_or, screate_simple,
  sselect_none, sselect_hyperslab, dget_space, transfer, tget_size, Outcome, Proc, continue, ◌>>◌,
  for_from, next, int_limit, in_int, when, undefined,
}
use esio.Layout.Pencils.Positions.{
  Selected, Selection, positions, unite, everything, hyperslab, points,
}
use mathlib.Core.List.{append_assoc}
use esio.Layout.Simple.{is_positive}
use esio.Layout.Pencils.{transfer_pencil}

-- What is selected in memory and in the file, and the offset in the buffer.
abbrev pub Moved : Type 0
Moved = Selection × Selected × ℕ

-- What a call leaves selected in a dataspace: a new space has all of it selected, and
-- H5S_SELECT_SET puts a hyperslab in the place of what was selected before, and H5S_SELECT_OR adds
-- one to it.
abbrev pub selected_by : ℤ → Event → Selection → Selection
selected_by space e before = chosen e.call
  where
    chosen : Call → Selection
    chosen (sselect_hyperslab id select_set start stride count) =
        if eq_ℤ id space then (before.0, hyperslab (start, stride, count)) else before
    chosen (sselect_hyperslab id select_or start stride count) =
        if eq_ℤ id space
        then (
          before.0,
          points
              (unite (positions before) (positions (before.0, hyperslab (start, stride, count)))),
        )
        else before
    chosen (screate_simple extents) = if eq_ℤ e.result space then (extents, everything) else before
    chosen (sselect_none id) = if eq_ℤ id space then (before.0, points []) else before
    chosen (dget_space dset) = if eq_ℤ e.result space then ([], everything) else before
    chosen c = before

abbrev pub selection_of : ℤ → List Event → Selection
selection_of space [] = ([], everything)
selection_of space (e ∷ calls) = selected_by space e (selection_of space calls)

abbrev pub moved_by : Call → List Event → List Moved
moved_by (transfer direction dset type mem file plist offset) calls =
    (selection_of mem calls, (selection_of file calls).1, offset) ∷ []
moved_by c calls = []

-- The transfers, the last one first.
abbrev pub moved : List Event → List Moved
moved [] = []
moved (e ∷ calls) = moved_by e.call calls ++ moved calls

pub eq_ℤ_refl : (a : ℤ) → eq_ℤ a a ≡ true
eq_ℤ_refl a = (eq_ℤ_iff a a).1 refl

-- The world grants what a transfer of the dataset asks of HDF5: a space for the memory, another
-- for the file, the size of an element, every selection and every transfer.
pub record Grants (env : Env) (dset_id type_id mem file : ℤ) (type_size : ℕ) : Type 0 where
  pub memspace :
      (calls : List Event) (extents : List ℕ) → env.status calls (screate_simple extents) ≡ mem
  pub filespace : (calls : List Event) → env.status calls (dget_space dset_id) ≡ file
  pub sized : (calls : List Event) → env.status calls (tget_size type_id) ≡ pos type_size
  pub selects :
      (calls : List Event) (space : ℤ) (op : SelectOp) (start stride count : List ℕ)
      → All (λ d. 0 < d) stride
      → is_neg (env.status calls (sselect_hyperslab space op start stride count)) ≡ false
  pub empties :
      (calls : List Event) (space : ℤ) → is_neg (env.status calls (sselect_none space)) ≡ false
  pub transfers :
      (calls : List Event) (direction : Direction) (plist_id : ℤ) (offset : ℕ)
      → is_neg (env.status calls (transfer direction dset_id type_id mem file plist_id offset))
        ≡ false
  pub mem_positive : is_positive mem ≡ true
  pub file_valid : is_neg file ≡ false
  pub size_positive : is_positive (pos type_size) ≡ true
  pub apart : eq_ℤ file mem ≡ false

-- The tests of the code on the two spaces.
module _ {env : Env} {dset_id type_id mem file : ℤ} {type_size : ℕ}
    (grants : Grants env dset_id type_id mem file type_size) where
  pub file_passes : not (is_neg file) ≡ true
  file_passes = ap not grants.file_valid

  pub memory_passes : is_positive mem ≡ true
  memory_passes = grants.mem_positive

  pub spaces_apart : eq_ℤ file mem ≡ false
  spaces_apart = grants.apart

-- An int expression that does not overflow.
pub int_fits : (n : ℕ) → n ≤ int_limit → ltb int_limit n ≡ false
int_fits n e = ground (arith, e)

-- The sums and products of the transfer of a field, which are of type int, do not overflow, and the
-- elements of a row are apart.
pub record FitsInt (cstart clocal cstride bstart blocal bstride alocal astride : ℕ) : Type 0 where
  pub rising : 0 < astride
  pub columns : clocal * blocal ≤ int_limit
  pub elements : clocal * blocal * alocal ≤ int_limit
  pub extent : clocal * cstride ≤ int_limit
  pub plane : bstride * blocal ≤ int_limit
  pub pencil : astride * alocal ≤ int_limit
  pub first_index : (i : ℕ) → i < clocal → i + cstart ≤ int_limit
  pub second_index : (j : ℕ) → j < blocal → j + bstart ≤ int_limit
  pub offsets : (i j : ℕ) → i < clocal → j < blocal → j * bstride + i * cstride ≤ int_limit

-- Nor do the rows of a file of layout 2, where the rows in memory have to be apart as well.
abbrev pub RowsFitInt : ℕ → ℕ → ℕ → ℕ → ℕ → ℕ → Type 0
RowsFitInt cstart clocal bglobal bstart blocal bstride =
    (0 < bstride)
    × ((i j : ℕ) → i < clocal → j < blocal → j + bstart + (i + cstart) * bglobal ≤ int_limit)

-- What the rounds of a loop move, the last round first.
abbrev pub rounds : (ℕ → List Moved) → ℕ → ℕ → List Moved
rounds k i zero = []
rounds k i (suc count) = rounds k (i + 1) count ++ k i

-- The statements that went on, that asked for the transfers `k` and that left `selection` selected in
-- memory.
abbrev pub Leaves : Machine → ℤ → Selection → List Moved → Outcome ℤ Unit × Machine → Type 0
Leaves s mem selection k r =
    (calls : List Event) × (r ≡ (next tt, record s { calls = calls }))
    × (moved calls ≡ k)
    × (selection_of mem calls ≡ selection)

pub record Moves (s : Machine) (mem : ℤ) (selection : Selection) (k : List Moved) (m : Proc ℤ Unit)
    : Type 0 where
  pub at :
      (calls : List Event)
      → selection_of mem calls ≡ selection
      → Leaves s mem selection (k ++ moved calls) (m (record s { calls = calls }))

module _ (s : Machine) (mem : ℤ) (selection : Selection) where
  Moves-then :
      (k l : List Moved) (m n : Proc ℤ Unit)
      → Moves s mem selection k m
      → Moves s mem selection l n
      → Moves s mem selection (l ++ k) (m >> n)
  Moves-then k l m n km kn = record {
    at = λ calls sel.
        let (calls_m, ran_m, moved_m, sel_m) = km.at calls sel in
        let (calls_n, ran_n, moved_n, sel_n) = kn.at calls_m sel_m in
        (
          calls_n,
          ap (λ r. continue r.0 (λ _. n) r.1) ran_m ∙ ran_n,
          moved_n ∙ ap (λ t. l ++ t) moved_m ∙ sym (append_assoc l k (moved calls)),
          sel_n,
        );
  }

  pub Moves-for_from :
      (k : ℕ → List Moved) (body : ℕ → Proc ℤ Unit) (start count : ℕ)
      → ((i : ℕ) → i < start + count → Moves s mem selection (k i) (body i))
      → Moves s mem selection (rounds k start count) (for_from start count body)
  unfolding for_from
  Moves-for_from k body start zero kb = record { at = λ calls sel. (calls, refl, refl, sel) }
  Moves-for_from k body start (suc count) kb =
      Moves-then (k start) (rounds k (start + 1) count) (body start)
        (for_from (start + 1) count body) (kb start (omega arith))
        (Moves-for_from k body (start + 1) count λ i l. kb i (omega (arith, l)))

  -- A statement behind an int expression.
  pub Moves-in_int :
      (k : List Moved) (m : Proc ℤ Unit) (n : ℕ)
      → n ≤ int_limit
      → Moves s mem selection k m
      → Moves s mem selection k (in_int n >> m)
  Moves-in_int k m n e km = passes (ltb int_limit n) (int_fits n e)
    where
      passes : (b : Bool) → b ≡ false → Moves s mem selection k (when b undefined >> m)
      passes false e = record { at = km.at }
      passes true e = absurd (ground arith)

  module _ (dset_id type_id file : ℤ) (type_size : ℕ)
      (grants : Grants s.env dset_id type_id mem file type_size) where
    pub Moves-transfer_pencil :
        (direction : Direction) (plist_id : ℤ) (start stride count : List ℕ) (offset : ℕ)
        → Moves s mem selection
            ((selection, hyperslab (start, stride, count), offset) ∷ [])
            (transfer_pencil direction dset_id type_id mem file plist_id start stride count offset)
    unfolding transfer_pencil
    Moves-transfer_pencil direction plist_id start stride count offset = record {
      at = λ calls sel.
          let chosen = event calls (sselect_hyperslab file select_set start stride count) ∷ calls in
          let asked = transfer direction dset_id type_id mem file plist_id offset in
          (
            event chosen asked ∷ chosen,
            rw (grants.transfers chosen direction plist_id offset) refl,
            rw (grants.apart, eq_ℤ_refl file, sel) refl,
            rw grants.apart sel,
          );
    }
      where
        event : List Event → Call → Event
        event calls c = record { call = c; result = s.env.status calls c }
