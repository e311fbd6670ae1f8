-- ===== src/Layout/Pencils/Asked.antt =====
-- Running a transfer function forwards, when HDF5 grants all that it asks for: one rule for each
-- statement that can stand at its front.
mod After
pub use After.*
use esio.Prelude.{
  ℤ, pos, is_neg, ℕ, ◌+◌, ◌-◌, ◌*◌, ◌≡◌, refl, sym, ap, ◌∙◌, Bool, true, false, List, ◌∷◌, ◌++◌,
  arith, if◌then◌else◌, ◌≤◌, ltb, All, ◌<◌,
}
use esio.Io.{
  SelectOp, Direction, Call, Event, Machine, screate_simple, sselect_hyperslab, dget_space,
  transfer, tget_size, Outcome, Proc, pure, external, ignore, continue, ◌>>=◌, ◌>>◌, when, assert,
  next, int_limit, in_int, undefined,
}
use esio.Error.{success}
use mathlib.Core.Path.{subst}
use esio.Layout.Simple.{close_spaces}
use esio.Layout.Pencils.Positions.{Selection}
use esio.Layout.Pencils.Trace.{Moved, selection_of, moved, Grants, Moves, int_fits}

-- What a body that succeeds has asked for. It changes nothing but the list of the calls.
abbrev pub Succeeds : Machine → List Moved → Outcome ℤ ℤ × Machine → Type 0
Succeeds s k r =
    (calls : List Event) × (r ≡ (next success, record s { calls = calls }))
    × (moved calls ≡ k ++ moved s.calls)

-- From these calls on, the body succeeds, and has then asked for the transfers `k` since `s`.
pub record Gives (s : Machine) (calls : List Event) (k : List Moved) (m : Proc ℤ ℤ) : Type 0 where
  pub at : Succeeds s k (m (record s { calls = calls }))

-- A statement at the front of a body, when it is granted.
module _ {s : Machine} {calls : List Event} {k : List Moved} where
  pub Gives-external_bind :
      (c : Call) (f : ℤ → Proc ℤ ℤ) (r : ℤ)
      → s.env.status calls c ≡ r
      → Gives s (record { call = c; result = r } ∷ calls) k (f r)
      → Gives s calls k (external c >>= f)
  Gives-external_bind c f r e g = record {
    at =
        subst
          (λ r. Succeeds s k (f r (record s { calls = record { call = c; result = r } ∷ calls })))
          (sym e) g.at;
  }

  pub Gives-assert_bind :
      (test : Bool) (f : Unit → Proc ℤ ℤ)
      → test ≡ true
      → Gives s calls k (f tt)
      → Gives s calls k (assert test >>= f)
  Gives-assert_bind true f e g = record { at = g.at }
  Gives-assert_bind false f e g = absurd (ground arith)

  pub Gives-when_bind :
      (test : Bool) (m : Proc ℤ Unit) (f : Unit → Proc ℤ ℤ)
      → test ≡ false
      → Gives s calls k (f tt)
      → Gives s calls k (when test m >>= f)
  Gives-when_bind true m f e g = absurd (ground arith)
  Gives-when_bind false m f e g = record { at = g.at }

  -- A branch that does no more than to compute an int expression.
  pub Gives-in_int_bind :
      (test : Bool) (n : ℕ) (f : Unit → Proc ℤ ℤ)
      → n ≤ int_limit
      → Gives s calls k (f tt)
      → Gives s calls k (when test (in_int n) >>= f)
  Gives-in_int_bind false n f e g = record { at = g.at }
  Gives-in_int_bind true n f e g = Gives-when_bind (ltb int_limit n) undefined f (int_fits n e) g

  -- The calls that the world grants.
  module _ {dset_id type_id mem file : ℤ} {type_size : ℕ}
      (grants : Grants s.env dset_id type_id mem file type_size) where
    pub Gives-screate_bind :
        (extents : List ℕ) (f : ℤ → Proc ℤ ℤ)
        → Gives s (record { call = screate_simple extents; result = mem } ∷ calls) k (f mem)
        → Gives s calls k (external (screate_simple extents) >>= f)
    Gives-screate_bind extents f g = Gives-external_bind _ f mem (grants.memspace calls extents) g

    pub Gives-dget_space_bind :
        (f : ℤ → Proc ℤ ℤ)
        → Gives s (record { call = dget_space dset_id; result = file } ∷ calls) k (f file)
        → Gives s calls k (external (dget_space dset_id) >>= f)
    Gives-dget_space_bind f g = Gives-external_bind _ f file (grants.filespace calls) g

    pub Gives-tget_size_bind :
        (f : ℤ → Proc ℤ ℤ)
        → Gives s
            (record { call = tget_size type_id; result = pos type_size } ∷ calls)
            k
            (f (pos type_size))
        → Gives s calls k (external (tget_size type_id) >>= f)
    Gives-tget_size_bind f g = Gives-external_bind _ f (pos type_size) (grants.sized calls) g

    pub Gives-select_bind :
        (space : ℤ) (op : SelectOp) (start stride count : List ℕ) (f : ℤ → Proc ℤ ℤ)
        → All (λ d. 0 < d) stride
        → ((r : ℤ)
            → is_neg r ≡ false
            → Gives s
                (record { call = sselect_hyperslab space op start stride count; result = r }
                  ∷ calls)
                k
                (f r))
        → Gives s calls k (external (sselect_hyperslab space op start stride count) >>= f)
    Gives-select_bind space op start stride count f apart g =
        Gives-external_bind _ f _ refl
          (g _ (grants.selects calls space op start stride count apart))

    pub Gives-transfer_bind :
        (direction : Direction) (plist_id : ℤ) (offset : ℕ) (f : ℤ → Proc ℤ ℤ)
        → ((r : ℤ)
            → is_neg r ≡ false
            → Gives s
                (record {
                  call = transfer direction dset_id type_id mem file plist_id offset;
                  result = r;
                }
                  ∷ calls)
                k
                (f r))
        → Gives s calls k
            (external (transfer direction dset_id type_id mem file plist_id offset) >>= f)
    Gives-transfer_bind direction plist_id offset f g =
        Gives-external_bind _ f _ refl (g _ (grants.transfers calls direction plist_id offset))

pub Gives-if :
    {s : Machine} {calls : List Event} (b : Bool) (k l : List Moved) (m n : Proc ℤ ℤ)
    → Gives s calls k m
    → Gives s calls l n
    → Gives s calls (if b then k else l) (if b then m else n)
Gives-if true k l m n km ln = km
Gives-if false k l m n km ln = ln

module _ {s : Machine} {calls : List Event} {k : List Moved} where
  pub Gives-ignore_bind :
      (c : Call) (f : Unit → Proc ℤ ℤ)
      → ((r : ℤ) → Gives s (record { call = c; result = r } ∷ calls) k (f tt))
      → Gives s calls k (ignore c >>= f)
  Gives-ignore_bind c f g = record { at = (g (s.env.status calls c)).at }

  pub Gives-then_bind :
      (b : Bool) (m n : Proc ℤ Unit) (f : Unit → Proc ℤ ℤ)
      → b ≡ true
      → Gives s calls k (m >>= f)
      → Gives s calls k ((if b then m else n) >>= f)
  Gives-then_bind true m n f e g = g
  Gives-then_bind false m n f e g = absurd (ground arith)

  pub Gives-else_bind :
      (b : Bool) (m n : Proc ℤ Unit) (f : Unit → Proc ℤ ℤ)
      → b ≡ false
      → Gives s calls k (n >>= f)
      → Gives s calls k ((if b then m else n) >>= f)
  Gives-else_bind true m n f e g = absurd (ground arith)
  Gives-else_bind false m n f e g = g

  pub Gives-assoc :
      (c : Call) (g : ℤ → Proc ℤ Unit) (f : Unit → Proc ℤ ℤ)
      → Gives s calls k (external c >>= λ r. g r >>= f)
      → Gives s calls k (external c >>= g >>= f)
  Gives-assoc c g f e = record { at = e.at }

pub Gives-close :
    {s : Machine} {calls : List Event} {k : List Moved} (file mem : ℤ)
    → moved calls ≡ k ++ moved s.calls
    → Gives s calls k (close_spaces file mem >> pure success)
Gives-close file mem e = record { at = (_, refl, e) }

-- The loop on pencils, the release of the spaces and the return.
pub Gives-pencils :
    (s : Machine) (mem file : ℤ) (selection : Selection) (k : List Moved) (m : Proc ℤ Unit)
    (calls : List Event)
    → Moves s mem selection k m
    → selection_of mem calls ≡ selection
    → moved calls ≡ moved s.calls
    → Gives s calls k (m >> (close_spaces file mem >> pure success))
Gives-pencils s mem file selection k m calls moves sel none_moved =
    let (left, ran, seen, _) = moves.at calls sel in
    let end = λ (r : Outcome ℤ Unit × Machine).
      continue {R = ℤ} r.0 (λ _. close_spaces file mem >> pure success) r.1 in
    record { at = (_, ap end ran, seen ∙ ap (λ l. k ++ l) none_moved) }

pub ruleset granted_rules = (
  Gives-screate_bind, Gives-dget_space_bind, Gives-tget_size_bind, Gives-select_bind,
  Gives-transfer_bind, Gives-assert_bind, Gives-when_bind, Gives-close, Gives-pencils,
  selection_of-created, selection_of-created_chosen, block_of-chosen, selection_of-opened_elsewhere,
  selection_of-chosen_elsewhere,
)

-- The same with branches, and with selections of nothing.
pub ruleset branch_rules = (
  granted_rules, Gives-then_bind, Gives-else_bind, Gives-assoc, Gives-ignore_bind,
  selection_of-emptied, block_of-emptied, selection_of-emptied_elsewhere, extents_of-created,
)
