-- ===== src/Error/Safe.antt =====
-- The statements of a body that keep every property of the handle, in a body that is safe.
use esio.Io.{Proc, Handle, pure, return, get_handle, invoke}
use esio.Error.{require, fail_if}
use esio.Prelude.{ℤ, Bool, Option}
use esio.Error.Keeps.{Keeps-require, Keeps-fail_if}
use esio.Io.Keeps.{Keeps, Keeps-pure, Keeps-return, Keeps-get_handle}
use esio.Io.Safe.{Safe, Safe-Keeps, Safe-invoke, Safe-if, Safe-bind, Safe-when}

module _ {R A : Type 0} {P : Handle → Type 0} where
  pub Safe-pure : (a : A) → Safe P (pure {R = R} a)
  Safe-pure a = Safe-Keeps (pure a) (Keeps-pure a)

  pub Safe-return : (r : R) → Safe P (return {A = A} r)
  Safe-return r = Safe-Keeps (return r) (Keeps-return r)

  pub Safe-require : (o : Option A) (code : ℤ) (r : R) → Safe P (require o code r)
  Safe-require o code r = Safe-Keeps (require o code r) (Keeps-require o code r)

  pub Safe-invoke-Keeps : (m : Proc A A) → Keeps P m → Safe P (invoke {R = R} m)
  Safe-invoke-Keeps m km = Safe-invoke m (Safe-Keeps m km)

module _ {R : Type 0} {P : Handle → Type 0} where
  pub Safe-get_handle : Safe P (get_handle {R = R})
  Safe-get_handle = Safe-Keeps get_handle Keeps-get_handle

module _ {P : Handle → Type 0} where
  pub Safe-fail_if : (test : Bool) (code : ℤ) → Safe P (fail_if test code)
  Safe-fail_if test code = Safe-Keeps (fail_if test code) (Keeps-fail_if test code)

pub ruleset statement_rules = (
  Safe-pure, Safe-return, Safe-require, Safe-get_handle, Safe-fail_if, Safe-invoke, Safe-if,
  Safe-bind, Safe-when,
)
