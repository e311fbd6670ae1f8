-- ===== src/Io/Keeps.antt =====
-- Invariants of the handle: one rule for each way to build an action.
use esio.Prelude.{ℕ, zero, suc, ◌+◌, Bool, true, false, if◌then◌else◌}
use esio.Io.State.{Call, Handle, Machine}
use esio.Io.Monad.{
  Outcome, Proc, pure, return, undefined, out_of_fuel, gets, modify_handle, get_handle, external,
  ignore, external_text, external_stored, external_received, continue, ◌>>=◌, ◌>>◌, invoke, when,
  assert, for_from, next, exit, aborted, fault, exhausted,
}

-- `m` keeps `P` of the handle, however it ends.
pub record Keeps {R A : Type 0} (P : Handle → Type 0) (m : Proc R A) : Type 0 where
  pub at : (s : Machine) → P s.handle → P (m s).1.handle

module _ {R A : Type 0} {P : Handle → Type 0} where
  pub Keeps-pure : (a : A) → Keeps P (pure {R = R} a)
  Keeps-pure a = record { at = λ s h. h }

  pub Keeps-return : (r : R) → Keeps P (return {A = A} r)
  Keeps-return r = record { at = λ s h. h }

  pub Keeps-undefined : Keeps P (undefined {R = R} {A = A})
  Keeps-undefined = record { at = λ s h. h }

  pub Keeps-out_of_fuel : Keeps P (out_of_fuel {R = R} {A = A})
  Keeps-out_of_fuel = record { at = λ s h. h }

  pub Keeps-gets : (f : Machine → A) → Keeps P (gets {R = R} f)
  Keeps-gets f = record { at = λ s h. h }

  pub Keeps-invoke : (m : Proc A A) → Keeps P m → Keeps P (invoke {R = R} m)
  Keeps-invoke m km = record { at = λ s h. km.at s h }

  pub Keeps-if : (b : Bool) (m n : Proc R A) → Keeps P m → Keeps P n → Keeps P (if b then m else n)
  Keeps-if true m n km kn = km
  Keeps-if false m n km kn = kn

module _ {R A B : Type 0} {P : Handle → Type 0} where
  pub Keeps-continue :
      (o : Outcome R A) (f : A → Proc R B)
      → ((a : A) → Keeps P (f a))
      → (s : Machine) → P s.handle
      → P (continue o f s).1.handle
  Keeps-continue (next a) f kf s h = (kf a).at s h
  Keeps-continue (exit r) f kf s h = h
  Keeps-continue aborted f kf s h = h
  Keeps-continue fault f kf s h = h
  Keeps-continue exhausted f kf s h = h

  pub Keeps-bind :
      (m : Proc R A) (f : A → Proc R B) → Keeps P m → ((a : A) → Keeps P (f a)) → Keeps P (m >>= f)
  Keeps-bind m f km kf = record {
    at = λ s h. let (o, s') = m s in Keeps-continue o f kf s' (km.at s h);
  }

module _ {R : Type 0} {P : Handle → Type 0} where
  pub Keeps-external : (c : Call) → Keeps P (external {R = R} c)
  Keeps-external c = record { at = λ s h. h }

  pub Keeps-ignore : (c : Call) → Keeps P (ignore {R = R} c)
  Keeps-ignore c = record { at = λ s h. h }

  pub Keeps-external_text : (c : Call) → Keeps P (external_text {R = R} c)
  Keeps-external_text c = record { at = λ s h. h }

  pub Keeps-external_stored : (c : Call) → Keeps P (external_stored {R = R} c)
  Keeps-external_stored c = record { at = λ s h. h }

  pub Keeps-external_received : (c : Call) → Keeps P (external_received {R = R} c)
  Keeps-external_received c = record { at = λ s h. h }

  pub Keeps-get_handle : Keeps P (get_handle {R = R})
  Keeps-get_handle = record { at = λ s h. h }

  pub Keeps-modify_handle :
      (f : Handle → Handle) → ((h : Handle) → P h → P (f h)) → Keeps P (modify_handle {R = R} f)
  Keeps-modify_handle f kf = record { at = λ s h. kf s.handle h }

  pub Keeps-when : (b : Bool) (m : Proc R Unit) → Keeps P m → Keeps P (when b m)
  Keeps-when true m km = km
  Keeps-when false m km = record { at = λ s h. h }

  pub Keeps-assert : (b : Bool) → Keeps P (assert {R = R} b)
  Keeps-assert true = record { at = λ s h. h }
  Keeps-assert false = record { at = λ s h. h }

  pub Keeps-for_from :
      (start count : ℕ) (body : ℕ → Proc R Unit)
      → ((i : ℕ) → Keeps P (body i))
      → Keeps P (for_from start count body)
  unfolding for_from
  Keeps-for_from start zero body kb = record { at = λ s h. h }
  Keeps-for_from start (suc count) body kb =
      Keeps-bind (body start) (λ _. for_from (start + 1) count body) (kb start)
        (λ _. Keeps-for_from (start + 1) count body kb)

-- What follows an action runs only if the action goes on.
pub Keeps-then :
    {R A : Type 0} (P : Handle → Type 0) (m : Proc R Unit) (n : Proc R A)
    → Keeps P m
    → Keeps P n
    → Keeps P (m >> n)
Keeps-then P m n km kn = Keeps-bind m (λ _. n) km (λ _. kn)

pub ruleset keeps_rules = (
  Keeps-pure, Keeps-return, Keeps-undefined, Keeps-out_of_fuel, Keeps-gets, Keeps-invoke, Keeps-if,
  Keeps-bind, Keeps-external, Keeps-ignore, Keeps-external_text, Keeps-external_stored,
  Keeps-external_received, Keeps-get_handle, Keeps-modify_handle, Keeps-when, Keeps-assert,
  Keeps-for_from,
)
