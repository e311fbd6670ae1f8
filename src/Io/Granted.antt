-- ===== src/Io/Granted.antt =====
-- Running a body forwards from a state in which the world grants what the body asks for: one rule for
-- each statement that can stand at its front.
use esio.Prelude.{ℤ, ◌≡◌, Bool, true, false, arith, sym, ◌∷◌, List, if◌then◌else◌}
use mathlib.Core.Path.{subst}
use esio.Io.State.{Call, Event, Machine, Handle}
use esio.Io.Monad.{
  Outcome, Proc, pure, external, gets, ignore, get_handle, modify_handle, external_stored, invoke,
  when, return, exit, assert, aborted, fault, exhausted, continue, returned, next, ◌>>=◌,
}

-- The state after a call.
abbrev pub called : Machine → Call → ℤ → Machine
called s c r = record s { calls = record { call = c; result = r } ∷ s.calls }

-- From this state on, the body ends as `Q` says.
pub record EndsIn {R A : Type 0} (Q : Outcome R A × Machine → Type 0) (s : Machine) (m : Proc R A)
    : Type 0 where
  pub ends : Q (m s)

module _ {R A : Type 0} {Q : Outcome R A × Machine → Type 0} {s : Machine} where
  pub EndsIn-pure : (a : A) → Q (next a, s) → EndsIn Q s (pure a)
  EndsIn-pure a q = record { ends = q }

  -- A call with a known answer.
  pub EndsIn-answered_bind :
      (c : Call) (f : ℤ → Proc R A) (r : ℤ)
      → s.env.status s.calls c ≡ r
      → EndsIn Q (called s c r) (f r)
      → EndsIn Q s (external c >>= f)
  EndsIn-answered_bind c f r e g = record {
    ends = subst (λ r. Q (f r (called s c r))) (sym e) g.ends;
  }

  -- A call with any answer.
  pub EndsIn-external_bind :
      (c : Call) (f : ℤ → Proc R A)
      → EndsIn Q (called s c (s.env.status s.calls c)) (f (s.env.status s.calls c))
      → EndsIn Q s (external c >>= f)
  EndsIn-external_bind c f g = record { ends = g.ends }

  pub EndsIn-stored_bind :
      (c : Call) (f : ℤ × List ℤ → Proc R A) (r : ℤ) (values : List ℤ)
      → s.env.status s.calls c ≡ r
      → s.env.stored s.calls c ≡ values
      → EndsIn Q (called s c r) (f (r, values))
      → EndsIn Q s (external_stored c >>= f)
  EndsIn-stored_bind c f r values e e' g = record {
    ends =
        subst (λ r. Q (f (r, s.env.stored s.calls c) (called s c r))) (sym e)
          (subst (λ v. Q (f (r, v) (called s c r))) (sym e') g.ends);
  }

  pub EndsIn-ignore_bind :
      (c : Call) (f : Unit → Proc R A)
      → ((r : ℤ) → EndsIn Q (called s c r) (f tt))
      → EndsIn Q s (ignore c >>= f)
  EndsIn-ignore_bind c f g = record { ends = (g (s.env.status s.calls c)).ends }

  pub EndsIn-get_handle_bind :
      (f : Handle → Proc R A) → EndsIn Q s (f s.handle) → EndsIn Q s (get_handle >>= f)
  EndsIn-get_handle_bind f g = record { ends = g.ends }

  pub EndsIn-gets_bind :
      {B : Type 0} (g : Machine → B) (f : B → Proc R A)
      → EndsIn Q s (f (g s))
      → EndsIn Q s (gets g >>= f)
  EndsIn-gets_bind g f h = record { ends = h.ends }

  pub EndsIn-modify_handle_bind :
      (h : Handle → Handle) (f : Unit → Proc R A)
      → EndsIn Q (record s { handle = h s.handle }) (f tt)
      → EndsIn Q s (modify_handle h >>= f)
  EndsIn-modify_handle_bind h f g = record { ends = g.ends }

  pub EndsIn-when_bind :
      (test : Bool) (m : Proc R Unit) (f : Unit → Proc R A)
      → test ≡ false
      → EndsIn Q s (f tt)
      → EndsIn Q s (when test m >>= f)
  EndsIn-when_bind true m f e g = absurd (ground arith)
  EndsIn-when_bind false m f e g = record { ends = g.ends }

  pub EndsIn-return_bind :
      (test : Bool) (r : R) (m : Proc R Unit) (f : Unit → Proc R A)
      → test ≡ true
      → Q (exit r, s)
      → EndsIn Q s ((if test then return r else m) >>= f)
  EndsIn-return_bind true r m f e q = record { ends = q }
  EndsIn-return_bind false r m f e q = absurd (ground arith)

  pub EndsIn-else_bind :
      (test : Bool) (m n : Proc R Unit) (f : Unit → Proc R A)
      → test ≡ false
      → EndsIn Q s (n >>= f)
      → EndsIn Q s ((if test then m else n) >>= f)
  EndsIn-else_bind true m n f e g = absurd (ground arith)
  EndsIn-else_bind false m n f e g = record { ends = g.ends }

  pub EndsIn-assert_bind :
      (test : Bool) (f : Unit → Proc R A)
      → test ≡ true
      → EndsIn Q s (f tt)
      → EndsIn Q s (assert test >>= f)
  EndsIn-assert_bind true f e g = record { ends = g.ends }
  EndsIn-assert_bind false f e g = absurd (ground arith)

  pub EndsIn-taken_bind :
      (test : Bool) (m : Proc R Unit) (f : Unit → Proc R A)
      → test ≡ true
      → EndsIn Q s (m >>= f)
      → EndsIn Q s (when test m >>= f)
  EndsIn-taken_bind true m f e g = record { ends = g.ends }
  EndsIn-taken_bind false m f e g = absurd (ground arith)

  -- A test that is not decided.
  pub EndsIn-when_either_bind :
      (test : Bool) (m : Proc R Unit) (f : Unit → Proc R A)
      → EndsIn Q s (m >>= f)
      → EndsIn Q s (f tt)
      → EndsIn Q s (when test m >>= f)
  EndsIn-when_either_bind true m f g h = record { ends = g.ends }
  EndsIn-when_either_bind false m f g h = record { ends = h.ends }

  pub EndsIn-assoc :
      (c : Call) (g : ℤ → Proc R Unit) (f : Unit → Proc R A)
      → EndsIn Q s (external c >>= λ r. g r >>= f)
      → EndsIn Q s (external c >>= g >>= f)
  EndsIn-assoc c g f h = record { ends = h.ends }

-- Calls that the world answers alike whatever was called before, as rules for a search.
module _ (s : Machine) (c : Call) (r : ℤ)
    (e : (calls : List Event) → s.env.status calls c ≡ r) where
  pub EndsIn-known_bind :
      {R A : Type 0} {Q : Outcome R A × Machine → Type 0} {calls : List Event} (f : ℤ → Proc R A)
      → EndsIn Q (called (record s { calls = calls }) c r) (f r)
      → EndsIn Q (record s { calls = calls }) (external c >>= f)
  EndsIn-known_bind {calls = calls} f g = EndsIn-answered_bind c f r (e calls) g

  pub EndsIn-kept_bind :
      (values : List ℤ) (e' : (calls : List Event) → s.env.stored calls c ≡ values)
      → {R A : Type 0} {Q : Outcome R A × Machine → Type 0} {calls : List Event}
      → (f : ℤ × List ℤ → Proc R A)
      → EndsIn Q (called (record s { calls = calls }) c r) (f (r, values))
      → EndsIn Q (record s { calls = calls }) (external_stored c >>= f)
  EndsIn-kept_bind values e' {calls = calls} f g =
      EndsIn-stored_bind c f r values (e calls) (e' calls) g

-- A call of a function of the repository, of which the end is known.
module _ {R A B : Type 0} {Q : Outcome R A × Machine → Type 0} {s : Machine} where
  pub EndsIn-invoke_bind :
      (m : Proc B B) (f : B → Proc R A) (b : B) (left : Machine)
      → m s ≡ (next b, left)
      → EndsIn Q left (f b)
      → EndsIn Q s (invoke m >>= f)
  EndsIn-invoke_bind m f b left e g = record {
    ends =
        subst (λ (r : Outcome B B × Machine). Q (continue {R = R} (returned r.0) f r.1)) (sym e)
          g.ends;
  }

  pub EndsIn-invoke_exit_bind :
      (m : Proc B B) (f : B → Proc R A) (b : B) (left : Machine)
      → m s ≡ (exit b, left)
      → EndsIn Q left (f b)
      → EndsIn Q s (invoke m >>= f)
  EndsIn-invoke_exit_bind m f b left e g = record {
    ends =
        subst (λ (r : Outcome B B × Machine). Q (continue {R = R} (returned r.0) f r.1)) (sym e)
          g.ends;
  }

  -- A block of statements at the front.
  pub EndsIn-block_bind :
      {C : Type 0} (m : Proc R C) (g : C → Proc R B) (f : B → Proc R A)
      → EndsIn Q s (m >>= λ c. g c >>= f)
      → EndsIn Q s (m >>= g >>= f)
  EndsIn-block_bind m g f h = record { ends = ends_as (m s).0 (m s).1 h.ends }
    where
      ends_as :
          (o : Outcome R _) (left : Machine)
          → Q (continue o (λ c. g c >>= f) left)
          → Q (continue (continue o g left).0 f (continue o g left).1)
      ends_as (next c) left q = q
      ends_as (exit r) left q = q
      ends_as aborted left q = q
      ends_as fault left q = q
      ends_as exhausted left q = q

  pub EndsIn-exit_bind : (r : R) (f : B → Proc R A) → Q (exit r, s) → EndsIn Q s (return r >>= f)
  EndsIn-exit_bind r f q = record { ends = q }

pub ruleset granted_steps = (
  EndsIn-assoc, EndsIn-ignore_bind, EndsIn-get_handle_bind, EndsIn-gets_bind,
  EndsIn-modify_handle_bind, EndsIn-when_bind,
)
