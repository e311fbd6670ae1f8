-- ===== src/Io/Safe.antt =====
-- A property of the handle that holds again when an action returns, though not in between.
use esio.Io.Runs.{Ends, Runs}
use esio.Io.Keeps.{Keeps}
use esio.Prelude.{Bool, true, false, refl, if◌then◌else◌}
use esio.Io.Monad.{
  next, exit, aborted, fault, exhausted, Proc, Outcome, returned, invoke, continue, ◌>>=◌, when,
}
use esio.Io.State.{Machine, Handle}

pub record Safe {R A : Type 0} (P : Handle → Type 0) (m : Proc R A) : Type 0 where
  pub at : (s : Machine) → P s.handle → Ends (λ _. P) (λ _. P) (m s).0 (m s).1.handle

-- What a state that ended well says, on each outcome.
module _ {R A : Type 0} where
  kept : (P : Handle → Type 0) (o : Outcome R A) (h : Handle) → P h → Ends (λ _. P) (λ _. P) o h
  kept P (next a) h p = p
  kept P (exit r) h p = p
  kept P aborted h p = tt
  kept P fault h p = tt
  kept P exhausted h p = tt

module _ {R A : Type 0} {P : Handle → Type 0} where
  pub Safe-runs_each : (m : Proc R A) → ((h : Handle) → P h → Runs h m (λ _. P) (λ _. P)) → Safe P m
  Safe-runs_each m k = record { at = λ s p. (k s.handle p).at s refl }

invoked :
    (R : Type 0) {A : Type 0} (P : Handle → Type 0) (o : Outcome A A) (h : Handle)
    → Ends (λ _. P) (λ _. P) o h
    → Ends {R = R} (λ _. P) (λ _. P) (returned o) h
invoked R P (next a) h e = e
invoked R P (exit a) h e = e
invoked R P aborted h e = tt
invoked R P fault h e = tt
invoked R P exhausted h e = tt

module _ {R A : Type 0} {P : Handle → Type 0} where
  pub Safe-Keeps : (m : Proc R A) → Keeps P m → Safe P m
  Safe-Keeps m km = record { at = λ s p. kept P (m s).0 (m s).1.handle (km.at s p) }

  pub Safe-invoke : (m : Proc A A) → Safe P m → Safe P (invoke {R = R} m)
  Safe-invoke m km = record { at = λ s p. invoked R P (m s).0 (m s).1.handle (km.at s p) }

  pub Safe-if : (b : Bool) (m n : Proc R A) → Safe P m → Safe P n → Safe P (if b then m else n)
  Safe-if true m n km kn = km
  Safe-if false m n km kn = kn

module _ {R A B : Type 0} where
  bound :
      (P : Handle → Type 0) (o : Outcome R A) (f : A → Proc R B) (s : Machine)
      → ((a : A) → Safe P (f a))
      → Ends (λ _. P) (λ _. P) o s.handle
      → Ends (λ _. P) (λ _. P) (continue o f s).0 (continue o f s).1.handle
  bound P (next a) f s kf e = (kf a).at s e
  bound P (exit r) f s kf e = e
  bound P aborted f s kf e = tt
  bound P fault f s kf e = tt
  bound P exhausted f s kf e = tt

module _ {R A B : Type 0} {P : Handle → Type 0} where
  pub Safe-bind :
      (m : Proc R A) (f : A → Proc R B) → Safe P m → ((a : A) → Safe P (f a)) → Safe P (m >>= f)
  Safe-bind m f km kf = record { at = λ s p. let (o, s') = m s in bound P o f s' kf (km.at s p) }

module _ {R : Type 0} {P : Handle → Type 0} where
  pub Safe-when : (b : Bool) (m : Proc R Unit) → Safe P m → Safe P (when b m)
  Safe-when true m km = km
  Safe-when false m km = record { at = λ s p. p }

pub ruleset safe_rules = (Safe-Keeps, Safe-invoke, Safe-if, Safe-bind, Safe-when)
