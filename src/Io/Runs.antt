-- ===== src/Io/Runs.antt =====
-- Running a function body from a given handle, on every reply of the world outside: one rule for
-- each statement that can stand at its front.
use esio.Prelude.{ℤ, ◌≡◌, refl, sym, ap, Bool, true, false, Option, List, if◌then◌else◌}
use esio.Io.{
  Text, Call, Handle, Machine, Outcome, Proc, pure, return, undefined, gets, modify_handle,
  get_handle, external, ignore, external_text, external_stored, external_received, continue, ◌>>=◌,
  returned, invoke, when, next, exit, aborted, fault, exhausted,
}
use mathlib.Core.Path.{subst}
use esio.Io.Keeps.{Keeps}

-- `Q` holds where the body goes on and `X` where it returned early. Nothing is asked of a process
-- that ended.
abbrev pub Ends :
    {R A : Type 0} → (A → Handle → Type 0) → (R → Handle → Type 0) → Outcome R A → Handle → Type 0
Ends Q X (next a) h = Q a h
Ends Q X (exit r) h = X r h
Ends Q X aborted h = Unit
Ends Q X fault h = Unit
Ends Q X exhausted h = Unit

pub record Runs {R A : Type 0} (h : Handle) (m : Proc R A) (Q : A → Handle → Type 0)
    (X : R → Handle → Type 0) : Type 0 where
  pub at : (s : Machine) → s.handle ≡ h → Ends Q X (m s).0 (m s).1.handle

-- The last statements of a body.
module _ {R A : Type 0} {Q : A → Handle → Type 0} {X : R → Handle → Type 0} {h : Handle} where
  pub Runs-pure : (a : A) → Q a h → Runs h (pure a) Q X
  Runs-pure a q = record { at = λ s e. subst (Q a) (sym e) q }

  pub Runs-return : (r : R) → X r h → Runs h (return r) Q X
  Runs-return r x = record { at = λ s e. subst (X r) (sym e) x }

  pub Runs-undefined : Runs h undefined Q X
  Runs-undefined = record { at = λ s e. tt }

  pub Runs-if :
      (b : Bool) (m n : Proc R A)
      → (b ≡ true → Runs h m Q X)
      → (b ≡ false → Runs h n Q X)
      → Runs h (if b then m else n) Q X
  Runs-if true m n km kn = km refl
  Runs-if false m n km kn = kn refl

module _ {R A B : Type 0} {Q : B → Handle → Type 0} {X : R → Handle → Type 0} {h : Handle} where
  continue-invoked :
      (o : Outcome A A) (f : A → Proc R B)
      → ((a : A) → Runs h (f a) Q X)
      → (s : Machine) → s.handle ≡ h
      → Ends Q X (continue (returned o) f s).0 (continue (returned o) f s).1.handle
  continue-invoked (next a) f k s e = (k a).at s e
  continue-invoked (exit a) f k s e = (k a).at s e
  continue-invoked aborted f k s e = tt
  continue-invoked fault f k s e = tt
  continue-invoked exhausted f k s e = tt

  pub Runs-pure_bind : (a : A) (f : A → Proc R B) → Runs h (f a) Q X → Runs h (pure a >>= f) Q X
  Runs-pure_bind a f k = record { at = λ s e. k.at s e }

  pub Runs-gets_bind :
      (g : Machine → A) (f : A → Proc R B)
      → ((a : A) → Runs h (f a) Q X)
      → Runs h (gets g >>= f) Q X
  Runs-gets_bind g f k = record { at = λ s e. (k (g s)).at s e }

  pub Runs-return_bind : (r : R) (f : A → Proc R B) → X r h → Runs h (return r >>= f) Q X
  Runs-return_bind r f x = record { at = λ s e. subst (X r) (sym e) x }

  pub Runs-undefined_bind : (f : A → Proc R B) → Runs h (undefined >>= f) Q X
  Runs-undefined_bind f = record { at = λ s e. tt }

  -- A callee that keeps every property of the handle.
  pub Runs-invoke_bind :
      (m : Proc A A) (f : A → Proc R B)
      → Keeps (λ h'. h' ≡ h) m
      → ((a : A) → Runs h (f a) Q X)
      → Runs h (invoke m >>= f) Q X
  Runs-invoke_bind m f km k = record {
    at = λ s e. let (o, s') = m s in continue-invoked o f k s' (km.at s e);
  }

  pub Runs-if_bind :
      (b : Bool) (m n : Proc R A) (f : A → Proc R B)
      → (b ≡ true → Runs h (m >>= f) Q X)
      → (b ≡ false → Runs h (n >>= f) Q X)
      → Runs h ((if b then m else n) >>= f) Q X
  Runs-if_bind true m n f km kn = km refl
  Runs-if_bind false m n f km kn = kn refl

module _ {R A B C : Type 0} where
  continue_assoc :
      (Q : C → Handle → Type 0) (X : R → Handle → Type 0) (o : Outcome R A) (g : A → Proc R B)
      (f : B → Proc R C) (s : Machine)
      → Ends Q X (continue o (λ a. g a >>= f) s).0 (continue o (λ a. g a >>= f) s).1.handle
      → Ends Q X
          (let (p, s') = continue o g s in continue p f s').0
          (let (p, s') = continue o g s in continue p f s').1.handle
  continue_assoc Q X (next a) g f s k = k
  continue_assoc Q X (exit r) g f s k = k
  continue_assoc Q X aborted g f s k = k
  continue_assoc Q X fault g f s k = k
  continue_assoc Q X exhausted g f s k = k

module _ {R A B C : Type 0} {Q : C → Handle → Type 0} {X : R → Handle → Type 0} {h : Handle} where
  pub Runs-assoc :
      (m : Proc R A) (g : A → Proc R B) (f : B → Proc R C)
      → Runs h (m >>= λ a. g a >>= f) Q X
      → Runs h (m >>= g >>= f) Q X
  Runs-assoc m g f k = record {
    at = λ s e. let (o, s') = m s in continue_assoc Q X o g f s' (k.at s e);
  }

module _ {R B : Type 0} {Q : B → Handle → Type 0} {X : R → Handle → Type 0} {h : Handle} where
  pub Runs-when_bind :
      (b : Bool) (m : Proc R Unit) (f : Unit → Proc R B)
      → (b ≡ true → Runs h (m >>= f) Q X)
      → (b ≡ false → Runs h (f tt) Q X)
      → Runs h (when b m >>= f) Q X
  Runs-when_bind true m f km kn = km refl
  Runs-when_bind false m f km kn = record { at = λ s e. (kn refl).at s e }

  pub Runs-get_handle_bind :
      (f : Handle → Proc R B) → Runs h (f h) Q X → Runs h (get_handle >>= f) Q X
  Runs-get_handle_bind f k = record {
    at = λ s e. subst (λ h'. Ends Q X (f h' s).0 (f h' s).1.handle) (sym e) (k.at s e);
  }

  pub Runs-modify_handle_bind :
      (g : Handle → Handle) (f : Unit → Proc R B)
      → Runs (g h) (f tt) Q X
      → Runs h (modify_handle g >>= f) Q X
  Runs-modify_handle_bind g f k = record {
    at = λ s e. k.at (record s { handle = g s.handle }) (ap g e);
  }

  pub Runs-external_bind :
      (c : Call) (f : ℤ → Proc R B) → ((r : ℤ) → Runs h (f r) Q X) → Runs h (external c >>= f) Q X
  Runs-external_bind c f k = record {
    at = λ s e. (k (s.env.status s.calls c)).at (external {R = Unit} c s).1 e;
  }

  pub Runs-ignore_bind :
      (c : Call) (f : Unit → Proc R B) → Runs h (f tt) Q X → Runs h (ignore c >>= f) Q X
  Runs-ignore_bind c f k = record { at = λ s e. k.at (ignore {R = Unit} c s).1 e }

  pub Runs-external_text_bind :
      (c : Call) (f : Option Text → Proc R B)
      → ((t : Option Text) → Runs h (f t) Q X)
      → Runs h (external_text c >>= f) Q X
  Runs-external_text_bind c f k = record {
    at = λ s e. (k (s.env.text s.calls c)).at (external_text {R = Unit} c s).1 e;
  }

  pub Runs-external_stored_bind :
      (c : Call) (f : ℤ × List ℤ → Proc R B)
      → ((r : ℤ) (l : List ℤ) → Runs h (f (r, l)) Q X)
      → Runs h (external_stored c >>= f) Q X
  Runs-external_stored_bind c f k = record {
    at = λ s e.
        (k (s.env.status s.calls c) (s.env.stored s.calls c)).at (external_stored {R = Unit} c s).1
          e;
  }

  pub Runs-external_received_bind :
      (c : Call) (f : ℤ × Option Text → Proc R B)
      → ((r : ℤ) (t : Option Text) → Runs h (f (r, t)) Q X)
      → Runs h (external_received c >>= f) Q X
  Runs-external_received_bind c f k = record {
    at = λ s e.
        (k (s.env.status s.calls c) (s.env.text s.calls c)).at (external_received {R = Unit} c s).1
          e;
  }

module _ {R A : Type 0} where
  pub Ends-weaken :
      (Q Q' : A → Handle → Type 0) (X X' : R → Handle → Type 0) (o : Outcome R A) (h : Handle)
      → ((a : A) → Q a h → Q' a h)
      → ((r : R) → X r h → X' r h)
      → Ends Q X o h
      → Ends Q' X' o h
  Ends-weaken Q Q' X X' (next a) h q x e = q a e
  Ends-weaken Q Q' X X' (exit r) h q x e = x r e
  Ends-weaken Q Q' X X' aborted h q x e = tt
  Ends-weaken Q Q' X X' fault h q x e = tt
  Ends-weaken Q Q' X X' exhausted h q x e = tt

module _ {R A : Type 0} {Q Q' : A → Handle → Type 0} {X X' : R → Handle → Type 0} {h : Handle} where
  pub Runs-weaken :
      (m : Proc R A)
      → ((a : A) (h' : Handle) → Q a h' → Q' a h')
      → ((r : R) (h' : Handle) → X r h' → X' r h')
      → Runs h m Q X
      → Runs h m Q' X'
  Runs-weaken m q x k = record {
    at = λ s e.
        Ends-weaken Q Q' X X' (m s).0 (m s).1.handle (λ a. q a (m s).1.handle)
          (λ r. x r (m s).1.handle) (k.at s e);
  }

pub ruleset body_rules = (
  Runs-pure, Runs-return, Runs-undefined, Runs-if, Runs-pure_bind, Runs-gets_bind, Runs-invoke_bind,
  Runs-return_bind, Runs-undefined_bind, Runs-if_bind, Runs-assoc, Runs-when_bind,
  Runs-get_handle_bind, Runs-modify_handle_bind, Runs-external_bind, Runs-ignore_bind,
  Runs-external_text_bind, Runs-external_stored_bind, Runs-external_received_bind,
)
