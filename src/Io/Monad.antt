-- ===== src/Io/Monad.antt =====
-- A C function body: it runs on the state, and a `return` inside it ends it early.
use esio.Prelude.{
  ltb, ℕ, zero, suc, ◌+◌, ℤ, List, [], ◌∷◌, Bool, true, false, Option, none, some, if◌then◌else◌,
}
use esio.Io.State.{HandlePointer, null, live, Text, Call, Handle, Machine}

-- `exit` is an executed `return`, `aborted` follows MPI_Abort, `fault` is undefined behaviour, and
-- `exhausted` is a loop whose fuel ran out.
pub data Outcome (R A : Type 0) : Type 0 where
  next : A → Outcome R A
  exit : R → Outcome R A
  aborted : Outcome R A
  fault : Outcome R A
  exhausted : Outcome R A

abbrev pub Proc : Type 0 → Type 0 → Type 0
Proc R A = Machine → Outcome R A × Machine

module _ {R A : Type 0} where
  abbrev pub pure : A → Proc R A
  pure a s = (next a, s)

  -- `return r;`
  abbrev pub return : R → Proc R A
  return r s = (exit r, s)

  abbrev pub undefined : Proc R A
  undefined s = (fault, s)

  abbrev pub out_of_fuel : Proc R A
  out_of_fuel s = (exhausted, s)

  abbrev pub gets : (Machine → A) → Proc R A
  gets f s = (next (f s), s)

module _ {R : Type 0} where
  abbrev pub modify : (Machine → Machine) → Proc R (Unit {0})
  modify f s = (next tt, f s)

  abbrev pub modify_handle : (Handle → Handle) → Proc R (Unit {0})
  modify_handle f s = (next tt, record s { handle = f s.handle })

  abbrev pub get_handle : Proc R Handle
  get_handle s = (next s.handle, s)

  -- A call of a function outside the repository.
  abbrev pub external : Call → Proc R ℤ
  external c s =
      let r = s.env.status s.calls c in
      (next r, record s { calls = record { call = c; result = r } ∷ s.calls })

  -- The same for its side effect, as C discards a result.
  abbrev pub ignore : Call → Proc R (Unit {0})
  ignore c s =
      (next tt, record s { calls = record { call = c; result = s.env.status s.calls c } ∷ s.calls })

  -- A call that hands back a string, or a null pointer.
  abbrev pub external_text : Call → Proc R (Option Text)
  external_text c s = (
    next (s.env.text s.calls c),
    record s { calls = record { call = c; result = s.env.status s.calls c } ∷ s.calls },
  )

  -- A call that stores numbers through its output pointers, beside its result.
  abbrev pub external_stored : Call → Proc R (ℤ × List ℤ)
  external_stored c s =
      let r = s.env.status s.calls c in
      (
        next (r, s.env.stored s.calls c),
        record s { calls = record { call = c; result = r } ∷ s.calls },
      )

  -- A call that stores a string through its output pointer, beside its result.
  abbrev pub external_received : Call → Proc R (ℤ × Option Text)
  external_received c s =
      let r = s.env.status s.calls c in
      (
        next (r, s.env.text s.calls c),
        record s { calls = record { call = c; result = r } ∷ s.calls },
      )

abbrev pub continue : {R A B : Type 0} → Outcome R A → (A → Proc R B) → Proc R B
continue (next a) f s = f a s
continue (exit r) f s = (exit r, s)
continue aborted f s = (aborted, s)
continue fault f s = (fault, s)
continue exhausted f s = (exhausted, s)

infixl 5 ◌>>=◌ ◌>>◌
abbrev pub ◌>>=◌ : {R A B : Type 0} → Proc R A → (A → Proc R B) → Proc R B
◌>>=◌ m f s = let (r, s') = m s in continue r f s'

abbrev pub ◌>>◌ : {R A B : Type 0} → Proc R A → Proc R B → Proc R B
m >> k = m >>= λ _. k

abbrev pub returned : {R A : Type 0} → Outcome A A → Outcome R A
returned (next a) = next a
returned (exit a) = next a
returned aborted = aborted
returned fault = fault
returned exhausted = exhausted

-- A call of a function of the repository: its `return` ends the callee and not the caller.
abbrev pub invoke : {R A : Type 0} → Proc A A → Proc R A
invoke m s = let (r, s') = m s in (returned r, s')

abbrev pub when : {R : Type 0} → Bool → Proc R (Unit {0}) → Proc R (Unit {0})
when b m = if b then m else pure tt

-- The greatest int.
abbrev pub int_limit : ℕ
int_limit = 2147483647

-- An int expression with this value, which is undefined where it overflows.
abbrev pub in_int : {R : Type 0} → ℕ → Proc R (Unit {0})
in_int n = when (ltb int_limit n) undefined

abbrev pub is_null : HandlePointer → Bool
is_null null = true
is_null live = false

abbrev pub is_none : {A : Type 0} → Option A → Bool
is_none none = true
is_none (some a) = false

-- A failed `assert` aborts the process.
abbrev pub assert : {R : Type 0} → Bool → Proc R (Unit {0})
assert true s = (next tt, s)
assert false s = (aborted, s)

-- `for (int i = start; i < start + count; ++i) body(i);`
unfoldable pub for_from : {R : Type 0} → ℕ → ℕ → (ℕ → Proc R (Unit {0})) → Proc R (Unit {0})
for_from start zero body = pure tt
for_from start (suc count) body = body start >> for_from (start + 1) count body

-- `comment && *comment`
abbrev pub is_given : Option Text → Bool
is_given none = false
is_given (some []) = false
is_given (some (c ∷ text)) = true

abbrev pub text_or_empty : Option Text → Text
text_or_empty none = []
text_or_empty (some text) = text
