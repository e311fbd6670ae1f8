-- ===== src/Apps/Argp.antt =====
-- Command lines as argp reads them. It hands each option and argument to a callback of the program,
-- and ends the program where the callback reports a mistake.
use esio.Prelude.{Bool, true, false, Option, List, [], ◌∷◌}
use esio.Io.{Text}

-- The program goes on, ends with a message, or meets undefined behaviour.
pub data Parsed (A : Type 0) : Type 0 where
  parsed : A → Parsed A
  stopped : Parsed A
  fault : Parsed A

infixl 5 ◌>>=◌ ◌>>◌
abbrev pub ◌>>=◌ : {A B : Type 0} → Parsed A → (A → Parsed B) → Parsed B
parsed a >>= f = f a
stopped >>= f = stopped
fault >>= f = fault

abbrev pub ◌>>◌ : {B : Type 0} → Parsed (Unit {0}) → Parsed B → Parsed B
m >> k = m >>= λ _. k

-- `if (wrong) argp_failure(…);`
abbrev pub stop_if : Bool → Parsed (Unit {0})
stop_if true = stopped
stop_if false = parsed tt

abbrev pub undefined_if : Bool → Parsed (Unit {0})
undefined_if true = fault
undefined_if false = parsed tt

-- argp calls `parse_opt` for each option and argument, in an order of its own.
module _ {K D : Type 0} where
  unfoldable pub run_argp : (K → Option Text → D → Parsed D) → List (K × Option Text) → D → Parsed D
  run_argp parse_opt [] d = parsed d
  run_argp parse_opt ((key, arg) ∷ rest) d = parse_opt key arg d >>= run_argp parse_opt rest
