-- ===== src/Apps/Bench/Options/Yields.antt =====
-- What holds of a number that parse_opt of apps/esio_bench.c goes on with.
use esio.Prelude.{ℤ, pos, negsuc, ◌≤◌, ◌≡◌, refl, Bool, true, false, Option, List, [], ◌∷◌, arith}
use esio.Io.{Text}
use esio.Apps.Text.{sscanf, integer, blank, character}
use esio.Apps.Bench.Arguments.{or_empty, one_of, scan_one, some_overflow, below_one, layout_wrong}
use esio.Apps.Argp.{Parsed, ◌>>=◌, ◌>>◌, stop_if, undefined_if, parsed, stopped, fault}
use esio.Layout.Table.{field_layout_count, field_layout}

-- `P` holds of what was parsed, if the program goes on.
abbrev pub Yields : {A : Type 0} → (A → Type 0) → Parsed A → Type 0
Yields P (parsed a) = P a
Yields P stopped = Unit
Yields P fault = Unit

pub Yields-bind :
    {A B : Type 0} (Q : A → Type 0) (P : B → Type 0) (m : Parsed A) (f : A → Parsed B)
    → Yields Q m
    → ((a : A) → Q a → Yields P (f a))
    → Yields P (m >>= f)
Yields-bind Q P (parsed a) f q k = k a q
Yields-bind Q P stopped f q k = tt
Yields-bind Q P fault f q k = tt

pub Yields-stop_if :
    {B : Type 0} (P : B → Type 0) (test : Bool) (m : Parsed B)
    → (test ≡ false → Yields P m)
    → Yields P (stop_if test >> m)
Yields-stop_if P true m k = tt
Yields-stop_if P false m k = k refl

Yields-undefined_if :
    {B : Type 0} (P : B → Type 0) (test : Bool) (m : Parsed B)
    → Yields P m
    → Yields P (undefined_if test >> m)
Yields-undefined_if P true m k = tt
Yields-undefined_if P false m k = k

one_of-below : (ns : List ℤ) → Yields (λ n. 1 ≤ n) (one_of below_one ns)
one_of-below [] = tt
one_of-below (pos k ∷ []) = Yields-stop_if _ (below_one (pos k)) (parsed k) (λ e. ground arith)
one_of-below (negsuc k ∷ []) =
    Yields-stop_if _ (below_one (negsuc k)) (parsed 0) (λ e. absurd (ground arith))
one_of-below (n ∷ m ∷ ns) = tt

one_of-layout : (ns : List ℤ) → Yields (λ n. n ≤ 3) (one_of layout_wrong ns)
unfolding field_layout_count field_layout
one_of-layout [] = tt
one_of-layout (pos k ∷ []) = Yields-stop_if _ (layout_wrong (pos k)) (parsed k) (λ e. ground arith)
one_of-layout (negsuc k ∷ []) = tt
one_of-layout (n ∷ m ∷ ns) = tt

pub scan_one-positive : (arg : Option Text) → Yields (λ n. 1 ≤ n) (scan_one below_one arg)
unfolding scan_one
scan_one-positive arg =
    let ns = sscanf (integer ∷ blank ∷ character ∷ []) (or_empty arg) in
    Yields-undefined_if _ (some_overflow ns) (one_of below_one ns) (one_of-below ns)

pub scan_one-layout : (arg : Option Text) → Yields (λ n. n ≤ 3) (scan_one layout_wrong arg)
unfolding scan_one
scan_one-layout arg =
    let ns = sscanf (integer ∷ blank ∷ character ∷ []) (or_empty arg) in
    Yields-undefined_if _ (some_overflow ns) (one_of layout_wrong ns) (one_of-layout ns)

-- Where nothing is asked of the number.
pub Yields-any : {A : Type 0} (m : Parsed A) → Yields (λ _. Unit {0}) m
Yields-any (parsed a) = tt
Yields-any stopped = tt
Yields-any fault = tt
