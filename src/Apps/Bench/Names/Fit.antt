-- ===== src/Apps/Bench/Names/Fit.antt =====
-- The names of apps/esio_bench.c fit their slots, unless there is only one.
use esio.Prelude.{
  ℕ, zero, suc, ◌+◌, ◌^◌, ◌≤◌, ◌≡◌, refl, ap, ◌∙◌, List, [], ◌∷◌, arith, ltb, length, is_zero,
  false, pos, ◌*◌, true,
}
use esio.Io.{Text, Machine, next, fault, external, malloc, continue, pure, ◌>>=◌}
use esio.Restart.Format.{padded}
use esio.Restart.Format.Width.{padded-length, padded_zero}
use esio.Apps.Bench.Names.{print_name, print_names, allocate_names}

-- The names from the slot `i` on.
abbrev pub names_from : ℕ → ℕ → ℕ → List Text
names_from ndigits i zero = []
names_from ndigits i (suc rounds) = (b'X' ∷ padded ndigits i) ∷ names_from ndigits (i + 1) rounds

print_name-fits :
    {R : Type 0} (k i : ℕ) (s : Machine)
    → length (padded k i) ≡ k
    → print_name {R = R} (1 + k + 1) k i s ≡ (next (b'X' ∷ padded k i), s)
unfolding print_name
print_name-fits {R} k i s e =
    let fits : ltb (1 + k + 1) (1 + length (padded k i) + 1) ≡ false = rw e (ground arith) in
    rw fits refl

print_names-all :
    {R : Type 0} (k i rounds m : ℕ) (s : Machine)
    → 1 ≤ k
    → m ≤ 10 ^ k
    → i + rounds ≤ m
    → print_names {R = R} (1 + k + 1) k i rounds s ≡ (next (names_from k i rounds), s)
unfolding print_names print_name
print_names-all k i zero m s h fits le = refl
print_names-all {R} k i (suc rounds) m s h fits le =
    let first = print_name-fits {R = R} k i s (padded-length k i h (omega arith)) in
    ap
      (λ o.
        (let (r, s') = o in
          continue {R = R} r
            (λ name. print_names (1 + k + 1) k (i + 1) rounds >>= λ names. pure (name ∷ names)) s'))
      first
    ∙ ap
        (λ o.
          (let (r, s') = o in continue {R = R} r (λ names. pure ((b'X' ∷ padded k i) ∷ names)) s'))
        (print_names-all {R = R} k (i + 1) rounds m s h fits (omega arith))

some_digits : (k m : ℕ) → 2 ≤ m → m ≤ 10 ^ k → 1 ≤ k
some_digits zero m two h = absurd (omega arith)
some_digits (suc k) m two h = omega arith

print_name-overflows :
    {R : Type 0} (k i : ℕ) (s : Machine)
    → length (padded k i) ≡ suc k
    → print_name {R = R} (1 + k + 1) k i s ≡ (fault, s)
unfolding print_name
print_name-overflows {R} k i s e =
    let too_long : ltb (1 + k + 1) (1 + length (padded k i) + 1) ≡ true = rw e (ground arith) in
    rw too_long refl

single_name : {R : Type 0} (s : Machine) → (print_names {R = R} 2 0 0 1 s).0 ≡ fault
unfolding print_names
single_name {R} s =
    ap
      (λ o.
        (let (r, s') = o in
          (continue {R = R} r (λ name. print_names 2 0 1 0 >>= λ names. pure (name ∷ names)) s').0))
      (print_name-overflows {R = R} 0 0 s (ap length padded_zero))

-- The loop runs after the allocation.
allocated :
    (m : ℕ) (s : Machine)
    → is_zero (s.env.status s.calls (malloc (pos (m * (1 + s.env.ceil_log10 m + 1))))) ≡ false
    → (s' : Machine) × ((allocate_names {R = Unit} m s).0
        ≡ (print_names {R = Unit} (1 + s.env.ceil_log10 m + 1) (s.env.ceil_log10 m) 0 m s').0)
unfolding allocate_names
allocated m s room =
    ((external {R = Unit} (malloc (pos (m * (1 + s.env.ceil_log10 m + 1)))) s).1, rw room refl)

-- Where memory is available, two names or more, with as many digits as their number needs, fit the
-- slots that are allocated for them, and each has its number behind its letter. For a single name
-- no digit is reserved, and it is printed past the end of the buffer.
pub allocate_names-Fit :
    (m : ℕ) (s : Machine)
    → 2 ≤ m
    → m ≤ 10 ^ s.env.ceil_log10 m
    → s.env.ceil_log10 1 ≡ 0
    → ((n : ℕ)
        → is_zero (s.env.status s.calls (malloc (pos (n * (1 + s.env.ceil_log10 n + 1))))) ≡ false)
    → ((allocate_names {R = Unit} m s).0 ≡ next (names_from (s.env.ceil_log10 m) 0 m))
      × ((allocate_names {R = Unit} 1 s).0 ≡ fault)
allocate_names-Fit m s two digits one room =
    let k = s.env.ceil_log10 m in
    let (s', many) = allocated m s (room m) in
    let (s'', single) = allocated 1 s (room 1) in
    (
      many
          ∙ ap (λ o. o.0)
              (print_names-all {R = Unit} k 0 m m s' (some_digits k m two digits) digits
                (omega arith)),
      single ∙ ap (λ d. (print_names {R = Unit} (1 + d + 1) d 0 1 s'').0) one ∙ single_name s'',
    )
