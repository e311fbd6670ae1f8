-- ===== src/Restart/Format/Width.antt =====
-- How many characters a formatted index takes.
use mathlib.Core.List.{reverse, reverse-append}
use native.Mathlib.Nat.{pow-suc}
use esio.Prelude.{
  ℕ, zero, suc, ◌-◌, ◌/◌, ◌^◌, ◌≤◌, ◌<◌, ◌≡◌, refl, [], ◌∷◌, arith, length, length-append,
  length-replicate, replicate, ap, ◌∙◌,
}
use esio.Io.{Text}
use esio.Restart.Format.{reversed_digits, decimal, padded}

length-reverse : (s : Text) → length (reverse s) ≡ length s
length-reverse [] = refl
length-reverse (c ∷ s) =
    ap length (reverse-append (c ∷ []) s)
    ∙ length-append (reverse s) (c ∷ [])
    ∙ omega (arith, length-reverse s)

reversed_digits-length : (fuel n k : ℕ) → n < 10 ^ suc k → length (reversed_digits fuel n) ≤ suc k
unfolding reversed_digits
reversed_digits-length zero n k h = omega arith
reversed_digits-length (suc fuel) n zero h = ground arith
reversed_digits-length (suc fuel) n (suc k) h =
    ground (arith, pow-suc 10 (suc k), reversed_digits-length fuel (n / 10) k)

-- A number below a power of ten is printed with exactly as many digits as that width, which is not
-- zero.
pub padded-length : (k n : ℕ) → 1 ≤ k → n < 10 ^ k → length (padded k n) ≡ k
unfolding padded decimal
padded-length zero n h lt = absurd (omega arith)
padded-length (suc k) n h lt =
    let digits = reverse (reversed_digits (suc n) n) in
    length-append (replicate (suc k - length digits) b'0') digits
    ∙ omega (
      arith,
      length-replicate {A = ℕ} (suc k - length digits) b'0',
      length-reverse (reversed_digits (suc n) n),
      reversed_digits-length (suc n) n k lt,
    )

-- The number zero takes one digit even where none is asked for.
pub padded_zero : padded 0 0 ≡ b'0' ∷ []
unfolding padded decimal reversed_digits
padded_zero = refl
