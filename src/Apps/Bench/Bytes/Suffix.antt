-- ===== src/Apps/Bench/Bytes/Suffix.antt =====
-- The units that apps/esio_bench.c reads behind a number.
use esio.Prelude.{
  ℕ, ◌≡◌, refl, sym, ap, ◌∙◌, inl, inr, true, false, ◌||◌, ◌⊎◌, ◌↔◌, Option, none, some, [], ◌∷◌,
  ◌==◌, arith, Bool-cases, Option-cases,
}
use esio.Io.{Text}
use esio.Apps.Text.{isspace, toupper, skip_space}
use esio.Apps.Text.Trim.{AreSpaces, BeginsPlain}
use esio.Apps.Bench.Bytes.{
  prefix_exponent, ended, after_prefix, after_letter, suffix, letter_or_none,
}

-- The letters of the prefixes with their exponents, as powers of ten where the base is 1000. There is
-- no P.
abbrev pub IsPrefix : ℕ → ℕ → Type 0
IsPrefix c exp =
    ((c ≡ b'B') × (exp ≡ 0))
    ⊎ ((c ≡ b'K') × (exp ≡ 3))
    ⊎ ((c ≡ b'M') × (exp ≡ 6))
    ⊎ ((c ≡ b'G') × (exp ≡ 9))
    ⊎ ((c ≡ b'T') × (exp ≡ 12))
    ⊎ ((c ≡ b'E') × (exp ≡ 15))
    ⊎ ((c ≡ b'Z') × (exp ≡ 18))
    ⊎ ((c ≡ b'Y') × (exp ≡ 21))

prefix_exponent_iff-IsPrefix : (c exp : ℕ) → (prefix_exponent c ≡ some exp) ↔ IsPrefix c exp
prefix_exponent_iff-IsPrefix c exp = (λ e. ground (arith, e), λ h. ground (arith, h))

-- The end of a unit: nothing, or a B or a blank and then white space.
abbrev pub EndsUnit : Text → Type 0
EndsUnit [] = Unit
EndsUnit (c ∷ s) = ((toupper c == b'B' || c == b' ' || c == 9) ≡ true) × AreSpaces s

-- A unit with its exponent and its base: none, or the letter of a prefix with the powers of 1024,
-- or with an i and the powers of 1000.
pub data IsUnit : Text → ℕ → ℕ → Type 0 where
  bytes : IsUnit [] 0 1024
  binary : (c exp : ℕ) (s : Text) → IsPrefix (toupper c) exp → EndsUnit s → IsUnit (c ∷ s) exp 1024
  decimal :
      (c i exp : ℕ) (s : Text)
      → IsPrefix (toupper c) exp
      → (toupper i == b'I') ≡ true
      → EndsUnit s
      → IsUnit (c ∷ i ∷ s) exp 1000

ended-spaces :
    (exp unit : ℕ) (s : Text) → AreSpaces s → ended exp unit (skip_space s) ≡ some (exp, unit)
unfolding skip_space
ended-spaces exp unit [] h = refl
ended-spaces exp unit (c ∷ s) (hc, h) = rw hc (ended-spaces exp unit s h)

none-ne-some : {A : Type 0} {a : A} → ◌≡◌ {A = Option A} none (some a) → ⊥
none-ne-some h = cc

spaces-ended :
    (exp unit e u : ℕ) (s : Text)
    → ended exp unit (skip_space s) ≡ some (e, u)
    → AreSpaces s × (e ≡ exp) × (u ≡ unit)
unfolding skip_space
spaces-ended exp unit e u [] h = (tt, ground arith, ground arith)
spaces-ended exp unit e u (c ∷ s) h = elim (Bool-cases (isspace c)) [
  | inl space ↦
      (let (spaces, exps, units) = spaces-ended exp unit e u s (rw space at h) in
        ((space, spaces), exps, units))
  | inr plain ↦ absurd (none-ne-some {a = (e, u)} (rw plain at h))
]

after_prefix-EndsUnit :
    (exp unit : ℕ) (s : Text) → EndsUnit s → after_prefix exp unit s ≡ some (exp, unit)
unfolding after_prefix
after_prefix-EndsUnit exp unit [] h = refl
after_prefix-EndsUnit exp unit (c ∷ s) (hc, h) = rw hc (ended-spaces exp unit s h)

EndsUnit-after_prefix :
    (exp unit e u : ℕ) (s : Text)
    → after_prefix exp unit s ≡ some (e, u)
    → EndsUnit s × (e ≡ exp) × (u ≡ unit)
unfolding after_prefix
EndsUnit-after_prefix exp unit e u [] h = (tt, ground arith, ground arith)
EndsUnit-after_prefix exp unit e u (c ∷ s) h =
    elim (Bool-cases (toupper c == b'B' || c == b' ' || c == 9)) [
      | inl mark ↦
          (let (spaces, exps, units) = spaces-ended exp unit e u s (rw mark at h) in
            ((mark, spaces), exps, units))
      | inr other ↦ absurd (none-ne-some {a = (e, u)} (rw other at h))
    ]

-- A letter of a prefix is no blank.
letter_is_no_blank :
    (c exp : ℕ) → prefix_exponent (toupper c) ≡ some exp → (c == b' ' || c == 9) ≡ false
letter_is_no_blank c exp h = ground arith

mark_is_no_i :
    (c : ℕ) → (toupper c == b'B' || c == b' ' || c == 9) ≡ true → (toupper c == b'I') ≡ false
mark_is_no_i c h = ground arith

after_letter-EndsUnit : (exp : ℕ) (s : Text) → EndsUnit s → after_letter exp s ≡ some (exp, 1024)
unfolding after_letter
after_letter-EndsUnit exp [] h = after_prefix-EndsUnit exp 1024 [] h
after_letter-EndsUnit exp (c ∷ s) h =
    rw (mark_is_no_i c h.0) (after_prefix-EndsUnit exp 1024 (c ∷ s) h)

after_letter-i :
    (exp i : ℕ) (s : Text)
    → (toupper i == b'I') ≡ true
    → EndsUnit s
    → after_letter exp (i ∷ s) ≡ some (exp, 1000)
unfolding after_letter
after_letter-i exp i s e h = rw e (after_prefix-EndsUnit exp 1000 s h)

suffix-letter :
    (c exp : ℕ) (s : Text)
    → prefix_exponent (toupper c) ≡ some exp
    → suffix (c ∷ s) ≡ after_letter exp s
unfolding suffix
suffix-letter c exp s e =
    let no_blank = letter_is_no_blank c exp e in rw no_blank (ap (λ o. letter_or_none o s) e)

IsUnit-suffix : (s : Text) (exp unit : ℕ) → IsUnit s exp unit → suffix s ≡ some (exp, unit)
unfolding suffix
IsUnit-suffix _ _ _ bytes = refl
IsUnit-suffix _ _ _ (binary c exp s e h) =
    suffix-letter c exp s ((prefix_exponent_iff-IsPrefix (toupper c) exp).1 e)
    ∙ after_letter-EndsUnit exp s h
IsUnit-suffix _ _ _ (decimal c i exp s e ei h) =
    suffix-letter c exp (i ∷ s) ((prefix_exponent_iff-IsPrefix (toupper c) exp).1 e)
    ∙ after_letter-i exp i s ei h

-- Behind the letter.
letter_read :
    (c exp e u : ℕ) (s : Text)
    → prefix_exponent (toupper c) ≡ some exp
    → after_letter exp s ≡ some (e, u)
    → IsUnit (c ∷ s) e u
unfolding after_letter
letter_read c exp e u [] p h =
    let (ends, same_e, same_u) = EndsUnit-after_prefix exp 1024 e u [] h in
    rw (same_e, same_u) (binary c exp [] ((prefix_exponent_iff-IsPrefix (toupper c) exp).0 p) ends)
letter_read c exp e u (i ∷ s) p h = elim (Bool-cases (toupper i == b'I')) [
  | inl with_i ↦
      (let (ends, same_e, same_u) = EndsUnit-after_prefix exp 1000 e u s (rw with_i at h) in
        rw (same_e, same_u)
          (decimal c i exp s ((prefix_exponent_iff-IsPrefix (toupper c) exp).0 p) with_i ends))
  | inr without ↦
      (let (ends, same_e, same_u) = EndsUnit-after_prefix exp 1024 e u (i ∷ s) (rw without at h) in
        rw (same_e, same_u)
          (binary c exp (i ∷ s) ((prefix_exponent_iff-IsPrefix (toupper c) exp).0 p) ends))
]

no_unit :
    (c : ℕ) (s : Text) (exp unit : ℕ)
    → (◌≡◌ {A = Text} (c ∷ s) []) ⊎ BeginsPlain (c ∷ s)
    → prefix_exponent (toupper c) ≡ none
    → suffix (c ∷ s) ≡ some (exp, unit)
    → ⊥
unfolding suffix
no_unit c s exp unit (inl empty) p h = cc
no_unit c s exp unit (inr plain) p h =
    let no_blank : (c == b' ' || c == 9) ≡ false = ground arith in
    none-ne-some {a = (exp, unit)} (rw p at (rw no_blank at h))

suffix-IsUnit :
    (s : Text) (exp unit : ℕ)
    → (s ≡ []) ⊎ BeginsPlain s
    → suffix s ≡ some (exp, unit)
    → IsUnit s exp unit
unfolding suffix
suffix-IsUnit [] exp unit first h =
    let same_e : exp ≡ 0 = ground arith in
    let same_u : unit ≡ 1024 = ground arith in rw (same_e, same_u) bytes
suffix-IsUnit (c ∷ s) exp unit first h = elim (Option-cases (prefix_exponent (toupper c))) [
  | inl no_letter ↦ absurd (no_unit c s exp unit first no_letter h)
  | inr letter ↦
      letter_read c letter.0 exp unit s letter.1 (sym (suffix-letter c letter.0 s letter.1) ∙ h)
]

-- The text behind a number, where it does not begin with a blank, gives an exponent and a base
-- exactly where it is a unit with that exponent and base: the letter of a prefix, an i for the
-- powers of 1000, and a B or a blank and then white space. No other letters may follow, as in
-- kBytes.
pub suffix_iff-IsUnit :
    (s : Text) (exp unit : ℕ)
    → (s ≡ []) ⊎ BeginsPlain s
    → (suffix s ≡ some (exp, unit)) ↔ IsUnit s exp unit
suffix_iff-IsUnit s exp unit first = (suffix-IsUnit s exp unit first, IsUnit-suffix s exp unit)
