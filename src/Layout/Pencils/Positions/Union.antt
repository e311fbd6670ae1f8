-- ===== src/Layout/Pencils/Positions/Union.antt =====
-- Hyperslabs that are added to a selection in row-major order.
use esio.Prelude.{
  ℕ, zero, suc, ◌+◌, ◌≤◌, ◌<◌, ◌≡◌, refl, sym, ap, ◌∙◌, inl, inr, false, List, [], ◌∷◌, ◌++◌, arith,
  ltb, ◌==◌, ltb→lt, ==_iff, Bool-cases, All,
}
use mathlib.Core.List.{append-nil, append_assoc}
use esio.Layout.Pencils.Positions.{each, insert, unite}

module _ {ℓ κ} {A : Type ℓ} where
  All-append : (P : A → Type κ) (xs ys : List A) → All P xs → All P ys → All P (xs ++ ys)
  All-append P [] ys a b = b
  All-append P (x ∷ xs) ys (p, a) b = (p, All-append P xs ys a b)

  All-weaken : (P Q : A → Type κ) → ((x : A) → P x → Q x) → (xs : List A) → All P xs → All Q xs
  All-weaken P Q f [] a = tt
  All-weaken P Q f (x ∷ xs) (p, a) = (f x p, All-weaken P Q f xs a)

  pub All-each :
      (P : A → Type κ) (f : ℕ → List A) (i n : ℕ)
      → ((k : ℕ) → k < i + n → All P (f k))
      → All P (each i n f)
  All-each P f i zero a = tt
  All-each P f i (suc n) a =
      All-append P (f i) (each (i + 1) n f) (a i (omega arith))
        (All-each P f (i + 1) n (λ k l. a k (omega (arith, l))))

ltb-false : (p q : ℕ) → q < p → ltb p q ≡ false
ltb-false p q l = elim (Bool-cases (ltb p q)) [
  | inl e ↦ absurd (omega (arith, ltb→lt p q e, l))
  | inr e ↦ e
]

==-false : (p q : ℕ) → q < p → p == q ≡ false
==-false p q l = elim (Bool-cases (p == q)) [
  | inl e ↦ absurd (omega (arith, (==_iff p q).0 e, l))
  | inr e ↦ e
]

insert-last : (p : ℕ) (ps : List ℕ) → All (λ q. q < p) ps → insert p ps ≡ ps ++ p ∷ []
insert-last p [] a = refl
insert-last p (q ∷ ps) (l, a) = rw (ltb-false p q l, ==-false p q l, insert-last p ps a) refl

-- A run that lies behind all that is selected.
pub unite-run :
    (f : ℕ → ℕ) (i n : ℕ) (ps : List ℕ)
    → ((k : ℕ) → f k < f (k + 1))
    → All (λ q. q < f i) ps
    → unite ps (each i n (λ k. f k ∷ [])) ≡ ps ++ each i n (λ k. f k ∷ [])
unite-run f i zero ps rising a = sym (append-nil ps)
unite-run f i (suc n) ps rising a =
    ap (λ l. unite l (each (i + 1) n (λ k. f k ∷ []))) (insert-last (f i) ps a)
    ∙ unite-run f (i + 1) n (ps ++ f i ∷ []) rising below
    ∙ append_assoc ps (f i ∷ []) (each (i + 1) n (λ k. f k ∷ []))
  where
    below : All (λ q. q < f (i + 1)) (ps ++ f i ∷ [])
    below =
        All-append (λ q. q < f (i + 1)) ps (f i ∷ [])
          (All-weaken (λ q. q < f i) (λ q. q < f (i + 1)) (λ q l. omega (arith, rising i)) ps a)
          (rising i, tt)

-- What the rounds of a loop make of a list.
abbrev pub over : (ℕ → List ℕ → List ℕ) → ℕ → ℕ → List ℕ → List ℕ
over step i zero ps = ps
over step i (suc n) ps = over step (i + 1) n (step i ps)

-- Rounds that add their rows behind all that is selected: row `i` lies at `low i` and above, and
-- below `low (i + 1)`.
pub over-rows :
    (step : ℕ → List ℕ → List ℕ) (row : ℕ → List ℕ) (low : ℕ → ℕ) (i n : ℕ) (ps : List ℕ)
    → ((k : ℕ) (ps : List ℕ) → All (λ q. q < low k) ps → step k ps ≡ ps ++ row k)
    → ((k : ℕ) → All (λ q. q < low (k + 1)) (row k))
    → ((k : ℕ) → low k ≤ low (k + 1))
    → All (λ q. q < low i) ps
    → over step i n ps ≡ ps ++ each i n row
over-rows step row low i zero ps adds below rising a = sym (append-nil ps)
over-rows step row low i (suc n) ps adds below rising a =
    ap (over step (i + 1) n) (adds i ps a)
    ∙ over-rows step row low (i + 1) n (ps ++ row i) adds below rising higher
    ∙ append_assoc ps (row i) (each (i + 1) n row)
  where
    higher : All (λ q. q < low (i + 1)) (ps ++ row i)
    higher =
        All-append (λ q. q < low (i + 1)) ps (row i)
          (All-weaken (λ q. q < low i) (λ q. q < low (i + 1)) (λ q l. omega (arith, rising i)) ps a)
          (below i)
