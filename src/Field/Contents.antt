-- ===== src/Field/Contents.antt =====
-- What a dataset and a buffer hold after elements were moved between them: the contents of a dataset are
-- a value for each place, and a buffer holds a value at each offset.
use esio.Prelude.{
  ℕ, zero, suc, ◌+◌, ◌<◌, ◌≤◌, ◌≡◌, refl, sym, ap, ◌∙◌, Bool, true, false, ◌&&◌, ◌⊎◌, inl, inr,
  List, [], ◌∷◌, ◌++◌, map, arith, ◌==◌, ==_iff, ==-refl, if◌then◌else◌, All, Bool-cases, ◌≢◌,
}
use native.Mathlib.Decide.{ℕ_discrete}
use mathlib.Core.Path.{subst}
use esio.Layout.Pencils.Positions.{each}
use esio.Layout.Pencils.Positions.Union.{All-each}
use esio.Layout.Pencils.Indices.{grid, map-grid}

-- Some element of the list has the property.
abbrev pub Some : {A : Type 0} → (A → Type 0) → List A → Type 0
Some P [] = ⊥
Some P (x ∷ xs) = P x ⊎ Some P xs

module _ {A : Type 0} (P : A → Type 0) where
  Some-append_left : (xs ys : List A) → Some P xs → Some P (xs ++ ys)
  Some-append_left [] ys s = elim s [ ]
  Some-append_left (x ∷ xs) ys (inl p) = inl p
  Some-append_left (x ∷ xs) ys (inr s) = inr (Some-append_left xs ys s)

  Some-append_right : (xs ys : List A) → Some P ys → Some P (xs ++ ys)
  Some-append_right [] ys s = s
  Some-append_right (x ∷ xs) ys s = inr (Some-append_right xs ys s)

  Some-each : (f : ℕ → List A) (i n k : ℕ) → i ≤ k → k < i + n → Some P (f k) → Some P (each i n f)
  Some-each f i zero k l m s = absurd (omega (arith, l, m))
  Some-each f i (suc n) k l m s = elim (ℕ_discrete i k) [
    | yes e ↦ Some-append_left _ _ (subst (λ t. Some P (f t)) (sym e) s)
    | no ne ↦
        Some-append_right _ _ (Some-each f (i + 1) n k (omega (arith, l, ne)) (omega (arith, m)) s)
  ]

  pub Some-grid :
      (l m n : ℕ) (f : ℕ → ℕ → ℕ → A) (i j k : ℕ)
      → i < l
      → j < m
      → k < n
      → P (f i j k)
      → Some P (grid l m n f)
  Some-grid l m n f i j k a b c p = Some-each _ 0 l i (omega arith) (omega (arith, a)) (
      Some-each _ 0 m j (omega arith) (omega (arith, b))
        (Some-each _ 0 n k (omega arith) (omega (arith, c)) (inl p)))

  pub All-grid :
      (l m n : ℕ) (f : ℕ → ℕ → ℕ → A)
      → ((i j k : ℕ) → i < l → j < m → k < n → P (f i j k))
      → All P (grid l m n f)
  All-grid l m n f a = All-each P _ 0 l λ i il. All-each P _ 0 m λ j jm.
      All-each P _ 0 n
        λ k kn. (a i j k (omega (arith, il)) (omega (arith, jm)) (omega (arith, kn)), tt)

-- Assignments to a map, the first one first. `same` compares the keys.
module _ {K V : Type 0} (same : K → K → Bool) where
  abbrev pub assigned : List (K × V) → (K → V) → K → V
  assigned [] f q = f q
  assigned (e ∷ l) f q = assigned l (λ x. if same e.0 x then e.1 else f x) q

  -- The value that every assignment to the key leaves there.
  assigned-kept :
      (q : K) (v : V) (l : List (K × V)) (f : K → V)
      → f q ≡ v
      → All (λ e. same e.0 q ≡ true → e.1 ≡ v) l
      → assigned l f q ≡ v
  assigned-kept q v [] f h a = h
  assigned-kept q v (e ∷ l) f h (a, more) = assigned-kept q v l _ (new (same e.0 q) a) more
    where
      new : (b : Bool) → (b ≡ true → e.1 ≡ v) → (if b then e.1 else f q) ≡ v
      new true a = a refl
      new false a = h

  -- A value that some assignment puts there, and that every other leaves there.
  pub assigned-set :
      (q : K) (v : V) (l : List (K × V)) (f : K → V)
      → Some (λ e. same e.0 q ≡ true) l
      → All (λ e. same e.0 q ≡ true → e.1 ≡ v) l
      → assigned l f q ≡ v
  assigned-set q v [] f s a = elim s [ ]
  assigned-set q v (e ∷ l) f (inl t) (a, more) = assigned-kept q v l _ (rw t (a t)) more
  assigned-set q v (e ∷ l) f (inr s) (a, more) = assigned-set q v l _ s more

  -- Elsewhere nothing is changed.
  pub assigned-elsewhere :
      (q : K) (l : List (K × V)) (f : K → V)
      → All (λ e. same e.0 q ≡ false) l
      → assigned l f q ≡ f q
  assigned-elsewhere q [] f a = refl
  assigned-elsewhere q (e ∷ l) f (a, more) = assigned-elsewhere q l _ more ∙ rw a refl

abbrev pub same_place : List ℕ → List ℕ → Bool
same_place [] [] = true
same_place [] (y ∷ ys) = false
same_place (x ∷ xs) [] = false
same_place (x ∷ xs) (y ∷ ys) = x == y && same_place xs ys

pub same_place_refl : (xs : List ℕ) → same_place xs xs ≡ true
same_place_refl [] = refl
same_place_refl (x ∷ xs) = rw (==-refl x, same_place_refl xs) refl

pub same_place→≡ : (xs ys : List ℕ) → same_place xs ys ≡ true → xs ≡ ys
same_place→≡ [] [] e = refl
same_place→≡ [] (y ∷ ys) e = absurd (ground arith)
same_place→≡ (x ∷ xs) [] e = absurd (ground arith)
same_place→≡ (x ∷ xs) (y ∷ ys) e =
    rw ((==_iff x y).0 (ground arith), same_place→≡ xs ys (ground arith)) refl

module _ {V : Type 0} where
  -- The contents after the elements were written from the buffer, in their order.
  abbrev pub stored : List (ℕ × List ℕ) → (ℕ → V) → (List ℕ → V) → List ℕ → V
  stored elements buffer = assigned same_place (map (λ e. (e.1, buffer e.0)) elements)

  -- The buffer after the elements were read into it.
  abbrev pub loaded : List (ℕ × List ℕ) → (List ℕ → V) → (ℕ → V) → ℕ → V
  loaded elements contents = assigned ◌==◌ (map (λ e. (e.0, contents e.1)) elements)

  module _ (l m n : ℕ) (offset : ℕ → ℕ → ℕ → ℕ) (place : ℕ → ℕ → ℕ → List ℕ) (i j k : ℕ)
      (il : i < l) (jm : j < m) (kn : k < n) where
    -- Where no two elements have one place, each place holds the element that was written there.
    pub stored-grid :
        ((i' j' k' : ℕ)
          → i' < l
          → j' < m
          → k' < n
          → place i' j' k' ≡ place i j k
          → offset i' j' k' ≡ offset i j k)
        → (buffer : ℕ → V) (contents : List ℕ → V)
        → stored (grid l m n (λ i j k. (offset i j k, place i j k))) buffer contents (place i j k)
          ≡ buffer (offset i j k)
    stored-grid apart buffer contents =
        ap (λ t. assigned same_place t contents (place i j k))
          (map-grid (λ e. (e.1, buffer e.0)) l m n (λ i j k. (offset i j k, place i j k)))
        ∙ assigned-set same_place (place i j k) (buffer (offset i j k)) _ contents
            (Some-grid _ l m n _ i j k il jm kn (same_place_refl (place i j k)))
            (All-grid _ l m n _
              λ i' j' k' a b c e. ap buffer (apart i' j' k' a b c (same_place→≡ _ _ e)))

    -- Where no two elements have one offset, each offset holds the element that was read into it.
    pub loaded-grid :
        ((i' j' k' : ℕ)
          → i' < l
          → j' < m
          → k' < n
          → offset i' j' k' ≡ offset i j k
          → place i' j' k' ≡ place i j k)
        → (contents : List ℕ → V) (buffer : ℕ → V)
        → loaded (grid l m n (λ i j k. (offset i j k, place i j k))) contents buffer (offset i j k)
          ≡ contents (place i j k)
    loaded-grid apart contents buffer =
        ap (λ t. assigned ◌==◌ t buffer (offset i j k))
          (map-grid (λ e. (e.0, contents e.1)) l m n (λ i j k. (offset i j k, place i j k)))
        ∙ assigned-set ◌==◌ (offset i j k) (contents (place i j k)) _ buffer
            (Some-grid _ l m n _ i j k il jm kn (==-refl (offset i j k)))
            (All-grid _ l m n _
              λ i' j' k' a b c e. ap contents (apart i' j' k' a b c ((==_iff _ _).0 e)))

  -- A place that no element has is not written to.
  pub stored-elsewhere :
      (l m n : ℕ) (offset : ℕ → ℕ → ℕ → ℕ) (place : ℕ → ℕ → ℕ → List ℕ) (q : List ℕ)
      → ((i j k : ℕ) → i < l → j < m → k < n → place i j k ≢ q)
      → (buffer : ℕ → V) (contents : List ℕ → V)
      → stored (grid l m n (λ i j k. (offset i j k, place i j k))) buffer contents q ≡ contents q
  stored-elsewhere l m n offset place q apart buffer contents =
      ap (λ t. assigned same_place t contents q)
        (map-grid (λ e. (e.1, buffer e.0)) l m n (λ i j k. (offset i j k, place i j k)))
      ∙ assigned-elsewhere same_place q _ contents
          (All-grid _ l m n _ λ i j k a b c. differs i j k (apart i j k a b c))
    where
      differs : (i j k : ℕ) → place i j k ≢ q → same_place (place i j k) q ≡ false
      differs i j k ne = elim (Bool-cases (same_place (place i j k) q)) [
        | inl e ↦ absurd (ne (same_place→≡ _ _ e))
        | inr e ↦ e
      ]
