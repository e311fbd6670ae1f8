-- ===== src/Sizes/Scalars.antt =====
-- The scalar size queries against the general ones.
use mathlib.Core.Path.{subst}
use esio.Io.{Outcome, next, exit, aborted, fault, exhausted}
use esio.Prelude.{Bool-cases, inl, inr, eq_ℤ_iff, ap, sym, ◌∙◌}
use esio.Prelude.{
  ◌↔◌, ℤ, pos, eq_ℤ, eq_ℤ_iff, ◌≡◌, refl, sym, ap, ◌∙◌, inl, inr, Bool, true, false, not, ◌&&◌,
  Option, arith, Bool-cases,
}
use esio.Io.{
  continue, Text, Machine, HandlePointer, Outcome, Proc, pure, ◌>>◌, next, exit, aborted, fault,
  exhausted,
}
use esio.Error.{success, einval, fail_if}
use esio.Error.Fails.{fail_next}
use esio.Sizes.{Size, field_sizev, field_size}
use esio.Sizes.{only_scalars}
use esio.Io.Steps.{bind_next}

-- A general query went on with this answer, which is for scalars where it is a success.
abbrev pub IsScalarAnswer : Proc ℤ Size → Machine → Size → Type 0
IsScalarAnswer query s size =
    ((query s).0 ≡ next size) × (size.status ≡ success → size.ncomponents ≡ pos 1)

passed : (test : Bool) (code : ℤ) (s : Machine) → (fail_if test code s).0 ≡ next tt → test ≡ false
unfolding fail_if
passed true code s e = absurd (fail_next code s tt e)
passed false code s e = refl

one_component :
    (size : Size)
    → (eq_ℤ size.status success && not (eq_ℤ size.ncomponents (pos 1))) ≡ false
    → size.status ≡ success
    → size.ncomponents ≡ pos 1
one_component size e q = elim (Bool-cases (eq_ℤ size.ncomponents (pos 1))) [
  | inl one ↦ (eq_ℤ_iff size.ncomponents (pos 1)).0 one
  | inr other ↦ absurd (ground (arith, (eq_ℤ_iff size.status success).1 q))
]

answer_of : Outcome ℤ Size → Size → Size
answer_of (next size) default = size
answer_of (exit r) default = default
answer_of aborted default = default
answer_of fault default = default
answer_of exhausted default = default

next_equal : (a b : Size) → ◌≡◌ {A = Outcome ℤ Size} (next a) (next b) → a ≡ b
unfolding answer_of
next_equal a b e = ap (λ o. answer_of o a) e

only_scalars-IsScalarAnswer :
    (query : Proc ℤ Size) (s : Machine) (size : Size)
    → (only_scalars query s).0 ≡ next size
    → IsScalarAnswer query s size
only_scalars-IsScalarAnswer query s size e =
    let (found, found_next, rest) =
      bind_next query
        (λ size.
          fail_if (eq_ℤ size.status success && not (eq_ℤ size.ncomponents (pos 1))) einval
          >> pure size)
        s size e in
    let tested =
      bind_next (fail_if (eq_ℤ found.status success && not (eq_ℤ found.ncomponents (pos 1))) einval)
        (λ _. pure found) (query s).1 size (sym (ap (λ r. r.0) rest) ∙ e) in
    let same =
      next_equal found size (sym (ap (λ r. r.0) tested.2) ∙ sym (ap (λ r. r.0) rest) ∙ e) in
    subst (IsScalarAnswer query s) same (
      found_next,
      one_component found (
          passed (eq_ℤ found.status success && not (eq_ℤ found.ncomponents (pos 1))) einval
            (query s).1 tested.1),
    )

-- The scalar query goes on with the answer of the general one, where it is for scalars.
scalar-passes :
    (query : Proc ℤ Size) (s : Machine) (size : Size)
    → (query s).0 ≡ next size
    → (size.status ≡ success → size.ncomponents ≡ pos 1)
    → (only_scalars query s).0 ≡ next size
unfolding fail_if
scalar-passes query s size e one =
    ap
      (λ (o : Outcome ℤ Size).
        (continue o
          (λ size.
            fail_if (eq_ℤ size.status success && not (eq_ℤ size.ncomponents (pos 1))) einval
            >> pure size)
          (query s).1).0)
      e
    ∙ unrefused (eq_ℤ size.status success && not (eq_ℤ size.ncomponents (pos 1))) allowed
        (query s).1
  where
    unrefused :
        (test : Bool)
        → test ≡ false
        → (left : Machine) → ((fail_if test einval >> pure size) left).0 ≡ next size
    unrefused true e left = absurd (ground arith)
    unrefused false e left = refl

    allowed : (eq_ℤ size.status success && not (eq_ℤ size.ncomponents (pos 1))) ≡ false
    allowed = elim (Bool-cases (eq_ℤ size.status success)) [
      | inl fine ↦
          rw
            (
              fine,
              (eq_ℤ_iff size.ncomponents (pos 1)).1 (one ((eq_ℤ_iff size.status success).0 fine)),
            )
            refl
      | inr failed ↦ rw failed refl
    ]

-- Where field_sizev goes on with an answer, field_size goes on with the same answer exactly where
-- that is no success or the field has one component: success with more components is refused.
pub field_size_iff-IsScalar :
    (p : HandlePointer) (name : Option Text) (s : Machine) (size : Size)
    → (field_sizev p name s).0 ≡ next size
    → ((field_size p name s).0 ≡ next size) ↔ (size.status ≡ success → size.ncomponents ≡ pos 1)
unfolding field_size
field_size_iff-IsScalar p name s size found = (
  λ e. (only_scalars-IsScalarAnswer (field_sizev p name) s size e).1,
  scalar-passes (field_sizev p name) s size found,
)
