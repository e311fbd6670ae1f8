-- ===== src/Decomposition.antt =====
-- The parallel decompositions of esio/esio.c: establish and established for lines, planes and
-- fields. An output pointer is `false` if it is null.
pub mod Established
use esio.Prelude.{
  ℕ, ◌==◌, ℤ, pos, is_neg, ltb_ℤ, Bool, Option, none, some, List, [], ◌∷◌, if◌then◌else◌,
}
use esio.Io.{HandlePointer, Proc, pure, modify_handle, get_handle, ◌>>=◌, ◌>>◌, is_null}
use esio.Error.{success, efault, einval, fail_if}

unfoldable pub line_establish : HandlePointer → ℤ → ℤ → ℤ → Proc ℤ ℤ
line_establish pointer aglobal astart alocal = do
  fail_if (is_null pointer) efault
  fail_if (ltb_ℤ aglobal (pos 1)) einval
  fail_if (is_neg astart) einval
  fail_if (is_neg alocal) einval
  modify_handle
      (λ h. record h { l = record h.l { aglobal = aglobal; astart = astart; alocal = alocal } })
  pure success

unfoldable pub plane_establish : HandlePointer → ℤ → ℤ → ℤ → ℤ → ℤ → ℤ → Proc ℤ ℤ
plane_establish pointer bglobal bstart blocal aglobal astart alocal = do
  fail_if (is_null pointer) efault
  fail_if (ltb_ℤ bglobal (pos 1)) einval
  fail_if (is_neg bstart) einval
  fail_if (is_neg blocal) einval
  fail_if (ltb_ℤ aglobal (pos 1)) einval
  fail_if (is_neg astart) einval
  fail_if (is_neg alocal) einval
  modify_handle (λ h. record h {
    p = record h.p {
      bglobal = bglobal;
      bstart = bstart;
      blocal = blocal;
      aglobal = aglobal;
      astart = astart;
      alocal = alocal;
    };
  })
  pure success

unfoldable pub field_establish : HandlePointer → ℤ → ℤ → ℤ → ℤ → ℤ → ℤ → ℤ → ℤ → ℤ → Proc ℤ ℤ
field_establish pointer cglobal cstart clocal bglobal bstart blocal aglobal astart alocal = do
  fail_if (is_null pointer) efault
  fail_if (ltb_ℤ cglobal (pos 1)) einval
  fail_if (is_neg cstart) einval
  fail_if (is_neg clocal) einval
  fail_if (ltb_ℤ bglobal (pos 1)) einval
  fail_if (is_neg bstart) einval
  fail_if (is_neg blocal) einval
  fail_if (ltb_ℤ aglobal (pos 1)) einval
  fail_if (is_neg astart) einval
  fail_if (is_neg alocal) einval
  modify_handle (λ h. record h {
    f = record h.f {
      cglobal = cglobal;
      cstart = cstart;
      clocal = clocal;
      bglobal = bglobal;
      bstart = bstart;
      blocal = blocal;
      aglobal = aglobal;
      astart = astart;
      alocal = alocal;
    };
  })
  pure success

-- `if (pointer) *pointer = value;`
abbrev pub stored_if : Bool → ℤ → Option ℤ
stored_if wanted value = if wanted then some value else none

unfoldable pub line_established : HandlePointer → Bool → Bool → Bool → Proc ℤ (ℤ × List (Option ℤ))
line_established pointer aglobal astart alocal = do
  fail_if (is_null pointer) efault
  h ← get_handle
  pure (
    success,
    stored_if aglobal h.l.aglobal ∷ stored_if astart h.l.astart ∷ stored_if alocal h.l.alocal ∷ [],
  )

unfoldable pub plane_established :
    HandlePointer → Bool → Bool → Bool → Bool → Bool → Bool → Proc ℤ (ℤ × List (Option ℤ))
plane_established pointer bglobal bstart blocal aglobal astart alocal = do
  fail_if (is_null pointer) efault
  h ← get_handle
  pure (
    success,
    stored_if bglobal h.p.bglobal
        ∷ stored_if bstart h.p.bstart
        ∷ stored_if blocal h.p.blocal
        ∷ stored_if aglobal h.p.aglobal
        ∷ stored_if astart h.p.astart
        ∷ stored_if alocal h.p.alocal
        ∷ [],
  )

unfoldable pub field_established :
    HandlePointer
    → Bool
    → Bool
    → Bool
    → Bool
    → Bool
    → Bool
    → Bool
    → Bool
    → Bool
    → Proc ℤ (ℤ × List (Option ℤ))
field_established pointer cglobal cstart clocal bglobal bstart blocal aglobal astart alocal = do
  fail_if (is_null pointer) efault
  h ← get_handle
  pure (
    success,
    stored_if cglobal h.f.cglobal
        ∷ stored_if cstart h.f.cstart
        ∷ stored_if clocal h.f.clocal
        ∷ stored_if bglobal h.f.bglobal
        ∷ stored_if bstart h.f.bstart
        ∷ stored_if blocal h.f.blocal
        ∷ stored_if aglobal h.f.aglobal
        ∷ stored_if astart h.f.astart
        ∷ stored_if alocal h.f.alocal
        ∷ [],
  )

-- A stride of zero stands for its default.
abbrev pub or_default : ℕ → ℕ → ℕ
or_default stride default = if stride == 0 then default else stride
