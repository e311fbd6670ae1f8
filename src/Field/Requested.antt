-- ===== src/Field/Requested.antt =====
-- The checks of `esio_field_write_internal` and `esio_field_read_internal` of esio/esio.c, for a request
-- that passes them.
use esio.Prelude.{
  ℤ, negsuc, pos_part, is_neg, is_zero, eq_ℤ, ◌≡◌, true, false, some, List, Bool, not, ap, sym, ◌≤◌,
}
use mathlib.Core.Path.{subst}
use esio.Io.{
  continue, Outcome, Event, Env, Proc, ◌>>=◌, Text, Handle, Machine, live, next, int_limit,
}
use esio.Layout.Pencils.Trace.{moved, eq_ℤ_refl, int_fits}
use esio.Metadata.{FieldMetadata}
use esio.Metadata.Described.{Components, EndsIn-type_ncomponents_bind}
use esio.Field.{check_field_matches, FieldStrides, field_strides, field_arguments}
use esio.Io.Granted.{EndsIn-block_bind, EndsIn, granted_steps, EndsIn-pure}
use esio.Error.{fail_if, require}

-- The strides that are asked for, or those of contiguous memory in place of zeros.
abbrev pub strides_of : Handle → ℤ → ℤ → ℤ → FieldStrides
strides_of h cstride bstride astride =
    field_strides h.f (pos_part cstride) (pos_part bstride) (pos_part astride)

-- An open file, a decomposition, strides that are not negative, and a type. The
-- int products of the strides do not overflow.
pub record IsRequest (h : Handle) (cstride bstride astride type_id : ℤ) : Type 0 where
  pub open_file : eq_ℤ h.file_id (negsuc 0) ≡ false
  pub cstride_valid : is_neg cstride ≡ false
  pub bstride_valid : is_neg bstride ≡ false
  pub astride_valid : is_neg astride ≡ false
  pub type_valid : is_neg type_id ≡ false
  pub established : is_zero h.f.aglobal ≡ false
  pub bstride_fits : (strides_of h cstride bstride astride).bstride ≤ int_limit
  pub cstride_fits : (strides_of h cstride bstride astride).cstride ≤ int_limit

pub field_arguments-strides :
    (s : Machine) (name : Text) (cstride bstride astride type_id : ℤ)
    → IsRequest s.handle cstride bstride astride type_id
    → field_arguments live (some name) true cstride bstride astride type_id s
      ≡ (next (name, strides_of s.handle cstride bstride astride), s)
unfolding field_arguments fail_if require
field_arguments-strides s name cstride bstride astride type_id is = gives.ends
  where
    gives :
        EndsIn
          (λ r. r ≡ (next (name, strides_of s.handle cstride bstride astride), s))
          s
          (field_arguments live (some name) true cstride bstride astride type_id)
    gives =
        search
          (
            granted_steps,
            EndsIn-pure,
            is.open_file,
            is.cstride_valid,
            is.bstride_valid,
            is.astride_valid,
            is.type_valid,
            is.established,
            int_fits _ is.bstride_fits,
            int_fits _ is.cstride_fits,
          )
          depth 25

-- The statement that checks the arguments.
pub EndsIn-field_arguments_bind :
    (s : Machine) (name : Text) (cstride bstride astride type_id : ℤ)
    → IsRequest s.handle cstride bstride astride type_id
    → {Q : Outcome ℤ ℤ × Machine → Type 0} → (f : Text × FieldStrides → Proc ℤ ℤ)
    → EndsIn Q s (f (name, strides_of s.handle cstride bstride astride))
    → EndsIn Q s (field_arguments live (some name) true cstride bstride astride type_id >>= f)
EndsIn-field_arguments_bind s name cstride bstride astride type_id is {Q} f g = record {
  ends =
      subst (λ (r : Outcome ℤ (Text × FieldStrides) × Machine). Q (continue r.0 f r.1))
        (sym (field_arguments-strides s name cstride bstride astride type_id is)) g.ends;
}

-- The sizes and the component count in the file are those of the request.
pub record IsMatch (env : Env) (h : Handle) (metadata : FieldMetadata) (type_id : ℤ) : Type 0 where
  pub same_c : eq_ℤ h.f.cglobal metadata.cglobal ≡ true
  pub same_b : eq_ℤ h.f.bglobal metadata.bglobal ≡ true
  pub same_a : eq_ℤ h.f.aglobal metadata.aglobal ≡ true
  pub components : Components env type_id metadata.ncomponents

module _ {Q : Outcome ℤ ℤ × Machine → Type 0} (s : Machine) (metadata : FieldMetadata) (type_id : ℤ)
    (is : IsMatch s.env s.handle metadata type_id) {calls : List Event} where
  pub EndsIn-check_field_matches_bind :
      (f : Unit → Proc ℤ ℤ)
      → ((after : List Event)
          → moved after ≡ moved calls
          → EndsIn Q (record s { calls = after }) (f tt))
      → EndsIn Q (record s { calls = calls }) (check_field_matches metadata type_id >>= f)
  unfolding check_field_matches fail_if
  EndsIn-check_field_matches_bind f g =
      search
        (
          granted_steps,
          EndsIn-block_bind,
          EndsIn-type_ncomponents_bind s calls type_id metadata.ncomponents is.components,
          same is.same_c,
          same is.same_b,
          same is.same_a,
          same (eq_ℤ_refl metadata.ncomponents),
          g,
        )
        depth 20
    where
      same : {b : Bool} → b ≡ true → not b ≡ false
      same e = ap not e
