-- ===== src/Metadata/Described.antt =====
-- What a file has to say of a field for esio/metadata.c to find it.
use esio.Prelude.{ℤ, pos, ℕ, ◌≡◌, true, List, [], ◌∷◌, ltb, leb, ◌&&◌}
use esio.Io.{
  Env, Machine, Event, Proc, Outcome, tget_class, tget_array_ndims, tget_array_dims, ◌>>=◌, invoke,
}
use esio.Io.Granted.{
  EndsIn, granted_steps, EndsIn-pure, EndsIn-known_bind, EndsIn-kept_bind, EndsIn-return_bind,
  EndsIn-else_bind, EndsIn-assert_bind,
}
use esio.Metadata.{is_scalar_class, h5t_array, int_max, type_ncomponents}
use esio.Field.Granted.{Passes, Passes-next, Passes-exit, EndsIn-quiet_bind}
use esio.Layout.Pencils.Trace.{moved}

-- HDF5 says that the type is a scalar, or an array of one dimension.
pub record IsScalar (env : Env) (type_id : ℤ) : Type 0 where
  pub class : ℤ
  pub answers : (calls : List Event) → env.status calls (tget_class type_id) ≡ class
  pub scalar : is_scalar_class class ≡ true

pub record IsArray (env : Env) (type_id : ℤ) (count : ℕ) : Type 0 where
  pub answers : (calls : List Event) → env.status calls (tget_class type_id) ≡ h5t_array
  pub ranks : (calls : List Event) → env.status calls (tget_array_ndims type_id) ≡ pos 1
  pub status : ℤ
  pub sized : (calls : List Event) → env.status calls (tget_array_dims type_id) ≡ status
  pub dims : (calls : List Event) → env.stored calls (tget_array_dims type_id) ≡ pos count ∷ []
  pub fits : (ltb 0 count && leb count int_max) ≡ true

pub data Components (env : Env) (type_id : ℤ) : ℤ → Type 0 where
  of_scalar : IsScalar env type_id → Components env type_id (pos 1)
  of_array : (count : ℕ) → IsArray env type_id count → Components env type_id (pos count)

module _ (s : Machine) (type_id : ℤ) where
  pub type_ncomponents-Passes :
      (count : ℤ) → Components s.env type_id count → Passes s count (type_ncomponents type_id s)
  unfolding type_ncomponents
  type_ncomponents-Passes _ (of_scalar is) = gives.ends
    where
      gives : EndsIn (Passes s (pos 1)) (record s { calls = s.calls }) (type_ncomponents type_id)
      gives = search (
        granted_steps,
        EndsIn-known_bind s (tget_class type_id) is.class is.answers,
        EndsIn-return_bind,
        is.scalar,
        Passes-exit,
      )
  type_ncomponents-Passes _ (of_array count is) = gives.ends
    where
      gives :
          EndsIn (Passes s (pos count)) (record s { calls = s.calls }) (type_ncomponents type_id)
      gives =
          search
            (
              granted_steps,
              EndsIn-known_bind s (tget_class type_id) h5t_array is.answers,
              EndsIn-else_bind,
              EndsIn-known_bind s (tget_array_ndims type_id) (pos 1) is.ranks,
              EndsIn-kept_bind s (tget_array_dims type_id) is.status is.sized (pos count ∷ [])
                  is.dims,
              EndsIn-assert_bind,
              EndsIn-pure,
              is.fits,
              Passes-next,
            )
            depth 15

-- The statement that asks for the component count of a type, after others that moved nothing.
pub EndsIn-type_ncomponents_bind :
    (s : Machine) (begun : List Event) (type_id count : ℤ)
    → Components s.env type_id count
    → {R A : Type 0} {Q : Outcome R A × Machine → Type 0} {calls : List Event} → (f : ℤ → Proc R A)
    → moved calls ≡ moved begun
    → ((after : List Event)
        → moved after ≡ moved begun
        → EndsIn Q (record s { calls = after }) (f count))
    → EndsIn Q (record s { calls = calls }) (invoke (type_ncomponents type_id) >>= f)
EndsIn-type_ncomponents_bind s begun type_id count is =
    EndsIn-quiet_bind s begun (type_ncomponents type_id) count
      λ calls. type_ncomponents-Passes (record s { calls = calls }) type_id count is
