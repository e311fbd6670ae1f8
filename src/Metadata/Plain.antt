-- ===== src/Metadata/Plain.antt =====
-- `esio_field_metadata_read` of esio/metadata.c for a field of layout 0, which has no metadata attribute:
-- the dataset itself tells its extents.
use mathlib.Core.Path.{subst}
use esio.Prelude.{ℤ, pos, is_neg, ltb_ℤ, ◌≡◌, false, List, [], ◌∷◌, refl}
use esio.Io.{
  Text, Env, Machine, Event, dopen, dget_type, dget_space, sget_simple_extent_dims, aexists_by_name,
}
use esio.Io.Granted.{
  EndsIn, granted_steps, EndsIn-pure, EndsIn-taken_bind, EndsIn-known_bind, EndsIn-kept_bind,
  EndsIn-block_bind, EndsIn-exit_bind,
}
use esio.Error.{success}
use esio.Metadata.{FieldMetadata, field_metadata_read, hdf5metadata_read, first_dims, Extents}
use esio.Metadata.Described.{Components, EndsIn-type_ncomponents_bind}
use esio.Layout.Pencils.Trace.{moved}
use esio.Field.Granted.{Passes, Passes-next, Passes-exit, EndsIn-quiet_bind}

-- A dataset of three dimensions without that attribute, which is a field of layout 0.
pub record HasExtents (env : Env) (file_id : ℤ) (name : Text) (metadata : FieldMetadata)
    : Type 0 where
  pub exists : (calls : List Event) → env.status calls (aexists_by_name file_id name) ≡ pos 0
  pub dset_id : ℤ
  pub opens : (calls : List Event) → env.status calls (dopen file_id name) ≡ dset_id
  pub opened : is_neg dset_id ≡ false
  pub type_id : ℤ
  pub typed : (calls : List Event) → env.status calls (dget_type dset_id) ≡ type_id
  pub is_typed : is_neg type_id ≡ false
  pub components : Components env type_id metadata.ncomponents
  pub some_component : ltb_ℤ metadata.ncomponents (pos 1) ≡ false
  pub space_id : ℤ
  pub spaces : (calls : List Event) → env.status calls (dget_space dset_id) ≡ space_id
  pub is_space : is_neg space_id ≡ false
  pub ranks : (calls : List Event) → env.status calls (sget_simple_extent_dims space_id) ≡ pos 3
  pub dims : List ℤ
  pub has_dims : (calls : List Event) → env.stored calls (sget_simple_extent_dims space_id) ≡ dims
  pub fits : first_dims 3 dims ≡ metadata.cglobal ∷ metadata.bglobal ∷ metadata.aglobal ∷ []
  pub is_layout0 : metadata.layout_index ≡ pos 0

module _ (s : Machine) (file_id : ℤ) (name : Text) (metadata : FieldMetadata)
    (has : HasExtents s.env file_id name metadata) where
  abbrev extents : Extents
  extents = record {
    status = success;
    global = metadata.cglobal ∷ metadata.bglobal ∷ metadata.aglobal ∷ [];
    ncomponents = metadata.ncomponents;
  }

  hdf5metadata_read-Passes :
      (calls : List Event)
      → Passes
          (record s { calls = calls })
          extents
          (hdf5metadata_read file_id name 3 (record s { calls = calls }))
  unfolding hdf5metadata_read
  hdf5metadata_read-Passes calls =
      subst
        (λ global.
          Passes (record s { calls = calls }) (record extents { global = global })
            (hdf5metadata_read file_id name 3 (record s { calls = calls })))
        has.fits (gives refl).ends
    where
      gives :
          moved calls ≡ moved calls
          → EndsIn
              (Passes
                (record s { calls = calls })
                (record extents { global = first_dims 3 has.dims }))
              (record s { calls = calls })
              (hdf5metadata_read file_id name 3)
      gives quiet =
          search
            (
              granted_steps,
              EndsIn-type_ncomponents_bind s calls has.type_id metadata.ncomponents has.components,
              EndsIn-known_bind s (dopen file_id name) has.dset_id has.opens,
              EndsIn-known_bind s (dget_type has.dset_id) has.type_id has.typed,
              EndsIn-known_bind s (dget_space has.dset_id) has.space_id has.spaces,
              EndsIn-kept_bind s (sget_simple_extent_dims has.space_id) (pos 3) has.ranks _
                  has.has_dims,
              has.opened,
              has.is_typed,
              has.some_component,
              has.is_space,
              EndsIn-pure,
              Passes-next,
            )
            depth 25

  pub layout0-Passes :
      Passes s
        (record metadata { status = success; layout_index = pos 0 })
        (field_metadata_read file_id name s)
  unfolding field_metadata_read
  layout0-Passes = (gives refl).ends
    where
      gives :
          moved s.calls ≡ moved s.calls
          → EndsIn
              (Passes s (record metadata { status = success; layout_index = pos 0 }))
              (record s { calls = s.calls })
              (field_metadata_read file_id name)
      gives quiet =
          search
            (
              granted_steps,
              EndsIn-known_bind s (aexists_by_name file_id name) (pos 0) has.exists,
              EndsIn-quiet_bind s s.calls (hdf5metadata_read file_id name 3) extents
                  hdf5metadata_read-Passes,
              EndsIn-taken_bind,
              EndsIn-block_bind,
              EndsIn-exit_bind,
              Passes-exit,
            )
            depth 15
