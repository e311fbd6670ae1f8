-- ===== src/Field/Created.antt =====
-- `esio_field_create` of esio/esio.c, with the metadata that it leaves, where HDF5 creates what is asked for.
use esio.Prelude.{
  ◌*◌, ◌≤◌, ℤ, pos, is_neg, eq_ℤ, ltb_ℤ, ℕ, ◌≡◌, refl, true, false, inl, inr, Bool-cases, List,
  arith, if◌then◌else◌, not, ap, pos_part,
}
use esio.Io.{
  screate_simple, Text, Env, Handle, Machine, Event, Outcome, Proc, dcreate, set_attribute_int,
  pcreate, dataset_create, pset_chunk, aexists_by_name, external, pure, ◌>>=◌, int_limit,
}
use esio.Io.Granted.{
  EndsIn, granted_steps, EndsIn-external_bind, EndsIn-answered_bind, EndsIn-pure,
  EndsIn-return_bind, called,
}
use esio.Error.{success, efailed}
use esio.Metadata.{field_metadata_write}
use esio.Metadata.Described.{Components, EndsIn-type_ncomponents_bind}
use esio.Field.{field_create}
use esio.Field.Granted.{Passes, Passes-next, Passes-exit, EndsIn-quiet_bind}
use esio.Layout.Table.{field_layout_count, create_filespace}
use esio.Layout.Table.Rows.{EndsIn-row_index_bind, EndsIn-create_filespace_bind}
use esio.Layout.Simple.{is_positive}
use esio.Layout.Pencils.Trace.{moved, eq_ℤ_refl}

-- The file has no such field, and HDF5 creates a dataset and its attribute.
pub record GrantsCreation (env : Env) (h : Handle) (name : Text) (type_id dset_id : ℤ)
    : Type 0 where
  pub missing :
      (calls : List Event) → is_neg (env.status calls (aexists_by_name h.file_id name)) ≡ true
  pub valid : is_neg h.layout_index ≡ false
  pub known : ltb_ℤ h.layout_index field_layout_count ≡ true
  pub rows_fit : h.layout_index ≡ pos 2 → pos_part h.f.cglobal * pos_part h.f.bglobal ≤ int_limit
  pub lists : (calls : List Event) → is_neg (env.status calls (pcreate dataset_create)) ≡ false
  pub chunked :
      (calls : List Event) (dcpl_id : ℤ) (chunks : List ℕ)
      → is_neg (env.status calls (pset_chunk dcpl_id chunks)) ≡ false
  pub creates :
      (calls : List Event) (space dcpl_id : ℤ)
      → env.status calls (dcreate h.file_id name type_id space dcpl_id) ≡ dset_id
  pub created : is_neg dset_id ≡ false
  pub ncomponents : ℤ
  pub components : Components env type_id ncomponents
  pub sets :
      (calls : List Event) (values : List ℤ)
      → is_neg (env.status calls (set_attribute_int h.file_id name values)) ≡ false

not_negative : (n : ℤ) → is_positive n ≡ true → is_neg n ≡ false
not_negative n e = ground arith

module _ (s : Machine) (name : Text) (type_id dset_id : ℤ)
    (creation : GrantsCreation s.env s.handle name type_id dset_id) where
  module _ (begun : List Event) (layout_index cglobal bglobal aglobal : ℤ) where
    abbrev start : Machine
    start = record s { calls = begun }

    abbrev write : Proc ℤ ℤ
    write = field_metadata_write s.handle.file_id name layout_index cglobal bglobal aglobal type_id

    written_last :
        (calls : List Event) (status : ℤ)
        → is_neg status ≡ false
        → moved calls ≡ moved begun
        → EndsIn
            (Passes start success)
            (record s { calls = calls })
            (pure (if is_neg status then efailed else success))
    written_last calls status e quiet = record {
      ends = rw e (Passes-next start success calls quiet);
    }

    without_attribute : eq_ℤ layout_index (pos 0) ≡ true → EndsIn (Passes start success) start write
    unfolding field_metadata_write
    without_attribute e = search (granted_steps, EndsIn-return_bind, Passes-exit, e)

    with_attribute :
        moved begun ≡ moved begun
        → eq_ℤ layout_index (pos 0) ≡ false
        → EndsIn (Passes start success) start write
    unfolding field_metadata_write
    with_attribute quiet e =
        search
          (
            granted_steps,
            e,
            EndsIn-type_ncomponents_bind s begun type_id creation.ncomponents creation.components,
            EndsIn-external_bind,
            creation.sets,
            written_last,
          )
          depth 15

    field_metadata_write-Passes : Passes start success (write start)
    field_metadata_write-Passes = elim (Bool-cases (eq_ℤ layout_index (pos 0))) [
      | inl e ↦ (without_attribute e).ends
      | inr e ↦ (with_attribute refl e).ends
    ]

  module _ (begun : List Event) (mem : ℤ) (positive : is_positive mem ≡ true)
      (memspace : (calls : List Event) (extents : List ℕ)
        → s.env.status calls (screate_simple extents) ≡ mem)
      (dcpl_id : ℤ) where
    abbrev Makes : Outcome ℤ ℤ × Machine → Type 0
    Makes = Passes (record s { calls = begun }) dset_id

    dcreate_bind :
        (calls : List Event) (space : ℤ) (f : ℤ → Proc ℤ ℤ)
        → EndsIn Makes
            (called
              (record s { calls = calls })
              (dcreate s.handle.file_id name type_id space dcpl_id)
              dset_id)
            (f dset_id)
        → EndsIn Makes
            (record s { calls = calls })
            (external (dcreate s.handle.file_id name type_id space dcpl_id) >>= f)
    dcreate_bind calls space f g =
        EndsIn-answered_bind (dcreate s.handle.file_id name type_id space dcpl_id) f dset_id
          (creation.creates calls space dcpl_id) g

    space_bind :
        (calls : List Event) (cglobal bglobal aglobal : ℕ) (f : ℤ → Proc ℤ ℤ)
        → (s.handle.layout_index ≡ pos 2 → cglobal * bglobal ≤ int_limit)
        → ((extents : List ℕ)
            → EndsIn Makes
                (called (record s { calls = calls }) (screate_simple extents) mem)
                (f mem))
        → EndsIn Makes
            (record s { calls = calls })
            (create_filespace s.handle.layout_index cglobal bglobal aglobal >>= f)
    space_bind calls cglobal bglobal aglobal f rows_fit g =
        EndsIn-create_filespace_bind f s.handle.layout_index cglobal bglobal aglobal mem rows_fit
          creation.valid creation.known (memspace calls) g

    same_index : not (eq_ℤ s.handle.layout_index s.handle.layout_index) ≡ false
    same_index = ap not (eq_ℤ_refl s.handle.layout_index)

    pub field_create-Passes : Makes (field_create name type_id dcpl_id (record s { calls = begun }))
    unfolding field_create
    field_create-Passes = (gives refl).ends
      where
        gives :
            moved begun ≡ moved begun
            → EndsIn Makes (record s { calls = begun }) (field_create name type_id dcpl_id)
        gives quiet =
            search
              (
                granted_steps,
                EndsIn-row_index_bind,
                creation.valid,
                creation.known,
                same_index,
                space_bind,
                creation.rows_fit,
                not_negative mem positive,
                dcreate_bind,
                creation.created,
                EndsIn-quiet_bind s begun
                    (field_metadata_write s.handle.file_id name s.handle.layout_index
                      s.handle.f.cglobal s.handle.f.bglobal s.handle.f.aglobal type_id)
                    success
                    (λ calls.
                      field_metadata_write-Passes calls s.handle.layout_index s.handle.f.cglobal
                        s.handle.f.bglobal s.handle.f.aglobal),
                EndsIn-pure,
                Passes-next,
              )
              depth 25
