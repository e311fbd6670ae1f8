-- ===== src/Metadata/Marked.antt =====
-- `esio_field_metadata_read` of esio/metadata.c for a field that has a metadata attribute.
use esio.Prelude.{ℤ, pos, is_neg, eq_ℤ, ltb_ℤ, ◌≡◌, false, List, [], ◌∷◌, not, ◌||◌}
use esio.Io.{Text, Env, Machine, Event, aexists_by_name, get_attribute_int}
use esio.Io.Granted.{EndsIn, granted_steps, EndsIn-pure, EndsIn-known_bind, EndsIn-kept_bind}
use esio.Error.{success}
use esio.Metadata.{FieldMetadata, field_metadata_read}
use esio.Layout.Table.{field_layout_count}
use esio.Field.Granted.{Passes, Passes-next}

-- The attribute that esio_field_metadata_write leaves beside a field of another layout than 0.
pub record HasAttribute (env : Env) (file_id : ℤ) (name : Text) (metadata : FieldMetadata)
    : Type 0 where
  pub found : ℤ
  pub exists : (calls : List Event) → env.status calls (aexists_by_name file_id name) ≡ found
  pub is_found : (is_neg found ≡ false) × (eq_ℤ found (pos 0) ≡ false)
  pub status : ℤ
  pub reads : (calls : List Event) → env.status calls (get_attribute_int file_id name) ≡ status
  pub is_read : is_neg status ≡ false
  pub major : ℤ
  pub minor : ℤ
  pub point : ℤ
  pub words :
      (calls : List Event)
      → env.stored calls (get_attribute_int file_id name)
        ≡ major ∷ minor ∷ point ∷ metadata.layout_index ∷ metadata.cglobal ∷ metadata.bglobal
          ∷ metadata.aglobal ∷ metadata.ncomponents ∷ []
  pub in_table :
      (is_neg metadata.layout_index || not (ltb_ℤ metadata.layout_index field_layout_count)) ≡ false

module _ (s : Machine) (file_id : ℤ) (name : Text) (metadata : FieldMetadata)
    (has : HasAttribute s.env file_id name metadata) where
  pub found-Passes :
      Passes s (record metadata { status = success }) (field_metadata_read file_id name s)
  unfolding field_metadata_read
  found-Passes = gives.ends
    where
      gives :
          EndsIn
            (Passes s (record metadata { status = success }))
            (record s { calls = s.calls })
            (field_metadata_read file_id name)
      gives =
          search
            (
              granted_steps,
              EndsIn-known_bind s (aexists_by_name file_id name) has.found has.exists,
              EndsIn-kept_bind s (get_attribute_int file_id name) has.status has.reads _ has.words,
              has.is_found.0,
              has.is_found.1,
              has.is_read,
              has.in_table,
              EndsIn-pure,
              Passes-next,
            )
            depth 15
