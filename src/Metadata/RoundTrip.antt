-- ===== src/Metadata/RoundTrip.antt =====
-- The attribute that `esio_field_metadata_write` of esio/metadata.c leaves, and what
-- `esio_field_metadata_read` makes of it.
use esio.Prelude.{
  ℤ, pos, is_neg, eq_ℤ, ltb_ℤ, not, ◌||◌, ◌≡◌, refl, ◌∙◌, false, List, [], ◌∷◌, if◌then◌else◌,
}
use esio.Io.{
  Text, Call, Env, Machine, Event, Outcome, Proc, next, set_attribute_int, get_attribute_int,
  aexists_by_name, pure,
}
use esio.Io.Granted.{EndsIn, granted_steps, EndsIn-external_bind}
use esio.Error.{success, efailed}
use esio.Metadata.{field_metadata_write, field_metadata_read}
use esio.Metadata.Described.{Components, EndsIn-type_ncomponents_bind}
use esio.Metadata.Found.{by_attribute, field_metadata_read-Passes}
use esio.Layout.Pencils.Trace.{moved}
use esio.Field.Granted.{Passes}
use esio.Layout.Table.{field_layout_count}

-- The values of the attribute that was set last.
abbrev set_by : Call → List ℤ → List ℤ
set_by (set_attribute_int loc_id name values) before = values
set_by c before = before

abbrev pub attribute_in : List Event → List ℤ
attribute_in [] = []
attribute_in (e ∷ calls) = set_by e.call (attribute_in calls)

-- The field is there, and the attribute can be read with these values.
pub record IsStored (env : Env) (loc_id : ℤ) (name : Text) (values : List ℤ) : Type 0 where
  pub found : ℤ
  pub exists : (calls : List Event) → env.status calls (aexists_by_name loc_id name) ≡ found
  pub is_found : (is_neg found ≡ false) × (eq_ℤ found (pos 0) ≡ false)
  pub status : ℤ
  pub reads : (calls : List Event) → env.status calls (get_attribute_int loc_id name) ≡ status
  pub is_read : is_neg status ≡ false
  pub words : (calls : List Event) → env.stored calls (get_attribute_int loc_id name) ≡ values

module _ (s : Machine) (loc_id : ℤ) (name : Text)
    (layout_index cglobal bglobal aglobal type_id ncomponents : ℤ)
    (other_layout : eq_ℤ layout_index (pos 0) ≡ false)
    (components : Components s.env type_id ncomponents)
    (sets : (calls : List Event) (values : List ℤ)
      → is_neg (s.env.status calls (set_attribute_int loc_id name values)) ≡ false) where
  abbrev values : List ℤ
  values =
      s.env.major_version ∷ s.env.minor_version ∷ s.env.point_version ∷ layout_index ∷ cglobal
      ∷ bglobal ∷ aglobal ∷ ncomponents ∷ []

  abbrev write : Proc ℤ ℤ
  write = field_metadata_write loc_id name layout_index cglobal bglobal aglobal type_id

  abbrev Sets : Outcome ℤ ℤ × Machine → Type 0
  Sets r = (r.0 ≡ next success) × (attribute_in r.1.calls ≡ values)

  written_last :
      (calls : List Event) (status : ℤ)
      → is_neg status ≡ false
      → attribute_in calls ≡ values
      → EndsIn Sets (record s { calls = calls }) (pure (if is_neg status then efailed else success))
  written_last calls status e seen = record { ends = (rw e refl, seen) }

  field_metadata_write-Sets : Sets (write s)
  unfolding field_metadata_write
  field_metadata_write-Sets = (gives refl).ends
    where
      gives : moved s.calls ≡ moved s.calls → EndsIn Sets (record s { calls = s.calls }) write
      gives quiet =
          search
            (
              granted_steps,
              other_layout,
              EndsIn-type_ncomponents_bind s s.calls type_id ncomponents components,
              EndsIn-external_bind,
              sets,
              written_last,
            )
            depth 15

  -- For a layout of the table other than 0, where the type has so many components and the
  -- attribute can be set, field_metadata_write succeeds, and a process that reads the attribute
  -- back is told the layout, the sizes and the component count that were written.
  pub field_metadata_read-field_metadata_write :
      (is_neg layout_index || not (ltb_ℤ layout_index field_layout_count)) ≡ false
      → (t : Machine) → IsStored t.env loc_id name (attribute_in (write s).1.calls)
      → ((write s).0 ≡ next success)
        × Passes t
            (record {
              status = success;
              layout_index = layout_index;
              cglobal = cglobal;
              bglobal = bglobal;
              aglobal = aglobal;
              ncomponents = ncomponents;
            })
            (field_metadata_read loc_id name t)
  field_metadata_read-field_metadata_write in_table t stored = (
    field_metadata_write-Sets.0,
    field_metadata_read-Passes t loc_id name
        (record {
          status = success;
          layout_index = layout_index;
          cglobal = cglobal;
          bglobal = bglobal;
          aglobal = aglobal;
          ncomponents = ncomponents;
        })
        (by_attribute (record {
          found = stored.found;
          exists = stored.exists;
          is_found = stored.is_found;
          status = stored.status;
          reads = stored.reads;
          is_read = stored.is_read;
          major = s.env.major_version;
          minor = s.env.minor_version;
          point = s.env.point_version;
          words = λ calls. stored.words calls ∙ field_metadata_write-Sets.1;
          in_table = in_table;
        })),
  )
