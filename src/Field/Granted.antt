-- ===== src/Field/Granted.antt =====
-- What HDF5 is to grant while a dataset of esio/esio.c is open: its transfers, its property list, and that
-- it can be opened, described and closed.
use esio.Prelude.{ℤ, is_neg, is_zero, ℕ, ◌≡◌, false, refl, inl, inr, ◌⊎◌, List, ◌++◌, sym, ◌∙◌}
use esio.Io.{
  Text, dopen, tfind, Env, Machine, Event, Outcome, dataset_xfer, pcreate, pset_dxpl_mpio, dclose,
  oset_comment, next, Proc, ◌>>=◌, invoke, continue, exit,
}
use esio.Io.Granted.{
  EndsIn, granted_steps, EndsIn-pure, EndsIn-external_bind, EndsIn-known_bind,
  EndsIn-when_either_bind, EndsIn-invoke_bind, EndsIn-invoke_exit_bind,
}
use mathlib.Core.Path.{subst}
use esio.Layout.Pencils.Carries.{Carries}
use esio.Layout.Pencils.Elements.{all_elements}
use esio.Error.{success, fail_val_if}
use esio.Plist.{h5p_dataset_xfer_create}
use esio.Field.{field_close}
use esio.Layout.Pencils.Trace.{Grants, moved}

pub record GrantsDataset (env : Env) (dset_id type_id plist_id mem file : ℤ) (type_size : ℕ)
    : Type 0 where
  pub transfers : Grants env dset_id type_id mem file type_size
  pub lists : (calls : List Event) → env.status calls (pcreate dataset_xfer) ≡ plist_id
  pub list_valid : is_neg plist_id ≡ false
  pub collective :
      (calls : List Event) → is_neg (env.status calls (pset_dxpl_mpio plist_id)) ≡ false
  pub comments :
      (calls : List Event) (text : Text)
      → is_neg (env.status calls (oset_comment dset_id text)) ≡ false
  pub closes : (calls : List Event) → is_neg (env.status calls (dclose dset_id)) ≡ false

-- The dataset can be opened by its name, and its elements converted from or to the type.
pub record GrantsOpening (env : Env) (file_id : ℤ) (name : Text) (dset_id type_id : ℤ)
    : Type 0 where
  pub opens : (calls : List Event) → env.status calls (dopen file_id name) ≡ dset_id
  pub opened : is_neg dset_id ≡ false
  pub converts :
      (calls : List Event) (field_type_id : ℤ)
      → is_zero (env.status calls (tfind type_id field_type_id)) ≡ false

-- A call that came to its end, or returned before it, and that moved nothing.
abbrev pub Passes : {A : Type 0} → Machine → A → Outcome A A × Machine → Type 0
Passes s a r =
    (calls : List Event) × ((r ≡ (next a, record s { calls = calls }))
      ⊎ (r ≡ (exit a, record s { calls = calls })))
    × (moved calls ≡ moved s.calls)

pub Passes-next :
    {A : Type 0} (s : Machine) (a : A) (calls : List Event)
    → moved calls ≡ moved s.calls
    → Passes s a (next a, record s { calls = calls })
Passes-next s a calls e = (calls, inl refl, e)

pub Passes-exit :
    {A : Type 0} (s : Machine) (a : A) (calls : List Event)
    → moved calls ≡ moved s.calls
    → Passes s a (exit a, record s { calls = calls })
Passes-exit s a calls e = (calls, inr refl, e)

-- The call of such a function, and that of a transfer function.
module _ {R A : Type 0} {Q : Outcome R A × Machine → Type 0} {s : Machine} where
  pub EndsIn-passing_bind :
      {B : Type 0} (m : Proc B B) (b : B) (f : B → Proc R A)
      → Passes s b (m s)
      → ((after : List Event)
          → moved after ≡ moved s.calls
          → EndsIn Q (record s { calls = after }) (f b))
      → EndsIn Q s (invoke m >>= f)
  EndsIn-passing_bind m b f (after, inr ran, none_moved) g =
      EndsIn-invoke_exit_bind m f b (record s { calls = after }) ran (g after none_moved)
  EndsIn-passing_bind m b f (after, inl ran, none_moved) g =
      EndsIn-invoke_bind m f b (record s { calls = after }) ran (g after none_moved)

-- The call of a function that moves nothing wherever it is called, after others that moved nothing.
module _ {B : Type 0} (s : Machine) (begun : List Event) (m : Proc B B) (b : B)
    (passes : (calls : List Event)
      → Passes (record s { calls = calls }) b (m (record s { calls = calls }))) where
  pub EndsIn-quiet_bind :
      {R A : Type 0} {Q : Outcome R A × Machine → Type 0} {calls : List Event} (f : B → Proc R A)
      → moved calls ≡ moved begun
      → ((after : List Event)
          → moved after ≡ moved begun
          → EndsIn Q (record s { calls = after }) (f b))
      → EndsIn Q (record s { calls = calls }) (invoke m >>= f)
  EndsIn-quiet_bind {calls = calls} f quiet g =
      EndsIn-passing_bind m b f (passes calls) λ after still. g after (still ∙ quiet)

module _ {A : Type 0} {Q : Outcome ℤ A × Machine → Type 0} {s : Machine} where
  pub EndsIn-carrying_bind :
      (type_size : ℕ) (carried : List (ℕ × List ℕ)) (m : Proc ℤ ℤ) (f : ℤ → Proc ℤ A)
      → Carries s type_size carried (m s)
      → ((after : List Event)
          → all_elements type_size (moved after) ≡ all_elements type_size (moved s.calls) ++ carried
          → EndsIn Q (record s { calls = after }) (f success))
      → EndsIn Q s (m >>= f)
  EndsIn-carrying_bind type_size carried m f (after, ran, seen) g = record {
    ends =
        subst (λ (r : Outcome ℤ ℤ × Machine). Q (continue r.0 f r.1)) (sym ran) (g after seen).ends;
  }

module _ (s : Machine) (dset_id type_id plist_id mem file : ℤ) (type_size : ℕ)
    (grants : GrantsDataset s.env dset_id type_id plist_id mem file type_size) where
  pub field_close-Passes : Passes s success (field_close dset_id s)
  unfolding field_close
  field_close-Passes = gives.ends
    where
      gives : EndsIn (Passes s success) s (field_close dset_id)
      gives =
          search (granted_steps, EndsIn-pure, EndsIn-external_bind, grants.closes, Passes-next)
            depth 15

  pub h5p_dataset_xfer_create-Passes : Passes s plist_id (h5p_dataset_xfer_create s)
  unfolding h5p_dataset_xfer_create fail_val_if
  h5p_dataset_xfer_create-Passes = gives.ends
    where
      gives : EndsIn (Passes s plist_id) (record s { calls = s.calls }) h5p_dataset_xfer_create
      gives =
          search
            (
              granted_steps,
              EndsIn-pure,
              EndsIn-known_bind s (pcreate dataset_xfer) plist_id grants.lists,
              EndsIn-external_bind,
              EndsIn-when_either_bind,
              grants.list_valid,
              grants.collective,
              Passes-next,
            )
            depth 15
