-- ===== src/Field/Caching.antt =====
-- The chunk sizes that `esio_field_write_internal` of esio/esio.c computes and keeps for a field that is
-- not in the file yet.
use esio.Prelude.{
  map, ◌∙◌, ℤ, pos, is_zero, ℕ, ◌≡◌, true, false, ◌&&◌, inl, inr, Bool-cases, Option, List, [], ◌∷◌,
  ◌++◌, if◌then◌else◌, Bool,
}
use esio.Io.{
  Text, Env, Handle, Machine, Event, Outcome, Proc, mpi_allreduce_max, invoke, next, ◌>>=◌,
}
use esio.Io.Granted.{
  EndsIn, granted_steps, EndsIn-taken_bind, EndsIn-block_bind, EndsIn-invoke_bind, called,
}
use esio.Error.{success}
use esio.Chunksize.{Chunks, sendbuf_of, chunksize_field}
use esio.Chunksize.Agreement.{allreduce_max, maximum, AllEqual}
use esio.Chunksize.Dimensions.{
  FieldSizes, field_sent, field_received, cglobals, clocals, bglobals, blocals, aglobals, alocals,
  chunksize_field-runs,
}
use esio.Field.{
  FieldStrides, field_transfer_of, store_field_chunks, cache_field_chunks, create_and_write,
  write_new_field,
}
use esio.Field.Created.{GrantsCreation}
use mathlib.Core.Path.{subst}
use esio.Field.Fresh.{ChunksFit, create_and_write-Carries}
use esio.Field.Granted.{GrantsDataset}
use esio.Field.Moves.{local_part, IsApart}
use esio.Layout.Pencils.Trace.{moved}
use esio.Layout.Pencils.Elements.{all_elements}

-- The reduction over all ranks succeeds and gives the entry-wise maxima of what they send, and each rank has the same global sizes.
pub record GrantsChunks (env : Env) (h : Handle) : Type 0 where
  pub ranks : List FieldSizes
  pub reduces :
      (calls : List Event)
      → env.status calls (
          mpi_allreduce_max (
            sendbuf_of h.f.cglobal h.f.clocal
              (sendbuf_of h.f.bglobal h.f.blocal (sendbuf_of h.f.aglobal h.f.alocal []))))
        ≡ pos 0
  pub replies :
      (calls : List Event)
      → env.stored calls (
          mpi_allreduce_max (
            sendbuf_of h.f.cglobal h.f.clocal
              (sendbuf_of h.f.bglobal h.f.blocal (sendbuf_of h.f.aglobal h.f.alocal []))))
        ≡ allreduce_max
            (sendbuf_of h.f.cglobal h.f.clocal
              (sendbuf_of h.f.bglobal h.f.blocal (sendbuf_of h.f.aglobal h.f.alocal [])))
            (map field_sent ranks)
  pub agree :
      AllEqual h.f.cglobal (cglobals ranks)
      × AllEqual h.f.bglobal (bglobals ranks)
      × AllEqual h.f.aglobal (aglobals ranks)

-- The handle with the chunk sizes that are cached, which are computed where they are needed and were
-- not known before.
abbrev pub with_chunks : {env : Env} {h : Handle} → GrantsChunks env h → Handle
with_chunks {h = h} g =
    if h.flags.chunking_enabled && is_zero h.f.achunk
    then record h {
      f = record h.f {
        cchunk = maximum h.f.clocal (clocals g.ranks);
        bchunk = maximum h.f.blocal (blocals g.ranks);
        achunk = maximum h.f.alocal (alocals g.ranks);
      };
    }
    else h

-- A write that succeeds with this handle, and that moves these elements after all that were moved before.
abbrev pub Creates : Machine → Handle → ℕ → List (ℕ × List ℕ) → Outcome ℤ ℤ × Machine → Type 0
Creates s h type_size carried r =
    (calls : List Event) × (r ≡ (next success, record s { calls = calls; handle = h }))
    × (all_elements type_size (moved calls) ≡ all_elements type_size (moved s.calls) ++ carried)

module _ (s : Machine) (name : Text) (type_id dset_id plist_id mem file : ℤ) (type_size : ℕ)
    (creation : GrantsCreation s.env s.handle name type_id dset_id)
    (agreed : GrantsChunks s.env s.handle)
    (grants : GrantsDataset s.env dset_id type_id plist_id mem file type_size)
    (strides : FieldStrides) (spread : IsApart s.handle.layout_index s.handle.f strides) where
  abbrev part : List (ℕ × List ℕ)
  part = local_part s.handle.layout_index type_size s.handle.f strides

  abbrev chunks : List ℤ
  chunks =
      maximum s.handle.f.clocal (clocals agreed.ranks)
      ∷ maximum s.handle.f.blocal (blocals agreed.ranks)
      ∷ maximum s.handle.f.alocal (alocals agreed.ranks)
      ∷ []

  -- Chunk sizes do not matter to what HDF5 grants.
  chunked_creation : GrantsCreation s.env (store_field_chunks chunks s.handle) name type_id dset_id
  unfolding store_field_chunks
  chunked_creation = record {
    missing = creation.missing;
    valid = creation.valid;
    known = creation.known;
    lists = creation.lists;
    chunked = creation.chunked;
    creates = creation.creates;
    created = creation.created;
    ncomponents = creation.ncomponents;
    components = creation.components;
    rows_fit = creation.rows_fit;
    sets = creation.sets;
  }

  module _ (comment : Option Text) where
    chunked_last :
        ChunksFit (store_field_chunks chunks s.handle)
        → (calls : List Event) → moved calls ≡ moved s.calls
        → EndsIn
            (Creates s (store_field_chunks chunks s.handle) type_size part)
            (record s { calls = calls; handle = store_field_chunks chunks s.handle })
            (create_and_write name strides comment type_id)
    unfolding store_field_chunks field_transfer_of
    chunked_last fit calls quiet =
        let (after, ran, seen) =
          (create_and_write-Carries (record s { handle = store_field_chunks chunks s.handle }) name
            type_id dset_id plist_id mem file type_size chunked_creation grants strides spread fit
            comment calls quiet).ends in
        record { ends = (after, ran, seen) }

    plain_last :
        ChunksFit s.handle
        → (calls : List Event) → moved calls ≡ moved s.calls
        → EndsIn
            (Creates s s.handle type_size part)
            (record s { calls = calls })
            (create_and_write name strides comment type_id)
    plain_last fit calls quiet =
        let (after, ran, seen) =
          (create_and_write-Carries s name type_id dset_id plist_id mem file type_size creation
            grants strides spread fit comment calls quiet).ends in
        record { ends = (after, ran, seen) }

    chunksize_bind :
        (calls : List Event) (f : Chunks → Proc ℤ Unit) (g : Unit → Proc ℤ ℤ)
        → EndsIn
            (Creates s (store_field_chunks chunks s.handle) type_size part)
            (called
              (record s { calls = calls })
              (mpi_allreduce_max (
                sendbuf_of s.handle.f.cglobal s.handle.f.clocal (
                  sendbuf_of s.handle.f.bglobal s.handle.f.blocal
                    (sendbuf_of s.handle.f.aglobal s.handle.f.alocal []))))
              (pos 0))
            (f (success, chunks) >>= g)
        → EndsIn
            (Creates s (store_field_chunks chunks s.handle) type_size part)
            (record s { calls = calls })
            (invoke (
                chunksize_field s.handle.f.cglobal s.handle.f.cstart s.handle.f.clocal
                  s.handle.f.bglobal s.handle.f.bstart s.handle.f.blocal s.handle.f.aglobal
                  s.handle.f.astart s.handle.f.alocal)
              >>= λ c. f c >>= g)
    chunksize_bind calls f g e =
        EndsIn-invoke_bind _ (λ c. f c >>= g) (success, chunks) _
          (chunksize_field-runs (record s { calls = calls }) s.handle.f.cglobal s.handle.f.cstart
            s.handle.f.clocal s.handle.f.bglobal s.handle.f.bstart s.handle.f.blocal
            s.handle.f.aglobal s.handle.f.astart s.handle.f.alocal (cglobals agreed.ranks)
            (clocals agreed.ranks) (bglobals agreed.ranks) (blocals agreed.ranks)
            (aglobals agreed.ranks) (alocals agreed.ranks) (agreed.reduces calls)
            (agreed.replies calls
              ∙ field_received s.handle.f.cglobal s.handle.f.clocal s.handle.f.bglobal
                  s.handle.f.blocal s.handle.f.aglobal s.handle.f.alocal agreed.ranks)
            agreed.agree)
          e

    with_caching :
        (s.handle.flags.chunking_enabled && is_zero s.handle.f.achunk) ≡ true
        → ChunksFit (store_field_chunks chunks s.handle)
        → (calls : List Event) → moved calls ≡ moved s.calls
        → EndsIn
            (Creates s (store_field_chunks chunks s.handle) type_size part)
            (record s { calls = calls })
            (write_new_field name strides comment type_id)
    unfolding write_new_field cache_field_chunks
    with_caching e fit calls quiet =
        search
          (granted_steps, EndsIn-block_bind, EndsIn-taken_bind, e, chunksize_bind, chunked_last fit)
          depth 15

    without_caching :
        (s.handle.flags.chunking_enabled && is_zero s.handle.f.achunk) ≡ false
        → ChunksFit s.handle
        → (calls : List Event) → moved calls ≡ moved s.calls
        → EndsIn
            (Creates s s.handle type_size part)
            (record s { calls = calls })
            (write_new_field name strides comment type_id)
    unfolding write_new_field cache_field_chunks
    without_caching e fit calls quiet =
        search (granted_steps, EndsIn-block_bind, e, plain_last fit) depth 15

    pub new_last :
        ChunksFit (with_chunks agreed)
        → (calls : List Event) → moved calls ≡ moved s.calls
        → EndsIn
            (Creates s (with_chunks agreed) type_size part)
            (record s { calls = calls })
            (write_new_field name strides comment type_id)
    unfolding store_field_chunks
    new_last fit calls quiet =
        elim (Bool-cases (s.handle.flags.chunking_enabled && is_zero s.handle.f.achunk)) [
          | inl e ↦ rw e (with_caching e (subst CachedFit e fit) calls quiet)
          | inr e ↦ rw e (without_caching e (subst CachedFit e fit) calls quiet)
        ]
      where
        CachedFit : Bool → Type 0
        CachedFit b = ChunksFit (if b then store_field_chunks chunks s.handle else s.handle)
