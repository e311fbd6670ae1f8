-- ===== src/Field/Shared.antt =====
-- What the processes that share a field move, and what the file and their buffers hold after it.
use esio.Prelude.{
  ℤ, pos, pos_part, eq_ℤ_iff, ℕ, ◌+◌, ◌<◌, ◌≡◌, ◌≢◌, refl, ap, ◌∙◌, true, Option, some, List, ◌++◌,
  arith, sym,
}
use native.Mathlib.Nat.{add_right_cancel}
use esio.Io.{Text, Machine, live, Outcome}
use esio.Field.{field_transfer_of, field_write_internal}
use esio.Field.Moves.{local_part}
use esio.Field.Whole.{IsGranted, field_write_internal-Carries, field_read_internal-Carries}
use esio.Field.Contents.{stored, loaded, stored-grid, loaded-grid, stored-elsewhere}
use esio.Field.Apart.{offset-injective, place_in-injective}
use esio.Layout.Simple.{is_positive}
use esio.Layout.Table.Moves.{place_in, IsSpread}
use esio.Layout.Pencils.Trace.{moved}
use esio.Layout.Pencils.Elements.{all_elements}
use esio.Layout.Pencils.Carries.{Carries-elements}
use esio.Field.Caching.{Creates, with_chunks}
use esio.Field.Creating.{field_write_internal-Creates}
use esio.Field.Processes.{
  Access, decomposition, strides, Local, global, offset, written, read, IsReady, IsNew, existing,
  absent, place_at,
}

sized : {type_size : ℕ} → is_positive (pos type_size) ≡ true → 0 < type_size
sized e = ground arith

module _ (type_size : ℕ) (a : Access) (ready : IsReady type_size a) where
  abbrev pub part : List (ℕ × List ℕ)
  part = local_part a.metadata.layout_index type_size (decomposition a) (strides a)

  part-IsSpread :
      IsSpread
        (pos_part (decomposition a).blocal)
        (pos_part (decomposition a).alocal)
        (strides a).cstride
        (strides a).bstride
        (strides a).astride
  part-IsSpread = elim ready.grant [
    | existing granted typed ↦ granted.spread.0
    | absent new ↦ new.spread.0
  ]

  size_positive : 0 < type_size
  size_positive = elim ready.grant [
    | existing granted typed ↦ sized granted.grants.transfers.size_positive
    | absent new ↦ sized new.grants.transfers.size_positive
  ]

  abbrev pub extent : ℕ
  extent = pos_part (decomposition a).bglobal

  pub same_extent : extent ≡ pos_part a.metadata.bglobal
  same_extent =
      ap (λ n. pos_part n)
        ((eq_ℤ_iff (decomposition a).bglobal a.metadata.bglobal).0 (elim ready.grant [
          | existing granted typed ↦ granted.match.same_b
          | absent new ↦ new.same_b
        ]))

  pub written-part : (comment : Option Text) → written type_size a comment ≡ part
  written-part comment =
      elim ready.grant [
        | existing granted typed ↦ Carries-elements a.machine type_size _ _ (
            field_write_internal-Carries a.machine a.name a.cstride a.bstride a.astride a.type_id
              a.metadata a.dset_id a.plist_id a.mem a.file type_size granted comment)
        | absent new ↦ created_elements new (
            field_write_internal-Creates a.machine a.name a.cstride a.bstride a.astride a.type_id
              a.dset_id a.plist_id a.mem a.file type_size new.request new.creation new.agreed
              new.grants new.spread new.chunks_fit comment)
      ]
      ∙ ap (λ ms. all_elements type_size ms ++ part) ready.fresh
    where
      created_elements :
          (new : IsNew type_size a)
          → Creates a.machine
              (with_chunks new.agreed)
              type_size
              (local_part a.machine.handle.layout_index type_size (decomposition a) (strides a))
              (field_write_internal live
                (some a.name)
                true
                a.cstride
                a.bstride
                a.astride
                comment
                a.type_id
                a.machine)
          → written type_size a comment ≡ all_elements type_size (moved a.machine.calls) ++ part
      created_elements new (calls, ran, seen) =
          ap (λ (r : Outcome ℤ ℤ × Machine). all_elements type_size (moved r.1.calls)) ran
          ∙ seen
          ∙ ap
              (λ i.
                all_elements type_size (moved a.machine.calls)
                ++ local_part i type_size (decomposition a) (strides a))
              (sym new.same_layout)

  pub read-part :
      IsGranted a.machine a.name a.cstride a.bstride a.astride a.type_id a.metadata a.dset_id
        a.plist_id a.mem a.file type_size
      → read type_size a ≡ part
  read-part granted =
      Carries-elements a.machine type_size _ _ (
        field_read_internal-Carries a.machine a.name a.cstride a.bstride a.astride a.type_id
          a.metadata a.dset_id a.plist_id a.mem a.file type_size granted)
      ∙ ap (λ ms. all_elements type_size ms ++ part) ready.fresh

  abbrev pub place_of : ℕ → ℕ → ℕ → List ℕ
  place_of i j k = let (c, b, a') = global a i j k in place_in a.metadata.layout_index extent c b a'

  pub place_of-place_at : (i j k : ℕ) → place_of i j k ≡ place_at a.metadata (global a i j k)
  place_of-place_at i j k =
      ap
        (λ n.
          place_in a.metadata.layout_index n (i + pos_part (decomposition a).cstart)
            (j + pos_part (decomposition a).bstart) (k + pos_part (decomposition a).astart))
        same_extent

  module _ {V : Type 0} where
    -- The file holds at the place of an element what was written there.
    pub stored-part :
        (buffer : ℕ → V) (contents : List ℕ → V) (i j k : ℕ)
        → Local a i j k
        → stored part buffer contents (place_of i j k) ≡ buffer (offset type_size a i j k)
    unfolding field_transfer_of
    stored-part buffer contents i j k (il, jl, kl) =
        stored-grid _ _ _ (offset type_size a) place_of i j k il jl kl same_offset buffer contents
      where
        same_offset :
            (i' j' k' : ℕ)
            → i' < pos_part (decomposition a).clocal
            → j' < pos_part (decomposition a).blocal
            → k' < pos_part (decomposition a).alocal
            → place_of i' j' k' ≡ place_of i j k
            → offset type_size a i' j' k' ≡ offset type_size a i j k
        same_offset i' j' k' il' jl' kl' e =
            let (same_c, same_b, same_a) =
              place_in-injective a.metadata.layout_index extent _ _ _ _ _ _ (ready.inside j' jl')
                (ready.inside j jl) e in
            rw (add_right_cancel _ same_c, add_right_cancel _ same_b, add_right_cancel _ same_a)
              refl

    -- The buffer holds at the offset of an element what the file holds at its place.
    pub loaded-part :
        (contents : List ℕ → V) (buffer : ℕ → V) (i j k : ℕ)
        → Local a i j k
        → loaded part contents buffer (offset type_size a i j k) ≡ contents (place_of i j k)
    unfolding field_transfer_of
    loaded-part contents buffer i j k (il, jl, kl) =
        loaded-grid _ _ _ (offset type_size a) place_of i j k il jl kl same_place contents buffer
      where
        same_place :
            (i' j' k' : ℕ)
            → i' < pos_part (decomposition a).clocal
            → j' < pos_part (decomposition a).blocal
            → k' < pos_part (decomposition a).alocal
            → offset type_size a i' j' k' ≡ offset type_size a i j k
            → place_of i' j' k' ≡ place_of i j k
        same_place i' j' k' il' jl' kl' e =
            let (same_i, same_j, same_k) =
              offset-injective type_size (pos_part (decomposition a).blocal)
                (pos_part (decomposition a).alocal) (strides a).cstride (strides a).bstride
                (strides a).astride size_positive part-IsSpread i' j' k' i j k jl' kl' jl kl e in
            rw (same_i, same_j, same_k) refl

    -- The place of an element of the field that is not in the local part keeps what it held.
    pub stored-other :
        (buffer : ℕ → V) (contents : List ℕ → V) (c b a' : ℕ)
        → b < extent
        → ((i j k : ℕ) → Local a i j k → global a i j k ≢ (c, b, a'))
        → stored part buffer contents (place_in a.metadata.layout_index extent c b a')
          ≡ contents (place_in a.metadata.layout_index extent c b a')
    unfolding field_transfer_of
    stored-other buffer contents c b a' bl apart =
        stored-elsewhere _ _ _ (offset type_size a) place_of _
          (λ i j k il jl kl e.
            let (same_c, same_b, same_a) =
              place_in-injective a.metadata.layout_index extent _ _ _ _ _ _ (ready.inside j jl) bl
                e in
            apart i j k (il, jl, kl) (rw (same_c, same_b, same_a) refl))
          buffer contents
