-- ===== src/Tests/Sizes.antt =====
-- Runs of the decompositions and of the agreement on chunk sizes.
use esio.Sizes.{Size, field_size, field_sizev}
use esio.Sizes.Scalars.{field_size_iff-IsScalar}
use esio.Io.{aexists_by_name, get_attribute_int, owned, Call, Machine, live, next}
use esio.Metadata.{sentinel}
use esio.Chunksize.{chunksize_line, chunksize_plane, chunksize_field}
use esio.Chunksize.Agreement.{maximum, AllEqual, reduced, chunksize_line-AllEqual}
use esio.Chunksize.Dimensions.{chunksize_plane-AllEqual, chunksize_field-AllEqual}
use esio.Prelude.{◌↔◌, [], List, ℤ, pos, ◌≡◌, refl, true, some, ◌∷◌}
use esio.Error.{success}
use esio.Decomposition.{
  line_establish, plane_establish, field_establish, line_established, plane_established,
  field_established,
}
use esio.Decomposition.Established.{established-establish}
use esio.Tests.{reply, world, idle}

established-establish_example :
    (let line = line_establish live (pos 8) (pos 0) (pos 4) idle in
      let plane = plane_establish live (pos 7) (pos 1) (pos 3) (pos 8) (pos 0) (pos 4) idle in
      let field =
        field_establish live
          (pos 6)
          (pos 2)
          (pos 2)
          (pos 7)
          (pos 1)
          (pos 3)
          (pos 8)
          (pos 0)
          (pos 4)
          idle in
      let of_line = some (pos 8) ∷ some (pos 0) ∷ some (pos 4) ∷ [] in
      let of_plane = some (pos 7) ∷ some (pos 1) ∷ some (pos 3) ∷ of_line in
      let of_field = some (pos 6) ∷ some (pos 2) ∷ some (pos 2) ∷ of_plane in
      ((line.0 ≡ next success)
        × ((line_established live true true true line.1).0 ≡ next (success, of_line)))
      × ((plane.0 ≡ next success)
          × ((plane_established live true true true true true true plane.1).0
              ≡ next (success, of_plane)))
      × ((field.0 ≡ next success)
          × ((field_established live true true true true true true true true true field.1).0
              ≡ next (success, of_field))))
established-establish_example =
    established-establish idle (pos 6) (pos 2) (pos 2) (pos 7) (pos 1) (pos 3) (pos 8) (pos 0)
      (pos 4) refl refl refl refl refl refl refl refl refl

-- Two ranks share an array of 8 elements, of which this one has 4 and the other 3.
abbrev with_reply : List ℤ → Machine
with_reply values = record idle { env = record world { stored = λ calls c. values } }

abbrev eights : List ℤ
eights = pos 8 ∷ []

abbrev threes : List ℤ
threes = pos 3 ∷ []

abbrev reduced_to : List ℤ → List ℤ
reduced_to rest = reduced (pos 8) eights (pos 4) threes rest

chunksize_line-AllEqual_example :
    ((chunksize_line (pos 8) (pos 0) (pos 4) (with_reply (reduced_to []))).0
      ≡ next (success, maximum (pos 4) threes ∷ []))
    ↔ (AllEqual (pos 8) eights)
unfolding reply
chunksize_line-AllEqual_example =
    chunksize_line-AllEqual (with_reply (reduced_to [])) (pos 8) (pos 0) (pos 4)
      (record { aglobal = pos 8; alocal = pos 3 } ∷ []) refl refl

chunksize_plane-AllEqual_example :
    ((chunksize_plane
        (pos 8)
        (pos 0)
        (pos 4)
        (pos 8)
        (pos 0)
        (pos 4)
        (with_reply (reduced_to (reduced_to [])))).0
      ≡ next (success, maximum (pos 4) threes ∷ maximum (pos 4) threes ∷ []))
    ↔ (AllEqual (pos 8) eights × AllEqual (pos 8) eights)
unfolding reply
chunksize_plane-AllEqual_example =
    chunksize_plane-AllEqual (with_reply (reduced_to (reduced_to []))) (pos 8) (pos 0) (pos 4)
      (pos 8) (pos 0) (pos 4)
      (record { bglobal = pos 8; blocal = pos 3; aglobal = pos 8; alocal = pos 3 } ∷ []) refl refl

chunksize_field-AllEqual_example :
    ((chunksize_field
        (pos 8)
        (pos 0)
        (pos 4)
        (pos 8)
        (pos 0)
        (pos 4)
        (pos 8)
        (pos 0)
        (pos 4)
        (with_reply (reduced_to (reduced_to (reduced_to []))))).0
      ≡ next
          (success, maximum (pos 4) threes ∷ maximum (pos 4) threes ∷ maximum (pos 4) threes ∷ []))
    ↔ (AllEqual (pos 8) eights × AllEqual (pos 8) eights × AllEqual (pos 8) eights)
unfolding reply
chunksize_field-AllEqual_example =
    chunksize_field-AllEqual (with_reply (reduced_to (reduced_to (reduced_to [])))) (pos 8) (pos 0)
      (pos 4) (pos 8) (pos 0) (pos 4) (pos 8) (pos 0) (pos 4)
      (record {
        cglobal = pos 8;
        clocal = pos 3;
        bglobal = pos 8;
        blocal = pos 3;
        aglobal = pos 8;
        alocal = pos 3;
      }
        ∷ [])
      refl refl

-- A field of 8 by 9 by 10 scalars is in the file that is open, under layout 1.
found_reply : Call → ℤ
found_reply (aexists_by_name file name) = pos 1
found_reply c = pos 0

metadata_reply : Call → List ℤ
metadata_reply (get_attribute_int file name) =
    pos 0 ∷ pos 1 ∷ pos 9 ∷ pos 1 ∷ pos 8 ∷ pos 9 ∷ pos 10 ∷ pos 1 ∷ sentinel ∷ []
metadata_reply c = []

abbrev with_field : Machine
with_field = record idle {
  env = record world { status = λ calls c. found_reply c; stored = λ calls c. metadata_reply c };
  handle = record idle.handle { file_id = pos 5; file_path = owned (b'f' ∷ []) };
}

abbrev found_size : Size
found_size = record { status = success; global = pos 8 ∷ pos 9 ∷ pos 10 ∷ []; ncomponents = pos 1 }

found-returns : (field_sizev live (some (b'u' ∷ [])) with_field).0 ≡ next found_size
unfolding field_sizev found_reply metadata_reply
found-returns = refl

field_size_iff-IsScalar_example :
    ((field_size live (some (b'u' ∷ [])) with_field).0 ≡ next found_size)
    ↔ (found_size.status ≡ success → found_size.ncomponents ≡ pos 1)
field_size_iff-IsScalar_example =
    field_size_iff-IsScalar live (some (b'u' ∷ [])) with_field found_size found-returns
