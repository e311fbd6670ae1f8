-- ===== src/Apps/Bench/Parts.antt =====
-- The parts that apps/esio_bench.c gives to its ranks.
use esio.Decomposition.Established.{field_established-establish}
use esio.Prelude.{pos, ltb_ℤ, ℕ, ◌+◌, ◌≤◌, ◌<◌, ◌≡◌, refl, true, false, arith}
use esio.Io.{Machine, live, next}
use esio.Error.{success}
use esio.Apps.Bench.Details.{FieldDetails}
use esio.Apps.Bench.FieldProblem.{field_part}
use esio.Apps.Bench.Split.Partition.{split-Holds, part-Fits}
use esio.Decomposition.{field_establish}

-- The element at (c, b, a) is one of those in the part of a rank with these coordinates.
abbrev pub HoldsElement : FieldDetails → ℕ × ℕ × ℕ → ℕ × ℕ × ℕ → Type 0
HoldsElement f (rc, rb, ra) (c, b, a) =
    let part = field_part (record f { coord_c = rc; coord_b = rb; coord_a = ra }) in
    ((part.cstart ≤ c) × (c < part.cstart + part.clocal))
    × ((part.bstart ≤ b) × (b < part.bstart + part.blocal))
    × ((part.astart ≤ a) × (a < part.astart + part.alocal))

-- Every element of a field is in the part of exactly one coordinate of the topology, where the
-- topology has at least one rank in each direction.
pub field_part-HoldsElement :
    (f : FieldDetails) (c b a : ℕ)
    → 0 < f.dim_c
    → 0 < f.dim_b
    → 0 < f.dim_a
    → c < f.cglobal
    → b < f.bglobal
    → a < f.aglobal
    → (coords : ℕ × ℕ × ℕ) × ((coords.0 < f.dim_c) × (coords.1 < f.dim_b) × (coords.2 < f.dim_a))
      × HoldsElement f coords (c, b, a)
      × ((others : ℕ × ℕ × ℕ) → HoldsElement f others (c, b, a) → others ≡ coords)
unfolding field_part
field_part-HoldsElement f c b a dc db da hc hb ha =
    let (rc, lc, holds_c, only_c) = split-Holds f.cglobal f.dim_c true c dc hc in
    let (rb, lb, holds_b, only_b) = split-Holds f.bglobal f.dim_b false b db hb in
    let (ra, la, holds_a, only_a) = split-Holds f.aglobal f.dim_a true a da ha in
    (
      (rc, rb, ra),
      (lc, lb, la),
      (holds_c, holds_b, holds_a),
      λ others held.
          (λ i. (only_c others.0 held.0 i, only_b others.1 held.1 i, only_a others.2 held.2 i)),
    )

at_least_one : (n : ℕ) → 1 ≤ n → ltb_ℤ (pos n) (pos 1) ≡ false
at_least_one n h = ground arith

-- The part of a rank of the topology lies within the field, and field_establish accepts it, where
-- the field has at least one element in each direction.
pub field_establish-field_part :
    (f : FieldDetails) (s : Machine)
    → 1 ≤ f.cglobal
    → 1 ≤ f.bglobal
    → 1 ≤ f.aglobal
    → f.coord_c < f.dim_c
    → f.coord_b < f.dim_b
    → f.coord_a < f.dim_a
    → ((field_part f).cstart + (field_part f).clocal ≤ f.cglobal)
      × ((field_part f).bstart + (field_part f).blocal ≤ f.bglobal)
      × ((field_part f).astart + (field_part f).alocal ≤ f.aglobal)
      × ((field_establish live
            (pos f.cglobal)
            (pos (field_part f).cstart)
            (pos (field_part f).clocal)
            (pos f.bglobal)
            (pos (field_part f).bstart)
            (pos (field_part f).blocal)
            (pos f.aglobal)
            (pos (field_part f).astart)
            (pos (field_part f).alocal)
            s).0
          ≡ next success)
unfolding field_part
field_establish-field_part f s gc gb ga hc hb ha =
    let c : ltb_ℤ (pos f.cglobal) (pos 1) ≡ false = at_least_one f.cglobal gc in
    let b : ltb_ℤ (pos f.bglobal) (pos 1) ≡ false = at_least_one f.bglobal gb in
    let a : ltb_ℤ (pos f.aglobal) (pos 1) ≡ false = at_least_one f.aglobal ga in
    (
      part-Fits f.cglobal f.dim_c f.coord_c true hc,
      part-Fits f.bglobal f.dim_b f.coord_b false hb,
      part-Fits f.aglobal f.dim_a f.coord_a true ha,
      (field_established-establish s _ _ _ _ _ _ _ _ _ c refl refl b refl refl a refl refl).0,
    )
