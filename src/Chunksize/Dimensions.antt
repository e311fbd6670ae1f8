-- ===== src/Chunksize/Dimensions.antt =====
-- The agreement of all ranks on the chunk sizes of planes and fields.
use esio.Prelude.{map, ℤ, pos, ◌≡◌, refl, sym, ◌∙◌, ◌↔◌, Bool, true, false, not, List, [], ◌∷◌, ap}
use esio.Io.{Machine, mpi_allreduce_max, Proc, pure, external_stored, ◌>>◌, next}
use esio.Io.Granted.{called}
use esio.Error.{success, einval, fail_val_if, mpichk_result}
use esio.Error.Fails.{fail_val-next}
use esio.Chunksize.{sendbuf_of, Chunks, chunksize_plane, chunksize_field}
use esio.Chunksize.Agreement.{
  maximum, AllEqual, agrees, agrees-AllEqual, AllEqual-agrees, reduced, allreduce_max, larger,
}

-- Tests in a row, as chunksize_plane and chunksize_field make them.
abbrev refuse_unless : Bool → Proc Chunks Unit
refuse_unless test = fail_val_if (not test) einval (einval, [])

all_pass :
    (x y z : Bool) (v : Chunks) (s : Machine)
    → ((refuse_unless x >> (refuse_unless y >> (refuse_unless z >> pure v))) s).0 ≡ next v
    → (x ≡ true) × (y ≡ true) × (z ≡ true)
unfolding fail_val_if
all_pass false y z v s q =
    absurd (
      fail_val-next einval (einval, []) (λ _. refuse_unless y >> (refuse_unless z >> pure v)) s v q)
all_pass true false z v s q =
    absurd (fail_val-next einval (einval, []) (λ _. refuse_unless z >> pure v) s v q)
all_pass true true false v s q = absurd (fail_val-next einval (einval, []) (λ _. pure v) s v q)
all_pass true true true v s q = (refl, refl, refl)

two_pass :
    (x y : Bool) (v : Chunks) (s : Machine)
    → ((refuse_unless x >> (refuse_unless y >> pure v)) s).0 ≡ next v
    → (x ≡ true) × (y ≡ true)
unfolding fail_val_if
two_pass false y v s q =
    absurd (fail_val-next einval (einval, []) (λ _. refuse_unless y >> pure v) s v q)
two_pass true false v s q = absurd (fail_val-next einval (einval, []) (λ _. pure v) s v q)
two_pass true true v s q = (refl, refl)

module _ (s : Machine) (bg bs₀ bl ag as₀ al : ℤ) (bgs bls ags als : List ℤ)
    (ok : s.env.status s.calls (mpi_allreduce_max (sendbuf_of bg bl (sendbuf_of ag al []))) ≡ pos 0)
    (reply : s.env.stored s.calls (mpi_allreduce_max (sendbuf_of bg bl (sendbuf_of ag al [])))
      ≡ reduced bg bgs bl bls (reduced ag ags al als [])) where
  plane_result :
      (chunksize_plane bg bs₀ bl ag as₀ al s).0
      ≡ ((refuse_unless (agrees bg bgs)
            >> (refuse_unless (agrees ag ags)
                >> (pure (success, maximum bl bls ∷ maximum al als ∷ []))))
          (external_stored {R = Unit}
            (mpi_allreduce_max (sendbuf_of bg bl (sendbuf_of ag al [])))
            s).1).0
  unfolding chunksize_plane mpichk_result
  plane_result = rw (ok, reply) refl

  plane_agrees :
      (chunksize_plane bg bs₀ bl ag as₀ al s).0
        ≡ next (success, maximum bl bls ∷ maximum al als ∷ [])
      → AllEqual bg bgs × AllEqual ag ags
  plane_agrees q =
      let passed =
        two_pass (agrees bg bgs) (agrees ag ags) (success, maximum bl bls ∷ maximum al als ∷ [])
          (external_stored {R = Unit} (mpi_allreduce_max (sendbuf_of bg bl (sendbuf_of ag al [])))
            s).1
          (sym plane_result ∙ q) in
      (agrees-AllEqual bg bgs passed.0, agrees-AllEqual ag ags passed.1)

  plane_succeeds :
      AllEqual bg bgs × AllEqual ag ags
      → (chunksize_plane bg bs₀ bl ag as₀ al s).0
        ≡ next (success, maximum bl bls ∷ maximum al als ∷ [])
  unfolding chunksize_plane mpichk_result fail_val_if
  plane_succeeds h = rw (ok, reply, AllEqual-agrees bg bgs h.0, AllEqual-agrees ag ags h.1) refl

-- The sizes of a plane on another rank.
pub record PlaneSizes : Type 0 where
  pub bglobal : ℤ
  pub blocal : ℤ
  pub aglobal : ℤ
  pub alocal : ℤ

abbrev pub plane_sent : PlaneSizes → List ℤ
plane_sent r = sendbuf_of r.bglobal r.blocal (sendbuf_of r.aglobal r.alocal [])

module _ (bg bl ag al : ℤ) where
  plane_received :
      (ranks : List PlaneSizes)
      → allreduce_max (sendbuf_of bg bl (sendbuf_of ag al [])) (map plane_sent ranks)
        ≡ reduced bg
            (map (λ r. r.bglobal) ranks)
            bl
            (map (λ r. r.blocal) ranks)
            (reduced ag (map (λ r. r.aglobal) ranks) al (map (λ r. r.alocal) ranks) [])
  plane_received [] = refl
  plane_received (r ∷ ranks) = ap (larger (plane_sent r)) (plane_received ranks)

-- Where the reduction succeeds and gives the entry-wise maxima of what the ranks send, each for
-- its own sizes, chunksize_plane succeeds with the maxima of the local sizes as chunk sizes
-- exactly when every rank has the same global sizes.
pub chunksize_plane-AllEqual :
    (s : Machine) (bg bs₀ bl ag as₀ al : ℤ) (ranks : List PlaneSizes)
    → s.env.status s.calls (mpi_allreduce_max (sendbuf_of bg bl (sendbuf_of ag al []))) ≡ pos 0
    → s.env.stored s.calls (mpi_allreduce_max (sendbuf_of bg bl (sendbuf_of ag al [])))
      ≡ allreduce_max (sendbuf_of bg bl (sendbuf_of ag al [])) (map plane_sent ranks)
    → ((chunksize_plane bg bs₀ bl ag as₀ al s).0
        ≡ next (
          success,
          maximum bl (map (λ r. r.blocal) ranks) ∷ maximum al (map (λ r. r.alocal) ranks) ∷ [],
        ))
      ↔ (AllEqual bg (map (λ r. r.bglobal) ranks) × AllEqual ag (map (λ r. r.aglobal) ranks))
chunksize_plane-AllEqual s bg bs₀ bl ag as₀ al ranks ok reply = (
  plane_agrees s bg bs₀ bl ag as₀ al (map (λ r. r.bglobal) ranks) (map (λ r. r.blocal) ranks)
      (map (λ r. r.aglobal) ranks) (map (λ r. r.alocal) ranks) ok
      (reply ∙ plane_received bg bl ag al ranks),
  plane_succeeds s bg bs₀ bl ag as₀ al (map (λ r. r.bglobal) ranks) (map (λ r. r.blocal) ranks)
      (map (λ r. r.aglobal) ranks) (map (λ r. r.alocal) ranks) ok
      (reply ∙ plane_received bg bl ag al ranks),
)

module _ (s : Machine) (cg cs₀ cl bg bs₀ bl ag as₀ al : ℤ) (cgs cls bgs bls ags als : List ℤ)
    (ok : s.env.status s.calls
        (mpi_allreduce_max (sendbuf_of cg cl (sendbuf_of bg bl (sendbuf_of ag al []))))
      ≡ pos 0)
    (reply : s.env.stored s.calls
        (mpi_allreduce_max (sendbuf_of cg cl (sendbuf_of bg bl (sendbuf_of ag al []))))
      ≡ reduced cg cgs cl cls (reduced bg bgs bl bls (reduced ag ags al als []))) where
  field_result :
      (chunksize_field cg cs₀ cl bg bs₀ bl ag as₀ al s).0
      ≡ ((refuse_unless (agrees cg cgs)
            >> (refuse_unless (agrees bg bgs)
                >> (refuse_unless (agrees ag ags)
                    >> (pure (success, maximum cl cls ∷ maximum bl bls ∷ maximum al als ∷ [])))))
          (external_stored {R = Unit}
            (mpi_allreduce_max (sendbuf_of cg cl (sendbuf_of bg bl (sendbuf_of ag al []))))
            s).1).0
  unfolding chunksize_field mpichk_result
  field_result = rw (ok, reply) refl

  field_agrees :
      (chunksize_field cg cs₀ cl bg bs₀ bl ag as₀ al s).0
        ≡ next (success, maximum cl cls ∷ maximum bl bls ∷ maximum al als ∷ [])
      → AllEqual cg cgs × AllEqual bg bgs × AllEqual ag ags
  field_agrees q =
      let passed =
        all_pass (agrees cg cgs) (agrees bg bgs) (agrees ag ags)
          (success, maximum cl cls ∷ maximum bl bls ∷ maximum al als ∷ [])
          (external_stored {R = Unit}
            (mpi_allreduce_max (sendbuf_of cg cl (sendbuf_of bg bl (sendbuf_of ag al [])))) s).1
          (sym field_result ∙ q) in
      (
        agrees-AllEqual cg cgs passed.0,
        agrees-AllEqual bg bgs passed.1,
        agrees-AllEqual ag ags passed.2,
      )

  -- The whole run, where every rank has the same global sizes.
  pub chunksize_field-runs :
      AllEqual cg cgs × AllEqual bg bgs × AllEqual ag ags
      → chunksize_field cg cs₀ cl bg bs₀ bl ag as₀ al s ≡ (
        next (success, maximum cl cls ∷ maximum bl bls ∷ maximum al als ∷ []),
        called s
            (mpi_allreduce_max (sendbuf_of cg cl (sendbuf_of bg bl (sendbuf_of ag al []))))
            (pos 0),
      )
  unfolding chunksize_field mpichk_result fail_val_if
  chunksize_field-runs h =
      rw
        (
          ok,
          reply,
          AllEqual-agrees cg cgs h.0,
          AllEqual-agrees bg bgs h.1,
          AllEqual-agrees ag ags h.2,
        )
        refl

  field_succeeds :
      AllEqual cg cgs × AllEqual bg bgs × AllEqual ag ags
      → (chunksize_field cg cs₀ cl bg bs₀ bl ag as₀ al s).0
        ≡ next (success, maximum cl cls ∷ maximum bl bls ∷ maximum al als ∷ [])
  field_succeeds h = ap (λ r. r.0) (chunksize_field-runs h)

-- The sizes of a field on another rank.
pub record FieldSizes : Type 0 where
  pub cglobal : ℤ
  pub clocal : ℤ
  pub bglobal : ℤ
  pub blocal : ℤ
  pub aglobal : ℤ
  pub alocal : ℤ

abbrev pub field_sent : FieldSizes → List ℤ
field_sent r =
    sendbuf_of r.cglobal r.clocal (sendbuf_of r.bglobal r.blocal (sendbuf_of r.aglobal r.alocal []))

module _ (ranks : List FieldSizes) where
  abbrev pub cglobals : List ℤ
  cglobals = map (λ r. r.cglobal) ranks

  abbrev pub clocals : List ℤ
  clocals = map (λ r. r.clocal) ranks

  abbrev pub bglobals : List ℤ
  bglobals = map (λ r. r.bglobal) ranks

  abbrev pub blocals : List ℤ
  blocals = map (λ r. r.blocal) ranks

  abbrev pub aglobals : List ℤ
  aglobals = map (λ r. r.aglobal) ranks

  abbrev pub alocals : List ℤ
  alocals = map (λ r. r.alocal) ranks

pub field_received :
    (cg cl bg bl ag al : ℤ) (ranks : List FieldSizes)
    → allreduce_max
        (sendbuf_of cg cl (sendbuf_of bg bl (sendbuf_of ag al [])))
        (map field_sent ranks)
      ≡ reduced cg (cglobals ranks) cl (clocals ranks) (
          reduced bg
            (bglobals ranks)
            bl
            (blocals ranks)
            (reduced ag (aglobals ranks) al (alocals ranks) []))
field_received cg cl bg bl ag al [] = refl
field_received cg cl bg bl ag al (r ∷ ranks) =
    ap (larger (field_sent r)) (field_received cg cl bg bl ag al ranks)

-- Where the reduction succeeds and gives the entry-wise maxima of what the ranks send, each for
-- its own sizes, chunksize_field succeeds with the maxima of the local sizes as chunk sizes
-- exactly when every rank has the same global sizes.
pub chunksize_field-AllEqual :
    (s : Machine) (cg cs₀ cl bg bs₀ bl ag as₀ al : ℤ) (ranks : List FieldSizes)
    → s.env.status s.calls
        (mpi_allreduce_max (sendbuf_of cg cl (sendbuf_of bg bl (sendbuf_of ag al []))))
      ≡ pos 0
    → s.env.stored s.calls
        (mpi_allreduce_max (sendbuf_of cg cl (sendbuf_of bg bl (sendbuf_of ag al []))))
      ≡ allreduce_max
          (sendbuf_of cg cl (sendbuf_of bg bl (sendbuf_of ag al [])))
          (map field_sent ranks)
    → ((chunksize_field cg cs₀ cl bg bs₀ bl ag as₀ al s).0
        ≡ next (
          success,
          maximum cl (clocals ranks) ∷ maximum bl (blocals ranks) ∷ maximum al (alocals ranks) ∷ [],
        ))
      ↔ (AllEqual cg (cglobals ranks) × AllEqual bg (bglobals ranks) × AllEqual ag (aglobals ranks))
chunksize_field-AllEqual s cg cs₀ cl bg bs₀ bl ag as₀ al ranks ok reply = (
  field_agrees s cg cs₀ cl bg bs₀ bl ag as₀ al (cglobals ranks) (clocals ranks) (bglobals ranks)
      (blocals ranks) (aglobals ranks) (alocals ranks) ok
      (reply ∙ field_received cg cl bg bl ag al ranks),
  field_succeeds s cg cs₀ cl bg bs₀ bl ag as₀ al (cglobals ranks) (clocals ranks) (bglobals ranks)
      (blocals ranks) (aglobals ranks) (alocals ranks) ok
      (reply ∙ field_received cg cl bg bl ag al ranks),
)
