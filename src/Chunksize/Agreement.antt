-- ===== src/Chunksize/Agreement.antt =====
-- The chunk sizes that the ranks of a communicator agree on.
use esio.Prelude.{
  ℤ, pos, ◌≤ℤ◌, eq_ℤ, max_ℤ, neg_ℤ, ◌≡◌, refl, sym, ap, ◌∙◌, ◌↔◌, Bool, true, false, List, [], ◌∷◌,
  arith, All, map,
}
use esio.Io.{Machine, mpi_allreduce_max, pure, external_stored, ◌>>=◌, next}
use esio.Error.{success, einval, fail_val, fail_val_if, mpichk_result}
use esio.Chunksize.{sendbuf_of, chunksize_line}
use esio.Error.Fails.{fail_val-next}

-- The maximum of the values of all ranks, as MPI_MAX gives it.
abbrev pub maximum : ℤ → List ℤ → ℤ
maximum n [] = n
maximum n (x ∷ xs) = max_ℤ x (maximum n xs)

abbrev pub negated : List ℤ → List ℤ
negated [] = []
negated (x ∷ xs) = neg_ℤ x ∷ negated xs

abbrev pub AllEqual : ℤ → List ℤ → Type 0
AllEqual n = All (λ x. x ≡ n)

maximum-equal : (n : ℤ) (xs : List ℤ) → AllEqual n xs → maximum n xs ≡ n
maximum-equal n [] h = refl
maximum-equal n (x ∷ xs) h = rw (h.0, maximum-equal n xs h.1) (ground arith)

negated-equal : (n : ℤ) (xs : List ℤ) → AllEqual n xs → AllEqual (neg_ℤ n) (negated xs)
negated-equal n [] h = tt
negated-equal n (x ∷ xs) h = (ap neg_ℤ h.0, negated-equal n xs h.1)

max_below : (a b m : ℤ) → max_ℤ a b ≤ℤ m → (a ≤ℤ m) × (b ≤ℤ m)
max_below a b m h = ground arith

-- A value of each rank lies under the two maxima.
bounded :
    (n n' : ℤ) (xs : List ℤ) (m m' : ℤ)
    → maximum n xs ≤ℤ m
    → maximum n' (negated xs) ≤ℤ m'
    → All (λ x. (x ≤ℤ m) × (neg_ℤ x ≤ℤ m')) xs
bounded n n' [] m m' h h' = tt
bounded n n' (x ∷ xs) m m' h h' =
    let (a, b) = max_below x (maximum n xs) m h in
    let (a', b') = max_below (neg_ℤ x) (maximum n' (negated xs)) m' h' in
    ((a, a'), bounded n n' xs m m' b b')

starts_below : (n : ℤ) (xs : List ℤ) (m : ℤ) → maximum n xs ≤ℤ m → n ≤ℤ m
starts_below n [] m h = h
starts_below n (x ∷ xs) m h = starts_below n xs m ((max_below x (maximum n xs) m h).1)

squeezed : (x m m' : ℤ) → eq_ℤ m (neg_ℤ m') ≡ true → x ≤ℤ m → neg_ℤ x ≤ℤ m' → x ≡ m
squeezed x m m' e h k = ground arith

squeeze_each :
    (n m m' : ℤ) (xs : List ℤ)
    → eq_ℤ m (neg_ℤ m') ≡ true
    → n ≡ m
    → All (λ x. (x ≤ℤ m) × (neg_ℤ x ≤ℤ m')) xs
    → AllEqual n xs
squeeze_each n m m' [] e q h = tt
squeeze_each n m m' (x ∷ xs) e q h =
    (squeezed x m m' e h.0.0 h.0.1 ∙ sym q, squeeze_each n m m' xs e q h.1)

-- The test that the code makes on its receive buffer.
abbrev pub agrees : ℤ → List ℤ → Bool
agrees n xs = eq_ℤ (maximum n xs) (neg_ℤ (maximum (neg_ℤ n) (negated xs)))

refl_le : (n : ℤ) → n ≤ℤ n
refl_le n = omega arith

pub agrees-AllEqual : (n : ℤ) (xs : List ℤ) → agrees n xs ≡ true → AllEqual n xs
agrees-AllEqual n xs e =
    let m = maximum n xs in
    let m' = maximum (neg_ℤ n) (negated xs) in
    squeeze_each n m m' xs e
      (squeezed n m m' e (starts_below n xs m (refl_le m))
        (starts_below (neg_ℤ n) (negated xs) m' (refl_le m')))
      (bounded n (neg_ℤ n) xs m m' (refl_le m) (refl_le m'))

own : (n : ℤ) → eq_ℤ n (neg_ℤ (neg_ℤ n)) ≡ true
own n = ground arith

pub AllEqual-agrees : (n : ℤ) (xs : List ℤ) → AllEqual n xs → agrees n xs ≡ true
AllEqual-agrees n xs h =
    rw (maximum-equal n xs h, maximum-equal (neg_ℤ n) (negated xs) (negated-equal n xs h)) (own n)

-- The four entries of the receive buffer for one dimension: the maxima over this rank and the
-- others.
abbrev pub reduced : ℤ → List ℤ → ℤ → List ℤ → List ℤ → List ℤ
reduced global globals local locals rest =
    maximum global globals
    ∷ maximum (neg_ℤ global) (negated globals)
    ∷ maximum local locals
    ∷ maximum (neg_ℤ local) (negated locals)
    ∷ rest

module _ (s : Machine) (ag as₀ al : ℤ) (ags als : List ℤ)
    (ok : s.env.status s.calls (mpi_allreduce_max (sendbuf_of ag al [])) ≡ pos 0)
    (reply : s.env.stored s.calls (mpi_allreduce_max (sendbuf_of ag al []))
      ≡ reduced ag ags al als []) where
  line_succeeds :
      AllEqual ag ags → (chunksize_line ag as₀ al s).0 ≡ next (success, maximum al als ∷ [])
  unfolding chunksize_line mpichk_result fail_val_if
  line_succeeds h = rw (ok, reply, AllEqual-agrees ag ags h) refl

  line_fails :
      agrees ag ags ≡ false
      → (chunksize_line ag as₀ al s).0
        ≡ ((fail_val {A = Unit} einval (einval, []) >>= λ _. pure (success, maximum al als ∷ []))
            (external_stored {R = Unit} (mpi_allreduce_max (sendbuf_of ag al [])) s).1).0
  unfolding chunksize_line mpichk_result fail_val_if
  line_fails e = rw (ok, reply, e) refl

  line_agrees :
      (test : Bool)
      → agrees ag ags ≡ test
      → (chunksize_line ag as₀ al s).0 ≡ next (success, maximum al als ∷ [])
      → test ≡ true
  line_agrees true e q = refl
  line_agrees false e q = absurd (
      fail_val-next einval (einval, []) (λ _. pure (success, maximum al als ∷ []))
        (external_stored {R = Unit} (mpi_allreduce_max (sendbuf_of ag al [])) s).1
        (success, maximum al als ∷ []) (sym (line_fails e) ∙ q))

-- The entry-wise maximum of what this rank and the others send, which MPI_Allreduce gives for MPI_MAX.
abbrev pub larger : List ℤ → List ℤ → List ℤ
larger [] ys = []
larger (x ∷ xs) [] = []
larger (x ∷ xs) (y ∷ ys) = max_ℤ x y ∷ larger xs ys

abbrev pub allreduce_max : List ℤ → List (List ℤ) → List ℤ
allreduce_max sent [] = sent
allreduce_max sent (other ∷ others) = larger other (allreduce_max sent others)

-- The sizes of a line on another rank.
pub record LineSizes : Type 0 where
  pub aglobal : ℤ
  pub alocal : ℤ

abbrev pub line_aglobals : List LineSizes → List ℤ
line_aglobals = map (λ r. r.aglobal)

abbrev pub line_alocals : List LineSizes → List ℤ
line_alocals = map (λ r. r.alocal)

abbrev pub line_sent : LineSizes → List ℤ
line_sent r = sendbuf_of r.aglobal r.alocal []

line_received :
    (ag al : ℤ) (ranks : List LineSizes)
    → allreduce_max (sendbuf_of ag al []) (map line_sent ranks)
      ≡ reduced ag (line_aglobals ranks) al (line_alocals ranks) []
line_received ag al [] = refl
line_received ag al (r ∷ ranks) = ap (larger (line_sent r)) (line_received ag al ranks)

-- Where the reduction succeeds and gives the entry-wise maxima of what the ranks send, each for
-- its own sizes, chunksize_line succeeds with the maximum of the local sizes as chunk size exactly
-- when every rank has the same global size.
pub chunksize_line-AllEqual :
    (s : Machine) (aglobal astart alocal : ℤ) (ranks : List LineSizes)
    → s.env.status s.calls (mpi_allreduce_max (sendbuf_of aglobal alocal [])) ≡ pos 0
    → s.env.stored s.calls (mpi_allreduce_max (sendbuf_of aglobal alocal []))
      ≡ allreduce_max (sendbuf_of aglobal alocal []) (map line_sent ranks)
    → ((chunksize_line aglobal astart alocal s).0
        ≡ next (success, maximum alocal (line_alocals ranks) ∷ []))
      ↔ AllEqual aglobal (line_aglobals ranks)
chunksize_line-AllEqual s ag as₀ al ranks ok reply = (
  λ q. agrees-AllEqual ag ags (line_agrees s ag as₀ al ags als ok received (agrees ag ags) refl q),
  line_succeeds s ag as₀ al ags als ok received,
)
  where
    ags : List ℤ
    ags = line_aglobals ranks

    als : List ℤ
    als = line_alocals ranks

    received :
        s.env.stored s.calls (mpi_allreduce_max (sendbuf_of ag al [])) ≡ reduced ag ags al als []
    received = reply ∙ line_received ag al ranks
