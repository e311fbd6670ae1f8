-- ===== src/Apps/Bench/Split/Partition.antt =====
-- The split of apps/esio_bench.c is a partition of the elements over the ranks.
use esio.Apps.Bench.Split.{local, start, start_loop}
use esio.Prelude.{
  ℕ, zero, suc, ◌+◌, ◌-◌, ◌*◌, ◌/◌, ◌%◌, ◌<◌, ◌≡◌, ap, ◌∙◌, Bool, true, false, arith, ltb,
  if◌then◌else◌, ◌≤◌,
}
use native.Mathlib.Decide.{dec_lt}
use native.Mathlib.Nat.{div-add-mod, mod-lt, suc-mul}

start_loop-suc :
    (n p : ℕ) (low : Bool) (k i offset : ℕ)
    → start_loop n p low (suc k) i offset ≡ start_loop n p low k i offset + local n p (i + k) low
unfolding start_loop
start_loop-suc n p low zero i offset = ap (λ j. offset + local n p j low) (omega arith)
start_loop-suc n p low (suc k) i offset =
    start_loop-suc n p low k (i + 1) (offset + local n p i low)
    ∙ ap (λ j. start_loop n p low (suc k) i offset + local n p j low) (omega arith)

-- A rank begins where the one before it ends.
pub start-suc : (n p r : ℕ) (low : Bool) → start n p (suc r) low ≡ start n p r low + local n p r low
unfolding start
start-suc n p r low =
    start_loop-suc n p low r 0 0 ∙ ap (λ j. start n p r low + local n p j low) (omega arith)

-- Ranks below the remainder hold one element more.
start-low : (n p r : ℕ) → start n p r true ≡ r * (n / p) + (if ltb r (n % p) then r else n % p)
unfolding start start_loop local
start-low n p zero = ground arith
start-low n p (suc r) = ground (arith, start-suc n p r true, start-low n p r, suc-mul r (n / p))

-- The last ranks hold one element more.
start-high : (n p r : ℕ) → n % p < p → start n p r false ≡ r * (n / p) + (n % p + r - p)
unfolding start start_loop local
start-high n p zero h = ground arith
start-high n p (suc r) h =
    ground (arith, start-suc n p r false, start-high n p r h, suc-mul r (n / p))

-- All elements are handed out.
pub start-all : (n p : ℕ) (low : Bool) → 0 < p → start n p p low ≡ n
start-all n p true h = ground (arith, start-low n p p, div-add-mod n p, mod-lt n h)
start-all n p false h = ground (arith, start-high n p p (mod-lt n h), div-add-mod n p, mod-lt n h)

-- The element `i` is one of those that rank `r` holds.
abbrev pub Holds : ℕ → ℕ → Bool → ℕ → ℕ → Type 0
Holds n p low r i = (start n p r low ≤ i) × (i < start n p r low + local n p r low)

-- Later ranks begin later.
start_mono : (n p : ℕ) (low : Bool) (r q : ℕ) → r ≤ q → start n p r low ≤ start n p q low
start_mono n p low r zero h = let e : r ≡ 0 = omega arith in rw e (omega arith)
start_mono n p low r (suc q) h = elim (dec_lt q r) [
  | yes last ↦ (let e : r ≡ suc q = omega arith in rw e (omega arith))
  | no earlier ↦ omega (arith, start-suc n p q low, start_mono n p low r q (omega arith))
]

holder_below :
    (n p : ℕ) (low : Bool) (i q : ℕ) → i < start n p q low → (r : ℕ) × (r < q) × Holds n p low r i
unfolding start start_loop
holder_below n p low i zero h = absurd (omega arith)
holder_below n p low i (suc q) h = elim (dec_lt i (start n p q low)) [
  | yes before ↦
      (let (r, below, holds) = holder_below n p low i q before in (r, omega arith, holds))
  | no after ↦ (q, omega arith, (omega arith, omega (arith, start-suc n p q low)))
]

-- Of two ranks that hold an element, neither is before the other.
not_before : (n p : ℕ) (low : Bool) (i r r' : ℕ) → Holds n p low r i → Holds n p low r' i → r' ≤ r
not_before n p low i r r' h h' = elim (dec_lt r r') [
  | yes before ↦ absurd (omega (arith, start-suc n p r low, start_mono n p low (suc r) r' before))
  | no after ↦ omega arith
]

-- Each of the elements is held by exactly one of the ranks, whichever ranks the extra elements go
-- to.
pub split-Holds :
    (nglobal nranks : ℕ) (extralow : Bool) (i : ℕ)
    → 0 < nranks
    → i < nglobal
    → (rank : ℕ) × (rank < nranks)
      × Holds nglobal nranks extralow rank i
      × ((other : ℕ) → Holds nglobal nranks extralow other i → other ≡ rank)
split-Holds n p low i h lt =
    let (r, below, holds) = holder_below n p low i p (rw (start-all n p low h) lt) in
    (
      r,
      below,
      holds,
      λ other held.
          omega (
            arith,
            not_before n p low i r other holds held,
            not_before n p low i other r held holds,
          ),
    )

-- Where there is a rank, all elements are handed out, and of two ranks the part of the lower one
-- is at least as large when extralow is set and the part of the higher one when it is not, and by
-- one element at most.
pub local-balanced :
    (nglobal nranks rank other : ℕ)
    → 0 < nranks
    → rank ≤ other
    → (start nglobal nranks nranks true ≡ nglobal)
      × (start nglobal nranks nranks false ≡ nglobal)
      × (local nglobal nranks other true ≤ local nglobal nranks rank true)
      × (local nglobal nranks rank true ≤ local nglobal nranks other true + 1)
      × (local nglobal nranks rank false ≤ local nglobal nranks other false)
      × (local nglobal nranks other false ≤ local nglobal nranks rank false + 1)
unfolding local
local-balanced n p r r' some h = (
  start-all n p true some,
  start-all n p false some,
  ground arith,
  ground arith,
  ground arith,
  ground arith,
)

-- What establish asks of a rank's part: it lies within the elements.
pub part-Fits : (n p r : ℕ) (low : Bool) → r < p → start n p r low + local n p r low ≤ n
part-Fits n p r low h =
    omega
      (arith, start-suc n p r low, start-all n p low (omega arith), start_mono n p low (suc r) p h)
