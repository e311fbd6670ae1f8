-- ===== src/FileCopy/Fuel.antt =====
-- How many rounds the loop of file_copy takes.
use esio.Prelude.{
  ℤ, pos, is_neg, eq_ℤ, ltb_ℤ, ℕ, zero, suc, ◌-◌, ◌≤◌, ◌<◌, ◌≡◌, refl, ◌≢◌, Bool, true, false, List,
  [], ◌∷◌, arith, if◌then◌else◌,
}
use esio.Io.{
  Call, Event, Env, Machine, safe_read, full_write, Proc, pure, external, ◌>>=◌, ◌>>◌, exhausted,
}
use esio.Error.{efailed, fail_if}
use esio.Error.Fails.{fail_if-exhausted}
use esio.FileCopy.{copy_round, copy_loop}

-- The number of reads among the calls that were made.
abbrev is_read : Call → Bool
is_read (safe_read fd) = true
is_read c = false

abbrev pub reads : List Event → ℕ
reads [] = 0
reads (e ∷ calls) = if is_read e.call then suc (reads calls) else reads calls

-- A file of which `k` reads reach the end: a later read returns no bytes or fails.
abbrev pub EndsAfter : ℕ → ℤ → Env → Type 0
EndsAfter k src env =
    (calls : List Event)
    → k ≤ reads calls
    → ltb_ℤ (pos 0) (env.status calls (safe_read src)) ≡ false

written-fuel :
    (bad : Bool) (again : Proc ℤ Unit) (s : Machine)
    → (bad ≡ false → (again s).0 ≢ exhausted)
    → ((fail_if bad efailed >> again) s).0 ≢ exhausted
unfolding fail_if
written-fuel true again s k = fail_if-exhausted efailed (λ _. again) s
written-fuel false again s k = k refl

-- A round after a read of `n` bytes, where `again` stands for the rounds that follow a write.
read-fuel :
    (dst n : ℤ) (failed empty : Bool) (again : Proc ℤ Unit) (s : Machine)
    → (failed ≡ false
        → empty ≡ false
        → (calls : List Event) → reads calls ≡ reads s.calls
        → (again (record s { calls = calls })).0 ≢ exhausted)
    → ((fail_if failed efailed
          >> (if empty then pure tt else do
            written ← external (full_write dst n)
            fail_if (ltb_ℤ written n) efailed
            again))
        s).0
      ≢ exhausted
unfolding fail_if
read-fuel dst n true empty again s k =
    fail_if-exhausted efailed
      (λ _.
        if empty
        then pure tt
        else do written ← external (full_write dst n); fail_if (ltb_ℤ written n) efailed; again)
      s
read-fuel dst n false true again s k = λ e. absurd (ground arith)
read-fuel dst n false false again s k =
    let written = s.env.status s.calls (full_write dst n) in
    let calls : List Event = record { call = full_write dst n; result = written } ∷ s.calls in
    written-fuel (ltb_ℤ written n) again (record s { calls = calls }) (λ _. k refl refl calls refl)

more : (n : ℤ) → is_neg n ≡ false → eq_ℤ n (pos 0) ≡ false → ltb_ℤ (pos 0) n ≡ true
more n e e' = ground arith

copy_round-fuel :
    (src dst : ℤ) (again : Proc ℤ Unit) (s : Machine)
    → (ltb_ℤ (pos 0) (s.env.status s.calls (safe_read src)) ≡ true
        → (calls : List Event) → reads calls ≡ suc (reads s.calls)
        → (again (record s { calls = calls })).0 ≢ exhausted)
    → (copy_round src dst again s).0 ≢ exhausted
unfolding copy_round
copy_round-fuel src dst again s k =
    let n = s.env.status s.calls (safe_read src) in
    read-fuel dst n (is_neg n) (eq_ℤ n (pos 0)) again
      (record s { calls = record { call = safe_read src; result = n } ∷ s.calls })
      (λ e e'. k (more n e e'))

-- The copy loop does not run out of fuel when it has more fuel than there are reads left before
-- the source file ends.
pub copy_loop-fuel :
    (fuel k : ℕ) (src dst : ℤ) (s : Machine)
    → EndsAfter k src s.env
    → k - reads s.calls < fuel
    → (copy_loop fuel src dst s).0 ≢ exhausted
unfolding copy_loop
copy_loop-fuel zero k src dst s e le = absurd (omega arith)
copy_loop-fuel (suc fuel) k src dst s e le =
    copy_round-fuel src dst (copy_loop fuel src dst) s (λ some_bytes calls r.
      copy_loop-fuel fuel k src dst (record s { calls = calls }) e (ground (arith, e s.calls)))
