-- ===== src/Api/Started.antt =====
-- From esio_handle_initialize on: the first handle of a program, and all that come after it.
use esio.Io.{null}
use esio.Api.Reachable.{Reach-IsWellFormed}
use esio.Error.{esanity, fail_val}
use esio.Api.{Reach}
use esio.Error.Runs.{Runs-fail_val_bind}
use esio.Io.Runs.{Runs-assoc, Runs-modify_handle_bind, Ends}
use esio.Prelude.{refl, Bool}
use esio.Io.{aborted, fault, exhausted, next, exit}
use esio.Prelude.{ℤ, ◌≡◌, refl, sym, inl, Bool, true, false, not, arith}
use esio.Io.{
  Call, Handle, Machine, HandlePointer, null, live, Outcome, Proc, pure, modify_handle, continue,
  ◌>>=◌, ◌>>◌, returned, invoke, when, next, exit, aborted, fault, exhausted,
}
use esio.Error.{esanity, fail_val, mpichk}
use esio.Handle.{fresh_handle, handle_finalize, handle_initialize}
use esio.Communicator.{mpi_comm_dup_with_name}
use esio.Api.WellFormed.{IsWellFormed}
use esio.Api.Reachable.{Reach-IsWellFormed}
use esio.Api.{Reach}
use esio.CanonicalPath.Sharing.{IsRank}
use esio.Layout.Table.{field_layout_count}
use esio.Io.Keeps.{Keeps}
use esio.Io.Runs.{Runs, Ends}
use esio.Error.Runs.{runs_rules}
use esio.Error.Keeps.{error_rules}
use mathlib.Core.Path.{subst}

-- The handle that calloc and the assignments after it make.
pub record IsFresh (p : HandlePointer) (h : Handle) : Type 0 where
  pub pointer : p ≡ live
  pub rank : ℤ
  pub size : ℤ
  pub handle : h ≡ fresh_handle true rank size

fresh : (dup : Bool) (rank size : ℤ) → not dup ≡ false → IsFresh live (fresh_handle dup rank size)
fresh true rank size e = record { pointer = refl; rank = rank; size = size; handle = refl }
fresh false rank size e = absurd (ground arith)

Keeps-dup : {P : Handle → Type 0} (comm : Bool) → Keeps P (mpi_comm_dup_with_name comm)
unfolding mpi_comm_dup_with_name
Keeps-dup comm = search error_rules depth 60

-- A callee that may change the handle, before statements that do not depend on it.
module _ {R A B : Type 0} {Q : B → Handle → Type 0} {X : R → Handle → Type 0} where
  after_callee :
      (o : Outcome A A) (f : A → Proc R B) (s : Machine)
      → ((h : Handle) (a : A) → Runs h (f a) Q X)
      → Ends Q X (continue (returned o) f s).0 (continue (returned o) f s).1.handle
  after_callee (next a) f s k = (k s.handle a).at s refl
  after_callee (exit a) f s k = (k s.handle a).at s refl
  after_callee aborted f s k = tt
  after_callee fault f s k = tt
  after_callee exhausted f s k = tt

  Runs-any_callee :
      (h : Handle) (m : Proc A A) (f : A → Proc R B)
      → ((h' : Handle) (a : A) → Runs h' (f a) Q X)
      → Runs h (invoke m >>= f) Q X
  Runs-any_callee h m f k = record { at = λ s e. let (o, s') = m s in after_callee o f s' k }

module _ {R B : Type 0} {Q : B → Handle → Type 0} {X : R → Handle → Type 0} where
  Runs-mpichk_bind :
      (h : Handle) (c : Call) (r : R) (f : Unit → Proc R B)
      → X r h
      → Runs h (f tt) Q X
      → Runs h (mpichk c r >>= f) Q X
  unfolding mpichk
  Runs-mpichk_bind h c r f x k = search (runs_rules, x, k)

-- The end of handle_initialize, from the duplicate of the communicator.
duplicated-Runs :
    (h : Handle) (dup : Bool) (rank size : ℤ)
    → Runs h
        (modify_handle (λ _. fresh_handle dup rank size)
          >> (when (not dup) (invoke (handle_finalize live) >>= λ finalized. fail_val esanity null)
              >> pure live))
        IsFresh
        (λ p _. p ≡ null)
duplicated-Runs h true rank size = search (runs_rules, fresh)
duplicated-Runs h false rank size =
    let give_up : Proc HandlePointer Unit = fail_val esanity null in
    let the_end : Unit → Proc HandlePointer HandlePointer = λ _. pure live in
    Runs-modify_handle_bind (λ _. fresh_handle false rank size)
      (λ _. invoke (handle_finalize live) >>= (λ finalized. give_up) >>= the_end)
      (Runs-assoc (invoke (handle_finalize live)) (λ _. give_up) the_end
        (Runs-any_callee (fresh_handle false rank size) (handle_finalize live)
          (λ _. give_up >>= the_end) (λ h' status. Runs-fail_val_bind esanity null the_end refl)))

handle_initialize-Runs :
    (h : Handle) (comm : Bool) → Runs h (handle_initialize comm) IsFresh (λ p _. p ≡ null)
unfolding handle_initialize
handle_initialize-Runs h comm =
    search (runs_rules, duplicated-Runs, Keeps-dup, Runs-mpichk_bind) depth 40

pub IsFresh-IsWellFormed :
    (p : HandlePointer) (h : Handle) → IsFresh p h → IsRank h → IsWellFormed h
unfolding field_layout_count
IsFresh-IsWellFormed p h fr rank = subst IsWellFormed (sym fr.handle) (record {
  rank = subst IsRank fr.handle rank;
  layout = (refl, ground arith);
  line = (refl, (refl, (refl, tt)));
  plane = ground arith;
  field = ground arith;
  file = inl refl;
})

initialized :
    (o : Outcome HandlePointer HandlePointer) (h : Handle)
    → Ends IsFresh (λ p _. p ≡ null) o h
    → o ≡ next live
    → IsFresh live h
initialized (next live) h e q = e
initialized (next null) h e q = absurd (ground arith)
initialized (exit p) h e q = absurd (ground arith)
initialized aborted h e q = absurd (ground arith)
initialized fault h e q = absurd (ground arith)
initialized exhausted h e q = absurd (ground arith)

-- Where handle_initialize has made a handle whose rank is below the number of processes, every
-- sequence of API calls that all return leads to a well-formed handle: the rank is one of the
-- communicator, the layout is in the table, the sizes are natural numbers, and an open file has
-- its path.
pub initialize-Reach-IsWellFormed :
    (comm : Bool) (before s : Machine)
    → (handle_initialize comm before).0 ≡ next live
    → IsRank (handle_initialize comm before).1.handle
    → Reach (handle_initialize comm before).1 s
    → IsWellFormed s.handle
initialize-Reach-IsWellFormed comm before s e rank r =
    let start = (handle_initialize comm before).1 in
    let made =
      initialized (handle_initialize comm before).0 start.handle
        ((handle_initialize-Runs before.handle comm).at before refl) e in
    Reach-IsWellFormed start s (IsFresh-IsWellFormed live start.handle made rank) r
