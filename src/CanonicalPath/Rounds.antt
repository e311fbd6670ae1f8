-- ===== src/CanonicalPath/Rounds.antt =====
-- The rounds of communication in which the ranks of esio_file_open agree on the canonical path.
use esio.FilePath.{free_file_path, free_pointer, set_file_path}
use mathlib.Core.Path.{subst}
use esio.Prelude.{refl, sym, ap}
use esio.Io.{unset, owned, dangling}
use esio.Prelude.{ℤ, eq_ℤ, ◌≡◌, refl, Bool, false, not, true, arith}
use esio.Io.{Text, Handle, owned, Proc, ◌>>=◌, PathPointer}
use esio.Error.{success}
use esio.CanonicalPath.{
  Agreement, bcast_agreement, reduce_agreement, stop_if_unknown, stop_if_missing, receive_path,
  agree_on_path, reserve, settle,
}
use esio.Io.Runs.{Runs, Runs-pure_bind, Runs-when_bind}
use esio.Error.Runs.{runs_rules}
use esio.Error.Keeps.{Keeps-error}
use esio.File.Outcomes.{HasFailed, HasFailed-now, HasFailed-not}

free_pointer-Runs :
    {B : Type 0} {Q : B → Handle → Type 0} {X : ℤ → Handle → Type 0} (h : Handle) (p : PathPointer)
    (f : Unit → Proc ℤ B)
    → h.file_path ≡ p
    → ((p : PathPointer) → Runs (record h { file_path = p }) (f tt) Q X)
    → Runs h (free_pointer p >>= f) Q X
unfolding free_pointer set_file_path
free_pointer-Runs {Q = Q} {X = X} h unset f e k =
    Runs-pure_bind tt f
      (subst (λ h'. Runs h' (f tt) Q X) (ap (λ p. record h { file_path = p }) (sym e)) (k unset))
free_pointer-Runs h (owned path) f e k = search (runs_rules)
free_pointer-Runs h dangling f e k = search (runs_rules)

pub free_file_path-Runs :
    {B : Type 0} {Q : B → Handle → Type 0} {X : ℤ → Handle → Type 0} (h : Handle)
    (f : Unit → Proc ℤ B)
    → ((p : PathPointer) → Runs (record h { file_path = p }) (f tt) Q X)
    → Runs h (free_file_path >>= f) Q X
unfolding free_file_path
free_file_path-Runs h f k = search (runs_rules, free_pointer-Runs h h.file_path f refl k)

-- The rounds of esio_file_open in which the ranks agree on the path.
module _ (h₀ : Handle) (h : Handle) (same : record h { file_path = h₀.file_path } ≡ h₀) where
  HasFailed-path :
      (r : ℤ) (p : PathPointer)
      → not (eq_ℤ r success) ≡ true
      → HasFailed h₀ r (record h { file_path = p })
  HasFailed-path r p e = HasFailed-not h₀ _ r e same

  module _ {Q : ℤ → Handle → Type 0} where
    bcast-Runs :
        (w : Bool) (buf : Agreement) (f : Agreement → Proc ℤ ℤ)
        → ((buf : Agreement) → Runs h (f buf) Q (HasFailed h₀))
        → Runs h (bcast_agreement w buf >>= f) Q (HasFailed h₀)
    unfolding bcast_agreement
    bcast-Runs w buf f k = search (runs_rules, HasFailed-now) depth 20

    reduce-Runs :
        (buf : Agreement) (f : Agreement → Proc ℤ ℤ)
        → ((buf : Agreement) → Runs h (f buf) Q (HasFailed h₀))
        → Runs h (reduce_agreement buf >>= f) Q (HasFailed h₀)
    unfolding reduce_agreement
    reduce-Runs buf f k = search (runs_rules, HasFailed-now) depth 20

    stop_if_unknown-Runs :
        (w : Bool) (buf : Agreement) (f : Unit → Proc ℤ ℤ)
        → Runs h (f tt) Q (HasFailed h₀)
        → Runs h (stop_if_unknown w buf >>= f) Q (HasFailed h₀)
    unfolding stop_if_unknown
    stop_if_unknown-Runs w buf f k =
        search (runs_rules, free_file_path-Runs, HasFailed-not, HasFailed-path, Keeps-error) depth
          20

    stop_if_missing-Runs :
        (path : PathPointer) (buf : Agreement) (f : Unit → Proc ℤ ℤ)
        → Runs h (f tt) Q (HasFailed h₀)
        → Runs h (stop_if_missing path buf >>= f) Q (HasFailed h₀)
    unfolding stop_if_missing
    stop_if_missing-Runs w buf f k =
        search (runs_rules, free_file_path-Runs, HasFailed-path, Keeps-error) depth 20

    receive_path-Runs :
        (f : Unit → Proc ℤ ℤ)
        → ((p : Text) → Runs (record h { file_path = owned p }) (f tt) Q (HasFailed h₀))
        → Runs h (receive_path true >>= f) Q (HasFailed h₀)
    unfolding receive_path set_file_path
    receive_path-Runs f k = search (runs_rules, HasFailed-now) depth 20

    keep_own_path-Runs :
        (f : Unit → Proc ℤ ℤ)
        → Runs h (f tt) Q (HasFailed h₀)
        → Runs h (receive_path false >>= f) Q (HasFailed h₀)
    unfolding receive_path set_file_path
    keep_own_path-Runs f k = search (runs_rules, HasFailed-now) depth 20

    bcast_worker-Runs :
        (buf : Agreement) (f : Agreement → Proc ℤ ℤ)
        → Runs h (f buf) Q (HasFailed h₀)
        → Runs h (bcast_agreement true buf >>= f) Q (HasFailed h₀)
    unfolding bcast_agreement
    bcast_worker-Runs buf f k = search (runs_rules, HasFailed-now) depth 20

    unknown-Runs :
        (buf : Agreement) (f : Unit → Proc ℤ ℤ)
        → eq_ℤ buf.status success ≡ false
        → Runs h (stop_if_unknown true buf >>= f) Q (HasFailed h₀)
    unfolding stop_if_unknown
    unknown-Runs buf f e =
        Runs-when_bind (not (eq_ℤ buf.status success)) _ f
          (λ c. search (runs_rules, free_file_path-Runs, HasFailed-path, Keeps-error) depth 30)
          (λ c. absurd (ground arith))

    pub agree-worker-failed :
        (buf : Agreement) (f : Unit → Proc ℤ ℤ)
        → eq_ℤ buf.status success ≡ false
        → Runs h (agree_on_path true false buf >>= f) Q (HasFailed h₀)
    unfolding agree_on_path
    agree-worker-failed buf f e = search (runs_rules, bcast_worker-Runs, unknown-Runs) depth 30

    pub agree-worker :
        (buf : Agreement) (f : Unit → Proc ℤ ℤ)
        → Runs h (f tt) Q (HasFailed h₀)
        → Runs h (agree_on_path true false buf >>= f) Q (HasFailed h₀)
    unfolding agree_on_path settle
    agree-worker buf f k =
        search
          (
            runs_rules, bcast-Runs, reduce-Runs, stop_if_unknown-Runs, stop_if_missing-Runs,
            keep_own_path-Runs,
          )
          depth 30

    reserve-Runs :
        (buf : Agreement) (f : Unit → Proc ℤ ℤ)
        → ((p : PathPointer) → Runs (record h { file_path = p }) (f tt) Q (HasFailed h₀))
        → Runs h (reserve buf >>= f) Q (HasFailed h₀)
    unfolding reserve set_file_path
    reserve-Runs buf f k = search runs_rules

-- What a rank before the last one does after it reserved memory, whatever its path is.
module _ {Q : ℤ → Handle → Type 0} (h₀ : Handle) (h : Handle)
    (same : record h { file_path = h₀.file_path } ≡ h₀) where
  settle-receiver :
      (buf : Agreement) (f : Unit → Proc ℤ ℤ)
      → ((p : Text) → Runs (record h { file_path = owned p }) (f tt) Q (HasFailed h₀))
      → Runs h (settle true buf >>= f) Q (HasFailed h₀)
  unfolding settle
  settle-receiver buf f k =
      search (runs_rules, reduce-Runs, stop_if_missing-Runs, receive_path-Runs) depth 30

module _ {Q : ℤ → Handle → Type 0} (h₀ : Handle) (h : Handle)
    (same : record h { file_path = h₀.file_path } ≡ h₀) where
  pub agree-receiver :
      (buf : Agreement) (f : Unit → Proc ℤ ℤ)
      → ((p : Text) → Runs (record h { file_path = owned p }) (f tt) Q (HasFailed h₀))
      → Runs h (agree_on_path false true buf >>= f) Q (HasFailed h₀)
  unfolding agree_on_path
  agree-receiver buf f k =
      search (runs_rules, bcast-Runs, stop_if_unknown-Runs, reserve-Runs, settle-receiver) depth 30
