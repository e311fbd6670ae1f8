-- ===== src/CanonicalPath/Sharing.antt =====
-- What esio_file_open gets by sharing the canonical path: every rank of the communicator owns one.
use esio.Prelude.{◌+ℤ◌}
use esio.FilePath.{without_scheme}
use esio.Prelude.{if◌then◌else◌, pos, ◌≤ℤ◌, ltb_ℤ}
use esio.FilePath.{set_file_path}
use esio.Prelude.{refl}
use esio.Io.{owned, pure, external_text, canonicalize_file_name}
use esio.Prelude.{ℤ, eq_ℤ, ◌≡◌, refl, Bool, false, Option, none, some, not, true, arith}
use esio.Io.{Text, Handle, owned, Proc, ◌>>=◌}
use esio.CanonicalPath.{
  Agreement, agree_on_path, keep_copy, duplicate_canonical, initial, esanity,
  canonicalize_on_worker, share_canonical_path,
}
use esio.Io.Runs.{Runs, Runs-pure_bind, Runs-assoc, Runs-external_text_bind, Runs-get_handle_bind}
use esio.Error.Runs.{runs_rules}
use esio.File.Outcomes.{HasFailed}
use esio.CanonicalPath.Rounds.{agree-worker, agree-worker-failed, agree-receiver}

-- The last rank either owns its copy of the path or reports why not.
module _ {Q : ℤ → Handle → Type 0} (h₀ : Handle) (h : Handle)
    (same : record h { file_path = h₀.file_path } ≡ h₀) where
  measured-Runs :
      (empty : Bool) (n : ℤ) (f : Unit → Proc ℤ ℤ)
      → Runs h (f tt) Q (HasFailed h₀)
      → Runs h
          (agree_on_path true false (
              if empty
              then record { path_length = pos 0; status = esanity; line = pos 607 }
              else record initial { path_length = n })
            >>= f)
          Q
          (HasFailed h₀)
  measured-Runs true n f k = agree-worker-failed h₀ h same _ f refl
  measured-Runs false n f k = agree-worker h₀ h same _ f k

module _ {Q : ℤ → Handle → Type 0} (h₀ : Handle) (h : Handle)
    (same : record h { file_path = h₀.file_path } ≡ h₀) where
  keep_copy-Runs :
      (s : Text) (copy : Option Text) (f : Unit → Proc ℤ ℤ)
      → ((p : Text) → Runs (record h { file_path = owned p }) (f tt) Q (HasFailed h₀))
      → Runs h
          (keep_copy initial s copy >>= λ buf. agree_on_path true false buf >>= f)
          Q
          (HasFailed h₀)
  unfolding keep_copy set_file_path
  keep_copy-Runs s none f k = search (runs_rules, agree-worker-failed)
  keep_copy-Runs s (some copy) f k = search (runs_rules, measured-Runs) depth 20

  duplicate_canonical-Runs :
      (s : Option Text) (f : Unit → Proc ℤ ℤ)
      → ((p : Text) → Runs (record h { file_path = owned p }) (f tt) Q (HasFailed h₀))
      → Runs h
          (duplicate_canonical initial s >>= λ buf. agree_on_path true false buf >>= f)
          Q
          (HasFailed h₀)
  unfolding duplicate_canonical
  duplicate_canonical-Runs none f k = search (runs_rules, agree-worker-failed)
  duplicate_canonical-Runs (some s) f k = search (runs_rules, keep_copy-Runs) depth 20

module _ {Q : ℤ → Handle → Type 0} (h₀ : Handle) (h : Handle)
    (same : record h { file_path = h₀.file_path } ≡ h₀) where
  ranks-Runs :
      (file : Text) (is_worker is_receiver : Bool) (f : Unit → Proc ℤ ℤ)
      → is_worker ≡ not is_receiver
      → ((p : Text) → Runs (record h { file_path = owned p }) (f tt) Q (HasFailed h₀))
      → Runs h
          ((if is_worker then canonicalize_on_worker file initial else pure initial) >>= λ buf.
            agree_on_path is_worker is_receiver buf >>= f)
          Q
          (HasFailed h₀)
  unfolding canonicalize_on_worker
  ranks-Runs file true true f e k = absurd (ground arith)
  ranks-Runs file true false f e k =
      Runs-assoc (external_text (canonicalize_file_name (without_scheme file)))
        (duplicate_canonical initial) (λ buf. agree_on_path true false buf >>= f)
        (Runs-external_text_bind (canonicalize_file_name (without_scheme file))
          (λ s. duplicate_canonical initial s >>= λ buf. agree_on_path true false buf >>= f)
          (λ s. duplicate_canonical-Runs h₀ h same s f k))
  ranks-Runs file false true f e k =
      Runs-pure_bind initial (λ buf. agree_on_path false true buf >>= f)
        (agree-receiver h₀ h same initial f k)
  ranks-Runs file false false f e k = absurd (ground arith)

-- The rank of a process is below the number of processes.
abbrev pub IsRank : Handle → Type 0
IsRank h = (h.comm_rank +ℤ pos 1) ≤ℤ h.comm_size

last_or_before : (a b : ℤ) → a ≤ℤ b → eq_ℤ a b ≡ not (ltb_ℤ a b)
last_or_before a b le = ground arith

module _ {Q : ℤ → Handle → Type 0} (h₀ : Handle) (h : Handle)
    (same : record h { file_path = h₀.file_path } ≡ h₀) where
  pub share_canonical_path-Runs :
      (file : Text) (f : Unit → Proc ℤ ℤ)
      → IsRank h
      → ((p : Text) → Runs (record h { file_path = owned p }) (f tt) Q (HasFailed h₀))
      → Runs h (share_canonical_path file >>= f) Q (HasFailed h₀)
  unfolding share_canonical_path
  share_canonical_path-Runs file f rank k =
      let w = eq_ℤ (h.comm_rank +ℤ pos 1) h.comm_size in
      let r = ltb_ℤ (h.comm_rank +ℤ pos 1) h.comm_size in
      let start : Proc ℤ Agreement =
        if w then canonicalize_on_worker file initial else pure initial in
      let body : Runs h (start >>= agree_on_path w r >>= f) Q (HasFailed h₀) =
        Runs-assoc start (agree_on_path w r) f (
          ranks-Runs h₀ h same file w r f (last_or_before (h.comm_rank +ℤ pos 1) h.comm_size rank)
            k) in
      search (Runs-assoc, Runs-get_handle_bind, body)
