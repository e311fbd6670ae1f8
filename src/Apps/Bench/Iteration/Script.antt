-- ===== src/Apps/Bench/Iteration/Script.antt =====
-- The rounds of apps/esio_bench.c as operations of the API.
use esio.Api.Reachable.{Reach-IsWellFormed}
use esio.Api.WellFormed.{IsWellFormed}
use mathlib.Core.Path.{subst}
use esio.Restart.Close.{file_close_restart}
use esio.File.{file_close}
use esio.Prelude.{
  ℤ, pos, ℕ, zero, suc, ◌≡◌, refl, sym, ap, ◌∙◌, true, Option, none, some, List, [], ◌∷◌, ◌++◌,
  arith,
}
use esio.Io.{
  Text, ElementType, Machine, HandlePointer, Outcome, Proc, pure, undefined, continue, ◌>>◌,
  returned, next, exit, aborted, fault, exhausted,
}
use esio.Io.Steps.{bind_next}
use esio.Apps.Bench.Details.{Details}
use esio.Apps.Bench.Names.{lettered}
use esio.Apps.Bench.Iteration.{
  discard, for_names, iteration, iterations, write_field, write_plane, write_line,
}
use esio.Apps.Bench.Iteration
use esio.Api.{
  Operation, perform, call, ended, Reach, begin, after, create, writev_field, writev_plane,
  writev_line, flush, close_file, close_restart,
}

-- A program that performs operations one after the other, and looks at no result.
abbrev pub run_all : List Operation → Proc Unit Unit
run_all [] = pure tt
run_all (op ∷ ops) = perform op >> run_all ops

-- One operation for each of the first `count` names.
abbrev pub for_each_name : ℕ → List Text → (Text → Operation) → List Operation
for_each_name zero names op = []
for_each_name (suc count) [] op = []
for_each_name (suc count) (name ∷ names) op = op name ∷ for_each_name count names op

abbrev pub closing : HandlePointer → Option Text → ℕ → Operation
closing h none retain = close_file h
closing h (some template) retain = close_restart h (some template) (pos retain)

-- What one round is meant to do.
abbrev pub script : ElementType → List Text → Details → List Operation
script type names d =
    create d.h d.uncommitted true
      ∷ for_each_name d.nfields names (λ name.
        writev_field type d.h (some (lettered b'f' name)) true (pos 0) (pos 0) (pos 0)
          (pos d.f.ncomponents) none)
    ++ (for_each_name d.nplanes names (λ name.
          writev_plane type d.h (some (lettered b'p' name)) true (pos 0) (pos 0)
            (pos d.p.ncomponents) none)
        ++ (for_each_name d.nlines names (λ name.
              writev_line type d.h (some (lettered b'l' name)) true (pos 0) (pos d.l.ncomponents)
                none)
            ++ (flush d.h ∷ closing d.h d.dst_template d.retain ∷ [])))

abbrev pub scripts : ℕ → ElementType → List Text → Details → List Operation
scripts zero type names d = []
scripts (suc rounds) type names d = script type names d ++ scripts rounds type names d

-- A body that goes on to its end has done what the operations do.
record Performs (ops : List Operation) (m : Proc ℤ Unit) : Type 0 where
  goes_on : (s : Machine) → (m s).0 ≡ next tt → (run_all ops s).0 ≡ next tt
  at : (s : Machine) → (m s).0 ≡ next tt → (run_all ops s).1 ≡ (m s).1

run_all-step :
    (op : Operation) (ops : List Operation) (s : Machine)
    → (perform op s).0 ≡ next tt
    → run_all (op ∷ ops) s ≡ run_all ops (perform op s).1
run_all-step op ops s e = ap (λ o. continue o (λ _. run_all ops) (perform op s).1) e

run_all-append :
    (ops rest : List Operation) (s : Machine)
    → (run_all ops s).0 ≡ next tt
    → run_all (ops ++ rest) s ≡ run_all rest (run_all ops s).1
run_all-append [] rest s e = refl
run_all-append (op ∷ ops) rest s e =
    let (u, first, whole) = bind_next (perform op) (λ _. run_all ops) s tt e in
    run_all-step op (ops ++ rest) s first
    ∙ run_all-append ops rest (perform op s).1 (sym (ap (λ r. r.0) whole) ∙ e)
    ∙ ap (λ r. run_all rest r.1) (sym whole)

module _ (ops rest : List Operation) (m n : Proc ℤ Unit) where
  then_run :
      Performs ops m
      → Performs rest n
      → (s : Machine) → ((m >> n) s).0 ≡ next tt
      → ((run_all (ops ++ rest) s).0 ≡ next tt) × ((run_all (ops ++ rest) s).1 ≡ ((m >> n) s).1)
  then_run km kn s e =
      let (u, first, whole) = bind_next m (λ _. n) s tt e in
      let later : (n (m s).1).0 ≡ next tt = sym (ap (λ r. r.0) whole) ∙ e in
      let split : run_all (ops ++ rest) s ≡ run_all rest (m s).1 =
        run_all-append ops rest s (km.goes_on s first) ∙ ap (run_all rest) (km.at s first) in
      (
        ap (λ r. r.0) split ∙ kn.goes_on (m s).1 later,
        ap (λ r. r.1) split ∙ kn.at (m s).1 later ∙ ap (λ r. r.1) (sym whole),
      )

  Performs-then : Performs ops m → Performs rest n → Performs (ops ++ rest) (m >> n)
  Performs-then km kn = record {
    goes_on = λ s e. (then_run km kn s e).0;
    at = λ s e. (then_run km kn s e).1;
  }

Performs-nothing : Performs [] (pure tt)
Performs-nothing = record { goes_on = λ s e. refl; at = λ s e. refl }

Performs-fault : (ops : List Operation) → Performs ops undefined
Performs-fault ops = record {
  goes_on = λ s e. absurd (ground arith);
  at = λ s e. absurd (ground arith);
}

-- A discarded call is that operation.
discarded :
    {A : Type 0} (o : Outcome A A) (s : Machine)
    → (continue {R = ℤ} (returned o) (λ _. pure tt) s).0 ≡ next tt
    → ((continue (ended o) (λ _. run_all []) s).0 ≡ next tt)
      × ((continue (ended o) (λ _. run_all []) s).1
          ≡ (continue {R = ℤ} (returned o) (λ _. pure tt) s).1)
discarded (next a) s e = (refl, refl)
discarded (exit a) s e = (refl, refl)
discarded aborted s e = absurd (ground arith)
discarded fault s e = absurd (ground arith)
discarded exhausted s e = absurd (ground arith)

Performs-discard :
    {A : Type 0} (op : Operation) (m : Proc A A)
    → perform op ≡ call m
    → Performs (op ∷ []) (discard m)
unfolding discard
Performs-discard op m same = record {
  goes_on = λ s e. rw same (discarded (m s).0 (m s).1 e).0;
  at = λ s e. rw same (discarded (m s).0 (m s).1 e).1;
}

Performs-for_names :
    (count : ℕ) (names : List Text) (op : Text → Operation) (body : Text → Proc ℤ Unit)
    → ((name : Text) → Performs (op name ∷ []) (body name))
    → Performs (for_each_name count names op) (for_names count names body)
unfolding for_names
Performs-for_names zero names op body k = Performs-nothing
Performs-for_names (suc count) [] op body k = Performs-fault []
Performs-for_names (suc count) (name ∷ names) op body k =
    Performs-then (op name ∷ []) (for_each_name count names op) (body name)
      (for_names count names body) (k name) (Performs-for_names count names op body k)

Performs-close :
    (type : ElementType) (names : List Text) (d : Details)
    → Performs (closing d.h d.dst_template d.retain ∷ []) (Iteration.close_file d)
unfolding Iteration.close_file perform
Performs-close type names d = closed d.dst_template
  where
    closed :
        (template : Option Text)
        → Performs (closing d.h template d.retain ∷ []) (elim template [
          | none ↦ discard (file_close d.h)
          | some template ↦ discard (file_close_restart d.h (some template) (pos d.retain))
        ])
    closed none = Performs-discard _ _ refl
    closed (some template) = Performs-discard _ _ refl

Performs-iteration :
    (type : ElementType) (names : List Text) (d : Details)
    → Performs (script type names d) (iteration type names d)
unfolding iteration write_field write_plane write_line perform
Performs-iteration type names d = Performs-then (_ ∷ []) _ _ _ (Performs-discard _ _ refl) (
    Performs-then _ _ _ _
      (Performs-for_names d.nfields names _ _ (λ name. Performs-discard _ _ refl))
      (Performs-then _ _ _ _
        (Performs-for_names d.nplanes names _ _ (λ name. Performs-discard _ _ refl))
        (Performs-then _ _ _ _
          (Performs-for_names d.nlines names _ _ (λ name. Performs-discard _ _ refl))
          (Performs-then (_ ∷ []) _ _ _ (Performs-discard _ _ refl)
            (Performs-close type names d)))))

Performs-iterations :
    (rounds : ℕ) (type : ElementType) (names : List Text) (d : Details)
    → Performs (scripts rounds type names d) (iterations rounds type names d)
unfolding iterations
Performs-iterations zero type names d = Performs-nothing
Performs-iterations (suc rounds) type names d =
    Performs-then (script type names d) (scripts rounds type names d) (iteration type names d)
      (iterations rounds type names d) (Performs-iteration type names d)
      (Performs-iterations rounds type names d)

-- Where the rounds go on to their end, they have done the same as these operations of the API, one
-- after the other: in each round the file is created, each field, plane and line is written under
-- its name, the file is flushed, and it is closed, as a restart file if there is a template.
pub iterations-scripts :
    (rounds : ℕ) (type : ElementType) (names : List Text) (d : Details) (s : Machine)
    → (iterations rounds type names d s).0 ≡ next tt
    → ((run_all (scripts rounds type names d) s).0 ≡ next tt)
      × ((run_all (scripts rounds type names d) s).1 ≡ (iterations rounds type names d s).1)
iterations-scripts rounds type names d s e =
    let done = Performs-iterations rounds type names d in (done.goes_on s e, done.at s e)

-- A program that performs operations reaches its end by the API.
run_all-Reach :
    (ops : List Operation) (start s : Machine)
    → Reach start s
    → (run_all ops s).0 ≡ next tt
    → Reach start (run_all ops s).1
run_all-Reach [] start s r e = r
run_all-Reach (op ∷ ops) start s r e =
    let (u, first, whole) = bind_next (perform op) (λ _. run_all ops) s tt e in
    subst (λ o. Reach start o.1) (sym whole)
      (run_all-Reach ops start (perform op s).1 (after s op r first)
        (sym (ap (λ o. o.0) whole) ∙ e))

-- The benchmark leaves a well-formed handle well-formed, where its rounds go on to their end.
pub iterations-IsWellFormed :
    (rounds : ℕ) (type : ElementType) (names : List Text) (d : Details) (s : Machine)
    → IsWellFormed s.handle
    → (iterations rounds type names d s).0 ≡ next tt
    → IsWellFormed (iterations rounds type names d s).1.handle
iterations-IsWellFormed rounds type names d s w e =
    let (ended, same) = iterations-scripts rounds type names d s e in
    subst (λ s'. IsWellFormed s'.handle) same
      (Reach-IsWellFormed s (run_all (scripts rounds type names d) s).1 w
        (run_all-Reach (scripts rounds type names d) s s begin ended))
