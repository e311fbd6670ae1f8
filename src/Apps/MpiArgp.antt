-- ===== src/Apps/MpiArgp.antt =====
-- `mpi_argp_parse` of apps/mpi_argp.c: the root alone prints what argp has to say.
use esio.Prelude.{ℤ, is_zero, Bool, Option, none, some, if◌then◌else◌}
use esio.Apps.Argp.{Parsed, parsed, stopped, fault}

-- Where a standard stream leads: where it led at the start of the program, to /dev/null, or nowhere
-- after a reopening that failed.
pub data Target : Type 0 where
  original dev_null closed : Target

pub record Streams : Type 0 where
  pub stdout : Target
  pub stderr : Target

-- Which of the calls on the two descriptors succeed. A failure is reported and otherwise ignored.
pub record Replies : Type 0 where
  pub dup_stdout : Bool
  pub dup_stderr : Bool
  pub freopen_stdout : Bool
  pub freopen_stderr : Bool
  pub dup2_stdout : Bool
  pub dup2_stderr : Bool

-- `dup(fileno(stream))`
abbrev duplicate_stream : Bool → Target → Option Target
duplicate_stream works target = if works then some target else none

-- `freopen("/dev/null", "a", stream)`, which closes the stream in any case.
abbrev reopened : Bool → Target
reopened works = if works then dev_null else closed

-- `dup2(copy, fileno(stream))`, which fails if the copy is -1.
abbrev restore : Bool → Option Target → Target → Target
restore works none target = target
restore works (some copy) target = if works then copy else target

-- On processes other than the root the streams are redirected.
unfoldable pub redirect : ℤ → Replies → Streams → Streams
redirect rank r s =
    if is_zero rank
    then s
    else record { stdout = reopened r.freopen_stdout; stderr = reopened r.freopen_stderr }

-- What follows argp_parse, which does not return where it ends the program.
unfoldable pub after_argp : {D : Type 0} → Parsed D → Streams → Streams → Parsed D × Streams
after_argp (parsed d) during restored = (parsed d, restored)
after_argp stopped during restored = (stopped, during)
after_argp fault during restored = (fault, during)

-- `parse` is argp_parse, which sees the streams as they are then.
unfoldable pub mpi_argp_parse :
    {D : Type 0} → ℤ → Replies → (Streams → Parsed D) → Streams → Parsed D × Streams
unfolding redirect after_argp
mpi_argp_parse rank r parse s =
    let stdout_copy = duplicate_stream r.dup_stdout s.stdout in
    let stderr_copy = duplicate_stream r.dup_stderr s.stderr in
    let during = redirect rank r s in
    after_argp (parse during) during (record {
      stdout = restore r.dup2_stdout stdout_copy during.stdout;
      stderr = restore r.dup2_stderr stderr_copy during.stderr;
    })
