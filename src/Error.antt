-- ===== src/Error.antt =====
-- esio/error.c and esio/error.h: the status codes, the error handler and the error macros.
pub mod Keeps
pub mod Runs
pub mod Safe
pub mod Fails
pub mod Messages
use Prim.Native.String.{String}
use esio.Prelude.{Option, none, some, not, ℤ, pos, Bool, eq_ℤ, if◌then◌else◌}
use esio.Io.{
  Call, external, mpi_error_string, pure, invoke, when, ErrorHandler, Stream, Proc, aborted, return,
  ignore, gets, modify, ◌>>=◌, ◌>>◌, error_handler, stream_handler, stream_print, mpi_abort,
  default_handler, no_error_handler, user_handler, null_stream, stderr, user_stream,
}

-- enum esio_status
abbrev pub success : ℤ
success = pos 0

abbrev pub efault : ℤ
efault = pos 3

abbrev pub einval : ℤ
einval = pos 4

abbrev pub efailed : ℤ
efailed = pos 5

abbrev pub esanity : ℤ
esanity = pos 7

abbrev pub enomem : ℤ
enomem = pos 8

abbrev pub notfound : ℤ
notfound = pos 9

unfoldable pub strerror : ℤ → String
strerror e =
    if eq_ℤ e success
    then "success"
    else if eq_ℤ e efault
    then "invalid pointer"
    else if eq_ℤ e einval
    then "invalid argument supplied by user"
    else if eq_ℤ e efailed
    then "generic failure"
    else if eq_ℤ e esanity
    then "sanity check failed - shouldn't happen"
    else if eq_ℤ e enomem
    then "malloc failed"
    else if eq_ℤ e notfound
    then "object not found"
    else "unknown error code"

pub set_error_handler : ErrorHandler → Proc ErrorHandler ErrorHandler
set_error_handler new_handler = do
  previous_handler ← gets (λ s. s.esio_error_handler)
  modify (λ s. record s { esio_error_handler = new_handler })
  return previous_handler

pub set_error_handler_off : Proc ErrorHandler ErrorHandler
set_error_handler_off = do
  previous_handler ← gets (λ s. s.esio_error_handler)
  modify (λ s. record s { esio_error_handler = no_error_handler })
  return previous_handler

-- `if (esio_stream == NULL) esio_stream = stderr;`
abbrev or_stderr : Stream → Stream
or_stderr null_stream = stderr
or_stderr stderr = stderr
or_stderr user_stream = user_stream

pub stream_printf : Proc Unit Unit
stream_printf = do
  modify (λ s. record s { esio_stream = or_stderr s.esio_stream })
  handled ← gets (λ s. s.esio_stream_handler)
  if handled then (ignore stream_handler >> return tt) else ignore stream_print

-- The argument is whether the new handler is a function and not NULL.
pub set_stream_handler : Bool → Proc Bool Bool
set_stream_handler new_handler = do
  previous_handler ← gets (λ s. s.esio_stream_handler)
  modify (λ s. record s { esio_stream_handler = new_handler })
  return previous_handler

pub set_stream : Stream → Proc Stream Stream
set_stream new_stream = do
  modify (λ s. record s { esio_stream = or_stderr s.esio_stream })
  previous_stream ← gets (λ s. s.esio_stream)
  modify (λ s. record s { esio_stream = new_stream })
  return previous_stream

-- MPI_Abort does not return.
abbrev abort : Proc Unit Unit
abort s = (aborted, (ignore {R = Unit} mpi_abort s).1)

abbrev handle_error : ErrorHandler → ℤ → Proc Unit Unit
handle_error user_handler code = ignore (error_handler code) >> return tt
handle_error no_error_handler code = return tt
handle_error default_handler code = invoke stream_printf >> abort

pub error : ℤ → Proc Unit Unit
error code = do handler ← gets (λ s. s.esio_error_handler); handle_error handler code

-- The macros ESIO_ERROR and ESIO_ERROR_VAL: report, then return from the function.
module _ {A : Type 0} where
  unfoldable pub fail_val : {R : Type 0} → ℤ → R → Proc R A
  unfolding error stream_printf
  fail_val code value = invoke (error code) >> return value

  unfoldable pub fail : ℤ → Proc ℤ A
  unfolding fail_val
  fail code = fail_val code code

-- `if (test) ESIO_ERROR(…, code);`
unfoldable pub fail_if : Bool → ℤ → Proc ℤ Unit
unfolding fail
fail_if test code = when test (fail code)

unfoldable pub fail_val_if : {R : Type 0} → Bool → ℤ → R → Proc R Unit
unfolding fail_val
fail_val_if test code value = when test (fail_val code value)

-- `if (pointer == NULL) ESIO_ERROR(…, code);`, which goes on with what it points to.
unfoldable pub require : {R A : Type 0} → Option A → ℤ → R → Proc R A
unfolding fail_val
require none code value = fail_val code value
require (some a) code value = pure a

-- ESIO_MPICHKR on a result that was obtained before.
unfoldable pub mpichkr_result : {R : Type 0} → ℤ → Proc R Unit
unfolding error stream_printf
mpichkr_result status =
    when (not (eq_ℤ status (pos 0))) (ignore mpi_error_string >> invoke (error efailed))

unfoldable pub mpichkr : {R : Type 0} → Call → Proc R Unit
unfolding mpichkr_result
mpichkr c = do status ← external c; mpichkr_result status

-- ESIO_MPICHKQ and ESIO_MPICHKN: return `value` from the function if an MPI call fails.
unfoldable pub mpichk_result : {R : Type 0} → ℤ → R → Proc R Unit
unfolding fail_val
mpichk_result status value =
    when (not (eq_ℤ status (pos 0))) (ignore mpi_error_string >> fail_val efailed value)

unfoldable pub mpichk : {R : Type 0} → Call → R → Proc R Unit
unfolding mpichk_result
mpichk c value = do status ← external c; mpichk_result status value
