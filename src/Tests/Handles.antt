-- ===== src/Tests/Handles.antt =====
-- Runs of the operations on files and handles.
use esio.Layout.Table.{field_layout_set}
use esio.Layout.Table.Choice.{IsChosen, IsNotChosen, field_layout_set-Ends}
use esio.Error.{fail_val_if, mpichk_result, mpichk}
use esio.Api.Started.{initialize-Reach-IsWellFormed}
use esio.Handle.{handle_initialize}
use esio.Communicator.{mpi_comm_dup_with_name}
use esio.CanonicalPath.Sharing.{IsRank}
use esio.Plist.{h5p_file_access_create, configure_metadata_caching}
use esio.Io.Runs.{Ends}
use esio.File.Outcomes.{HasOpened, HasFailed}
use esio.File.Results.{HasClosed, IsUnchanged}
use esio.Prelude.{pos, ◌≡◌, refl, true, Option, none, some, ◌∷◌, arith, [], ◌+ℤ◌}
use esio.Io.{Text, Machine, double, owned, live, next}
use esio.File.{file_create, file_open, file_close}
use esio.File.Results.{file_create-Ends, file_open-Ends, HasClosed, IsUnchanged, file_close-Ends}
use esio.Api.Kinds.{is_query, is_write}
use esio.Api.WellFormed.{IsWellFormed}
use esio.Api.Reachable.{perform-query, without_chunks, perform-write}
use esio.Api.{Operation, create, size_field, write_line, perform, begin, after}
use esio.Tests.{reply, stored_reply, idle}

abbrev file_name : Option Text
file_name = some (b'f' ∷ [])

abbrev creation : Operation
creation = create live file_name true

file_create-Ends_example :
    Ends
      (HasOpened idle.handle)
      (HasFailed idle.handle)
      (file_create live file_name true idle).0
      (file_create live file_name true idle).1.handle
file_create-Ends_example = file_create-Ends live file_name true idle

file_open-Ends_example :
    Ends
      (HasOpened idle.handle)
      (HasFailed idle.handle)
      (file_open live file_name true idle).0
      (file_open live file_name true idle).1.handle
unfolding ◌+ℤ◌
file_open-Ends_example = file_open-Ends live file_name true idle (ground arith)

-- The handle after a file was created.
abbrev busy : Machine
busy = record idle {
  handle = record idle.handle { file_id = pos 5; file_path = owned (b'/' ∷ b'f' ∷ []) };
}

file_close-Ends_example :
    Ends
      (HasClosed busy.handle)
      (IsUnchanged busy.handle)
      (file_close live busy).0
      (file_close live busy).1.handle
file_close-Ends_example = file_close-Ends live busy

abbrev size_query : Operation
size_query = size_field live file_name

perform-query_example : (perform size_query busy).1.handle ≡ busy.handle
unfolding is_query
perform-query_example = perform-query size_query busy refl

abbrev line_writing : Operation
line_writing = write_line double live file_name true (pos 0) none

perform-write_example :
    without_chunks (perform line_writing busy).1.handle ≡ without_chunks busy.handle
unfolding is_write
perform-write_example = perform-write line_writing busy refl

initialization-returns : (handle_initialize true idle).0 ≡ next live
unfolding handle_initialize reply stored_reply mpi_comm_dup_with_name fail_val_if mpichk_result
    mpichk
initialization-returns = refl

initialization-IsRank : IsRank (handle_initialize true idle).1.handle
unfolding handle_initialize reply stored_reply mpi_comm_dup_with_name fail_val_if mpichk_result
    mpichk ◌+ℤ◌
initialization-IsRank = ground arith

initialize-Reach-IsWellFormed_example :
    IsWellFormed (perform creation (handle_initialize true idle).1).1.handle
unfolding mpichk handle_initialize perform file_create h5p_file_access_create reply stored_reply
    configure_metadata_caching mpi_comm_dup_with_name
initialize-Reach-IsWellFormed_example =
    initialize-Reach-IsWellFormed true idle (perform creation (handle_initialize true idle).1).1
      initialization-returns initialization-IsRank
      (after (handle_initialize true idle).1 creation begin refl)

field_layout_set-Ends_example :
    Ends
      (IsChosen idle.handle (pos 2))
      (IsNotChosen idle.handle live (pos 2))
      (field_layout_set live (pos 2) idle).0
      (field_layout_set live (pos 2) idle).1.handle
field_layout_set-Ends_example = field_layout_set-Ends live (pos 2) idle
