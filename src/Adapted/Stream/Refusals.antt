-- ===== src/Adapted/Stream/Refusals.antt =====
-- What the conversion of `ReadStreamEventsCompleted` of src/adapted/mod.rs gives back with an error.
use eventstore_tcp.Prelude.{Option, none, some, err, ◌≡◌}
use eventstore_tcp.Errors.{ErrorKind}
use eventstore_tcp.Version.{StreamVersion, EventNumber, try_from_i32}
use eventstore_tcp.Message.Enums.{ReadStreamResult}
use eventstore_tcp.Message.ReadStreamEventsCompleted.{ReadStreamEventsCompleted}
use eventstore_tcp.Raw.{ReadDirection}
use eventstore_tcp.Adapted.Keeps.{Keeps, Keeps-ok, Keeps-err, Keeps->>=, Keeps-map_err}
use eventstore_tcp.Adapted.Stream.{from_result, next_page_of, by_status, on_status, try_from}

by_status-Keeps :
    (dir : ReadDirection) (msg : ReadStreamEventsCompleted) (next : Option EventNumber)
    (last : StreamVersion) (status : ReadStreamResult)
    → Keeps (dir, msg) (by_status msg next last status)
unfolding by_status from_result
by_status-Keeps dir msg next last ReadStreamResult.success = Keeps-ok _
by_status-Keeps dir msg next last ReadStreamResult.no_stream = Keeps-ok _
by_status-Keeps dir msg next last ReadStreamResult.stream_deleted = Keeps-ok _
by_status-Keeps dir msg next last ReadStreamResult.not_modified = Keeps-ok _
by_status-Keeps dir msg next last ReadStreamResult.error = Keeps-ok _
by_status-Keeps dir msg next last ReadStreamResult.access_denied = Keeps-ok _

on_status-Keeps :
    (dir : ReadDirection) (msg : ReadStreamEventsCompleted) (o : Option ReadStreamResult)
    → Keeps (dir, msg) (on_status dir msg o)
unfolding on_status
on_status-Keeps dir msg none = Keeps-err _
on_status-Keeps dir msg (some status) =
    Keeps->>= _ _ (Keeps-map_err (next_page_of dir msg.next_event_number)) (λ next.
      Keeps->>= _ _ (Keeps-map_err (try_from_i32 msg.last_event_number))
        (λ last. by_status-Keeps dir msg next last status))

-- Whatever error the conversion of a page returns, it gives the page and its direction back.
pub read_stream_keeps :
    (dir : ReadDirection) (msg : ReadStreamEventsCompleted)
    (m : ReadDirection × ReadStreamEventsCompleted) (e : ErrorKind)
    → try_from dir msg ≡ err (m, e)
    → m ≡ (dir, msg)
unfolding try_from
read_stream_keeps dir msg m e = on_status-Keeps dir msg msg.result m e
