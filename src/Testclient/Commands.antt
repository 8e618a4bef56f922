-- ===== src/Testclient/Commands.antt =====
-- The commands of testclient/src: the request that each sends, and what it makes of the reply. What
-- a command was made with is taken out when it is executed. An error keeps what its text tells.
use eventstore_tcp.Prelude.{Bool, Option, none, some, Outcome, ok, err, ◌>>=◌, unwrap}
use eventstore_tcp.Auth.{UsernamePassword}
use eventstore_tcp.Message.Enums.{OperationResult}
use eventstore_tcp.Message.DeleteStreamCompleted.{DeleteStreamCompleted}
use eventstore_tcp.Raw.{RawMessage}
use eventstore_tcp.Codec.{Package}
use eventstore_tcp.Adapted.Keeps.{success, failure}
use eventstore_tcp.Adapted.Writes.{WriteEventsCompleted, WriteEventsFailure}
use eventstore_tcp.Adapted.Convert
use eventstore_tcp.Adapted.Convert.{AdaptedMessage, pong, write_events_completed}
use eventstore_tcp.Builder.Package.{simple_ping, simple_package}
use eventstore_tcp.Builder.WriteEvents
use eventstore_tcp.Builder.WriteEvents.{WriteEventsBuilder}
use eventstore_tcp.Builder.Delete.{DeleteStreamBuilder, build_package as delete_package}
use eventstore_tcp.Testclient.Read.{into_request, expect}
use eventstore_tcp.Testclient.Output.{OutputMode, Printing, Written, format}
use eventstore_tcp.Testclient.Prepare.{Read}

-- `Config`, without the address
pub record Config : Type 0 where
  pub credentials : Option UsernamePassword
  pub verbose : Bool

pub data CommandError : Type 0 where
  no_result : DeleteStreamCompleted → CommandError
  deleting_failed : OperationResult → CommandError
  unexpected_raw : RawMessage → CommandError
  write_failed : WriteEventsFailure → CommandError
  unexpected : AdaptedMessage → CommandError

-- `Write` and `Delete`, without the time of the start
pub record Write : Type 0 where
  pub builder : Option WriteEventsBuilder

pub record Delete : Type 0 where
  pub builder : Option DeleteStreamBuilder

-- `execute` up to `client.call`: the package, and the command that is left.
unfoldable pub ping_request : {Uuid : Type 0} → Uuid → Config → Package Uuid
ping_request fresh config = simple_package fresh config.credentials none simple_ping

module _ {E Uuid : Type 0} (fresh : Uuid) (config : Config) where
  unfoldable pub write_request : Write → Outcome E (Package Uuid × Write)
  write_request w = do
    b ← unwrap w.builder
    (pkg, _) ← WriteEvents.build_package fresh config.credentials none b
    ok (pkg, record { builder = none })

  unfoldable pub delete_request : Delete → Outcome E (Package Uuid × Delete)
  delete_request d = do
    b ← unwrap d.builder
    (pkg, _) ← delete_package fresh config.credentials none b
    ok (pkg, record { builder = none })

  unfoldable pub read_request : Read → Outcome E (Package Uuid × OutputMode × Read)
  read_request r = do
    output ← unwrap r.output_mode
    mode ← unwrap r.read_mode
    pkg ← into_request fresh mode r.stream_id config.credentials
    ok (pkg, output, record r { read_mode = none; output_mode = none })

-- What follows `client.call`; the flag is that for overflow checks.
unfoldable pub pong_or_error : AdaptedMessage → Outcome CommandError (Unit {0})
pong_or_error pong = ok tt
pong_or_error msg = err (unexpected msg)

unfoldable pub ping_reply : Bool → RawMessage → Outcome CommandError (Unit {0})
unfolding pong_or_error
ping_reply checks msg = expect (Convert.try_from checks msg) >>= λ x. pong_or_error x

unfoldable pub write_result : AdaptedMessage → Outcome CommandError WriteEventsCompleted
write_result (write_events_completed (success body)) = ok body
write_result (write_events_completed (failure reason)) = err (write_failed reason)
write_result msg = err (unexpected msg)

unfoldable pub write_reply : Bool → RawMessage → Outcome CommandError WriteEventsCompleted
unfolding write_result
write_reply checks msg = expect (Convert.try_from checks msg) >>= λ x. write_result x

unfoldable pub delete_result :
    DeleteStreamCompleted → Option OperationResult → Outcome CommandError DeleteStreamCompleted
delete_result body none = err (no_result body)
delete_result body (some OperationResult.success) = ok body
delete_result body (some other) = err (deleting_failed other)

unfoldable pub delete_reply : RawMessage → Outcome CommandError DeleteStreamCompleted
unfolding delete_result
delete_reply (RawMessage.delete_stream_completed body) = delete_result body body.result
delete_reply x = err (unexpected_raw x)

unfoldable pub read_reply :
    {V J : Type 0}
    → Printing V J
    → OutputMode
    → Bool
    → Bool
    → RawMessage
    → Written
    → Outcome CommandError Written
read_reply pr output verbose checks msg w = do
  x ← expect (Convert.try_from checks msg)
  ok (format pr output verbose x w)
