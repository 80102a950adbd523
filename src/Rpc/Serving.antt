-- ===== src/Rpc/Serving.antt =====
-- The handlers of the server's side in proto/quash_proto_grpc.pb.go, and `ServiceDesc`.
use quash.Handler.{Handler, Reply, error, ok, panic, pure}
use quash.Prelude.{List, Option, String, [], none, some, ◌∷◌}
use quash.Rpc.{
  any, AnyRequest, AnyResponse, Decoder, Interceptor, Method, QuashServiceServer, Request, Response,
  a_request, add_subscriber_rpc, create_topic_rpc, delete_kv_rpc, full_method_name, get_kv_rpc,
  new_request, remove_subscriber_rpc, remove_topic_rpc, set_kv_rpc,
}

-- `handler` in a method's handler, which an interceptor calls: the assertion `req.(*SetKVRequest)`
-- panics on a request of another type.
abbrev pub assert_and_call : QuashServiceServer → Method → AnyRequest → Handler (Reply AnyResponse)
assert_and_call srv set_kv_rpc (a_request set_kv_rpc req) = any set_kv_rpc (srv.set_kv req)
assert_and_call srv get_kv_rpc (a_request get_kv_rpc req) = any get_kv_rpc (srv.get_kv req)
assert_and_call srv delete_kv_rpc (a_request delete_kv_rpc req) =
    any delete_kv_rpc (srv.delete_kv req)
assert_and_call srv create_topic_rpc (a_request create_topic_rpc req) =
    any create_topic_rpc (srv.create_topic req)
assert_and_call srv remove_topic_rpc (a_request remove_topic_rpc req) =
    any remove_topic_rpc (srv.remove_topic req)
assert_and_call srv add_subscriber_rpc (a_request add_subscriber_rpc req) =
    any add_subscriber_rpc (srv.add_subscriber req)
assert_and_call srv remove_subscriber_rpc (a_request remove_subscriber_rpc req) =
    any remove_subscriber_rpc (srv.remove_subscriber req)
assert_and_call srv m req = panic

-- The call of the server's method where there is no interceptor.
abbrev pub call : QuashServiceServer → (m : Method) → Request m → Handler (Reply (Response m))
call srv set_kv_rpc req = srv.set_kv req
call srv get_kv_rpc req = srv.get_kv req
call srv delete_kv_rpc req = srv.delete_kv req
call srv create_topic_rpc req = srv.create_topic req
call srv remove_topic_rpc req = srv.remove_topic req
call srv add_subscriber_rpc req = srv.add_subscriber req
call srv remove_subscriber_rpc req = srv.remove_subscriber req

-- After `dec`: its error, the server's method, or the interceptor.
unfoldable pub serve :
    QuashServiceServer
    → (m : Method) → Option Interceptor
    → Reply (Request m)
    → Handler (Reply AnyResponse)
serve srv m interceptor (error err) = pure (error err)
serve srv m none (ok req) = any m (call srv m req)
serve srv m (some interceptor) (ok req) =
    interceptor (a_request m req) (full_method_name m) (assert_and_call srv m)

abbrev pub MethodHandler : Type 0
MethodHandler = QuashServiceServer → Decoder → Option Interceptor → Handler (Reply AnyResponse)

-- `_QuashService_SetKV_Handler` and its like.
unfoldable pub method_handler : Method → MethodHandler
unfolding serve
method_handler m srv dec interceptor = serve srv m interceptor (dec m (new_request m))

pub record MethodDesc : Type 0 where
  pub method_name : String
  pub handler : MethodHandler

abbrev pub service_name : String
service_name = "quash_proto.QuashService"

abbrev desc : String → Method → MethodDesc
desc name m = record { method_name = name; handler = method_handler m }

-- `QuashService_ServiceDesc.Methods`
unfoldable pub methods : List MethodDesc
methods =
    desc "SetKV" set_kv_rpc
    ∷ desc "GetKV" get_kv_rpc
    ∷ desc "DeleteKV" delete_kv_rpc
    ∷ desc "CreateTopic" create_topic_rpc
    ∷ desc "RemoveTopic" remove_topic_rpc
    ∷ desc "AddSubscriber" add_subscriber_rpc
    ∷ desc "RemoveSubscriber" remove_subscriber_rpc
    ∷ []
