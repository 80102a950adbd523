-- ===== src/Rpc.antt =====
-- proto/quash_proto_grpc.pb.go: the names of the methods, the client's stubs, the handlers of the
-- server's side and the table that `RegisterService` is given. The connection, the decoder and the
-- interceptor are grpc's and arguments here; contexts and call options are left out.
pub mod Serving
pub mod StreamStubs
pub mod Routing
pub mod Reaching
pub mod Quash
pub mod Unimplemented
pub mod Loopback
mod Tests
use quash.Handler.{Handler, Reply, error, ok, pure, ◌>>=◌, ◌>>◌}
use quash.Prelude.{Option, String, none, some}
use quash.Messages.{
  AddSubscriberRequest, AddSubscriberResponse, CreateTopicRequest, CreateTopicResponse,
  DeleteKvRequest, DeleteKvResponse, GetKvRequest, GetKvResponse, RemoveSubscriberRequest,
  RemoveSubscriberResponse, RemoveTopicRequest, RemoveTopicResponse, SetKvRequest, SetKvResponse,
}

-- The unary methods, as tags for the types of their messages.
pub data Method : Type 0 where
  set_kv_rpc : Method
  get_kv_rpc : Method
  delete_kv_rpc : Method
  create_topic_rpc : Method
  remove_topic_rpc : Method
  add_subscriber_rpc : Method
  remove_subscriber_rpc : Method

abbrev pub Request : Method → Type 0
Request set_kv_rpc = SetKvRequest
Request get_kv_rpc = GetKvRequest
Request delete_kv_rpc = DeleteKvRequest
Request create_topic_rpc = CreateTopicRequest
Request remove_topic_rpc = RemoveTopicRequest
Request add_subscriber_rpc = AddSubscriberRequest
Request remove_subscriber_rpc = RemoveSubscriberRequest

abbrev pub Response : Method → Type 0
Response set_kv_rpc = SetKvResponse
Response get_kv_rpc = GetKvResponse
Response delete_kv_rpc = DeleteKvResponse
Response create_topic_rpc = CreateTopicResponse
Response remove_topic_rpc = RemoveTopicResponse
Response add_subscriber_rpc = AddSubscriberResponse
Response remove_subscriber_rpc = RemoveSubscriberResponse

-- `new(SetKVRequest)` and the others: every field has its zero value.
abbrev pub new_request : (m : Method) → Request m
new_request set_kv_rpc = record { key = ""; value = ""; time_out_duration = 0; init_time = 0 }
new_request get_kv_rpc = record { key = "" }
new_request delete_kv_rpc = record { key = "" }
new_request create_topic_rpc = record { topic_name = "" }
new_request remove_topic_rpc = record { topic_name = "" }
new_request add_subscriber_rpc = record { topic_name = "" }
new_request remove_subscriber_rpc = record { topic_name = ""; subscriber_id = "" }

abbrev pub new_response : (m : Method) → Response m
new_response set_kv_rpc = record { response = "" }
new_response get_kv_rpc = record { value = "" }
new_response delete_kv_rpc = record { value = "" }
new_response create_topic_rpc = record { response = "" }
new_response remove_topic_rpc = record { response = "" }
new_response add_subscriber_rpc = record { response = ""; subscriber_id = "" }
new_response remove_subscriber_rpc = record { response = "" }

-- The constants `QuashService_SetKV_FullMethodName` and its like.
abbrev pub full_method_name : Method → String
full_method_name set_kv_rpc = "/quash_proto.QuashService/SetKV"
full_method_name get_kv_rpc = "/quash_proto.QuashService/GetKV"
full_method_name delete_kv_rpc = "/quash_proto.QuashService/DeleteKV"
full_method_name create_topic_rpc = "/quash_proto.QuashService/CreateTopic"
full_method_name remove_topic_rpc = "/quash_proto.QuashService/RemoveTopic"
full_method_name add_subscriber_rpc = "/quash_proto.QuashService/AddSubscriber"
full_method_name remove_subscriber_rpc = "/quash_proto.QuashService/RemoveSubscriber"

-- `cc.Invoke(ctx, method, in, out)` on a connection of the world `W`: the error, and what `out`
-- points to afterwards. The types of `in` and `out` are those of a method.
abbrev pub Invoke : Type 0 → Type 0
Invoke W = String → (m : Method) → Request m → Response m → W → (Option String × Response m) × W

abbrev checked : {A : Type 0} → Option String → A → Reply A
checked (some err) out = error err
checked none out = ok out

-- A stub that invokes the method of this name.
unfoldable pub invoke_named :
    {W : Type 0} → Invoke W → String → (m : Method) → Request m → W → Reply (Response m) × W
invoke_named invoke name m req w =
    let done = invoke name m req (new_response m) w in (checked done.0.0 done.0.1, done.1)

-- The stubs of `quashServiceClient`.
unfoldable pub stub :
    {W : Type 0} → Invoke W → (m : Method) → Request m → W → Reply (Response m) × W
unfolding invoke_named
stub invoke set_kv_rpc = invoke_named invoke (full_method_name set_kv_rpc) set_kv_rpc
stub invoke get_kv_rpc = invoke_named invoke (full_method_name get_kv_rpc) get_kv_rpc
stub invoke delete_kv_rpc = invoke_named invoke (full_method_name delete_kv_rpc) delete_kv_rpc
stub invoke create_topic_rpc =
    invoke_named invoke (full_method_name create_topic_rpc) create_topic_rpc
stub invoke remove_topic_rpc =
    invoke_named invoke (full_method_name remove_topic_rpc) remove_topic_rpc
stub invoke add_subscriber_rpc =
    invoke_named invoke (full_method_name add_subscriber_rpc) add_subscriber_rpc
stub invoke remove_subscriber_rpc =
    invoke_named invoke (full_method_name remove_subscriber_rpc) remove_subscriber_rpc

-- `QuashServiceServer`, without the two streams.
pub record QuashServiceServer : Type 0 where
  pub set_kv : SetKvRequest → Handler (Reply SetKvResponse)
  pub get_kv : GetKvRequest → Handler (Reply GetKvResponse)
  pub delete_kv : DeleteKvRequest → Handler (Reply DeleteKvResponse)
  pub create_topic : CreateTopicRequest → Handler (Reply CreateTopicResponse)
  pub remove_topic : RemoveTopicRequest → Handler (Reply RemoveTopicResponse)
  pub add_subscriber : AddSubscriberRequest → Handler (Reply AddSubscriberResponse)
  pub remove_subscriber : RemoveSubscriberRequest → Handler (Reply RemoveSubscriberResponse)

-- `interface{}` where a handler returns a response or an interceptor is given a request.
pub data AnyRequest : Type 0 where
  a_request : (m : Method) → Request m → AnyRequest

pub data AnyResponse : Type 0 where
  a_response : (m : Method) → Response m → AnyResponse

abbrev pub wrapped : (m : Method) → Reply (Response m) → Reply AnyResponse
wrapped m (ok out) = ok (a_response m out)
wrapped m (error err) = error err

abbrev pub any : (m : Method) → Handler (Reply (Response m)) → Handler (Reply AnyResponse)
any m h = do r ← h; pure (wrapped m r)

-- `dec`, which fills the request that it is given or fails.
abbrev pub Decoder : Type 0
Decoder = (m : Method) → Request m → Reply (Request m)

-- What an interceptor is given: the request, `info.FullMethod` and the rest of the call.
abbrev pub Interceptor : Type 0
Interceptor =
    AnyRequest → String → (AnyRequest → Handler (Reply AnyResponse)) → Handler (Reply AnyResponse)
