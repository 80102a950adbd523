-- ===== src/Rpc/Routing.antt =====
-- proto/quash_proto_grpc.pb.go: the stubs and the table name the methods alike, so that a call
-- reaches the method that it names.
use quash.Rpc.Serving.{MethodDesc, MethodHandler, method_handler, methods, service_name}
use quash.Prelude.{
  List, Option, String, [], concat, if◌then◌else◌, none, refl, some, ◌==◌, ◌∷◌, ◌≡◌,
}
use quash.Rpc.{
  Invoke, Method, add_subscriber_rpc, create_topic_rpc, delete_kv_rpc, full_method_name, get_kv_rpc,
  invoke_named, remove_subscriber_rpc, remove_topic_rpc, set_kv_rpc, stub,
}

-- The entry of a table under a name.
abbrev pub find_handler : List MethodDesc → String → Option MethodHandler
find_handler [] name = none
find_handler (d ∷ ds) name = if d.method_name == name then some d.handler else find_handler ds name

-- The path of a method of the service: "/", the service, "/", the method.
abbrev pub path_of : String → String
path_of name = concat "/" (concat service_name (concat "/" name))

abbrev pub IsRouted : Method → Type 0
IsRouted m =
    (name : String) × (full_method_name m ≡ path_of name)
    × (find_handler methods name ≡ some (method_handler m))

-- The full name that a stub invokes is the path of a name of the table, and the entry of that name
-- is the handler of the same method.
pub method-IsRouted : (m : Method) → IsRouted m
unfolding methods
method-IsRouted set_kv_rpc = ("SetKV", refl, refl)
method-IsRouted get_kv_rpc = ("GetKV", refl, refl)
method-IsRouted delete_kv_rpc = ("DeleteKV", refl, refl)
method-IsRouted create_topic_rpc = ("CreateTopic", refl, refl)
method-IsRouted remove_topic_rpc = ("RemoveTopic", refl, refl)
method-IsRouted add_subscriber_rpc = ("AddSubscriber", refl, refl)
method-IsRouted remove_subscriber_rpc = ("RemoveSubscriber", refl, refl)

pub stub_invokes :
    {W : Type 0} (invoke : Invoke W) (m : Method)
    → stub invoke m ≡ invoke_named invoke (full_method_name m) m
unfolding stub
stub_invokes invoke set_kv_rpc = refl
stub_invokes invoke get_kv_rpc = refl
stub_invokes invoke delete_kv_rpc = refl
stub_invokes invoke create_topic_rpc = refl
stub_invokes invoke remove_topic_rpc = refl
stub_invokes invoke add_subscriber_rpc = refl
stub_invokes invoke remove_subscriber_rpc = refl
