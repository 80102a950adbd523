-- ===== src/Rpc/Unimplemented.antt =====
-- `UnimplementedQuashServiceServer` of proto/quash_proto_grpc.pb.go, as a client sees it.
use quash.Rpc.Routing.{path_of}
use quash.Rpc.Reaching.{Connection, stub_reaches}
use quash.Rpc.Serving.{call}
use quash.Handler.{Handler, Reply, State, error, pure, returned}
use quash.Prelude.{String, concat, refl, ◌≡◌}
use quash.Rpc.{
  Method, QuashServiceServer, Request, add_subscriber_rpc, create_topic_rpc, delete_kv_rpc,
  full_method_name, get_kv_rpc, remove_subscriber_rpc, remove_topic_rpc, set_kv_rpc, stub,
}

abbrev pub refused : String → String
refused name = concat "method " (concat name " not implemented")

-- `status_error` is `status.Error` with the code `Unimplemented`.
abbrev unimplemented_method : {A B : Type 0} → (String → String) → String → A → Handler (Reply B)
unimplemented_method status_error name req = pure (error (status_error (refused name)))

unfoldable pub unimplemented : (String → String) → QuashServiceServer
unimplemented status_error = record {
  set_kv = unimplemented_method status_error "SetKV";
  get_kv = unimplemented_method status_error "GetKV";
  delete_kv = unimplemented_method status_error "DeleteKV";
  create_topic = unimplemented_method status_error "CreateTopic";
  remove_topic = unimplemented_method status_error "RemoveTopic";
  add_subscriber = unimplemented_method status_error "AddSubscriber";
  remove_subscriber = unimplemented_method status_error "RemoveSubscriber";
}

-- The reply of a call of the method of this name.
abbrev pub no_method : {A : Type 0} → (String → String) → (String → String) → String → Reply A
no_method status status_error name = error (status (status_error (refused name)))

module _ (status_error : String → String) where
  calls :
      (m : Method) (req : Request m) (s : State)
      → (name : String) × (full_method_name m ≡ path_of name)
        × (call (unimplemented status_error) m req s
            ≡ returned (error (status_error (refused name))) s)
  unfolding unimplemented
  calls set_kv_rpc req s = ("SetKV", refl, refl)
  calls get_kv_rpc req s = ("GetKV", refl, refl)
  calls delete_kv_rpc req s = ("DeleteKV", refl, refl)
  calls create_topic_rpc req s = ("CreateTopic", refl, refl)
  calls remove_topic_rpc req s = ("RemoveTopic", refl, refl)
  calls add_subscriber_rpc req s = ("AddSubscriber", refl, refl)
  calls remove_subscriber_rpc req s = ("RemoveSubscriber", refl, refl)

  -- A stub on a server that implements nothing gives an error which names the method, the one
  -- under whose path it was invoked, and the server stays as it was.
  unimplemented_lem :
      (c : Connection (unimplemented status_error)) (m : Method) (req : Request m) (s : State)
      → (name : String) × (full_method_name m ≡ path_of name)
        × (stub c.invoke m req s ≡ (no_method c.status status_error name, s))
  unimplemented_lem c m req s =
      let (name, path, ran) = calls m req s in
      (
        name,
        path,
        stub_reaches (unimplemented status_error) c m req s s (error (status_error (refused name)))
            ran,
      )
