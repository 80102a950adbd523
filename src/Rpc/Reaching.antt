-- ===== src/Rpc/Reaching.antt =====
-- A client's stub and the server's method, with grpc's connection between them.
use quash.Prelude.{String, ap, none, some, ◌∙◌, ◌≡◌}
use quash.Kv.Live.{found}
use quash.Handler.{Outcome, Reply, State, continue, error, ok, pure, returned}
use quash.Rpc.{
  Decoder, Invoke, Method, QuashServiceServer, Request, Response, a_response, full_method_name,
  invoke_named, new_request, new_response, stub, wrapped,
}
use quash.Rpc.Serving.{call, method_handler, methods, serve}
use quash.Rpc.Routing.{IsRouted, find_handler, method-IsRouted, path_of, stub_invokes}

-- What the code relies on from grpc: `Invoke` with the path of a method of the table runs that
-- method's handler, with no interceptor, on a decoder that gives the request back, and answers with
-- its response, or with an error that stands for its error.
pub record Connection (srv : QuashServiceServer) : Type 0 where
  pub invoke : Invoke State
  pub status : String → String
  pub decode : (m : Method) → Request m → Decoder
  pub decoded : (m : Method) (req : Request m) → decode m req m (new_request m) ≡ ok req
  pub replies :
      (name : String) (m : Method) (req : Request m) (out : Response m) (s s' : State)
      → find_handler methods name ≡ some (method_handler m)
      → method_handler m srv (decode m req) none s ≡ returned (ok (a_response m out)) s'
      → invoke (path_of name) m req (new_response m) s ≡ ((none, out), s')
  pub fails :
      (name : String) (m : Method) (req : Request m) (err : String) (s s' : State)
      → find_handler methods name ≡ some (method_handler m)
      → method_handler m srv (decode m req) none s ≡ returned (error err) s'
      → invoke (path_of name) m req (new_response m) s ≡ ((some (status err), new_response m), s')

-- The reply of the server as the client sees it.
abbrev pub seen : {A : Type 0} → (String → String) → Reply A → Reply A
seen status (ok out) = ok out
seen status (error err) = error (status err)

module _ (srv : QuashServiceServer) (c : Connection srv) (m : Method) (req : Request m)
    (s s' : State) where
  handled :
      (r : Reply (Response m))
      → call srv m req s ≡ returned r s'
      → method_handler m srv (c.decode m req) none s ≡ returned (wrapped m r) s'
  unfolding method_handler serve
  handled r ran =
      ap (λ (d : Reply (Request m)). serve srv m none d s) (c.decoded m req)
      ∙ ap (λ (o : Outcome (Reply (Response m))). continue o (λ a. pure (wrapped m a))) ran

  answered :
      (r : Reply (Response m))
      → IsRouted m
      → call srv m req s ≡ returned r s'
      → invoke_named c.invoke (full_method_name m) m req s ≡ (seen c.status r, s')
  unfolding invoke_named
  answered (ok out) (name, path, found) ran =
      rw (path, c.replies name m req out s s' found (handled (ok out) ran))
  answered (error err) (name, path, found) ran =
      rw (path, c.fails name m req err s s' found (handled (error err) ran))

-- Where the server's method returns, the stub of the same name gives its response, or its error as
-- grpc passes it on, and leaves the server in the state that the method leaves.
pub stub_reaches :
    (srv : QuashServiceServer) (c : Connection srv) (m : Method) (req : Request m) (s s' : State)
    (r : Reply (Response m))
    → call srv m req s ≡ returned r s'
    → stub c.invoke m req s ≡ (seen c.status r, s')
stub_reaches srv c m req s s' r ran =
    ap (λ (f : Request m → State → Reply (Response m) × State). f req s) (stub_invokes c.invoke m)
    ∙ answered srv c m req s s' r (method-IsRouted m) ran
