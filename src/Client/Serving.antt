-- ===== src/Client/Serving.antt =====
-- The unary functions of client/client.go against the server's methods, over grpc.
use quash.Rpc.Serving.{call}
use quash.Handler.{Reply, State, returned}
use quash.Rpc.Reaching.{Connection, seen, stub_reaches}
use quash.Client.{
  Grpc, Ran, World, after_dial, came_back, client_call, close_and_unlock, unary_call, unlocked,
}
use quash.Rpc.{
  Invoke, Method, QuashServiceServer, Request, Response, add_subscriber_rpc, create_topic_rpc,
  delete_kv_rpc, get_kv_rpc, remove_subscriber_rpc, remove_topic_rpc, set_kv_rpc, stub,
}
use quash.Prelude.{ap, none, refl, some, ◌∙◌, ◌≡◌}

-- `Dial` succeeds and leaves the server as it is, and so does `Close`; calls go over `c`.
pub record GrpcTo (g : Grpc State) {srv : QuashServiceServer} (c : Connection srv) : Type 0 where
  pub dials : (s : State) → g.dial s ≡ (none, s)
  pub closes : (s : State) → g.close s ≡ s
  pub same_invoke : g.invoke ≡ c.invoke

client_call_unary :
    {W : Type 0} (g : Grpc W) (m : Method) (req : Request m)
    → client_call g m req ≡ unary_call g (stub g.invoke m req)
unfolding client_call
client_call_unary g set_kv_rpc req = refl
client_call_unary g get_kv_rpc req = refl
client_call_unary g delete_kv_rpc req = refl
client_call_unary g create_topic_rpc req = refl
client_call_unary g remove_topic_rpc req = refl
client_call_unary g add_subscriber_rpc req = refl
client_call_unary g remove_subscriber_rpc req = refl

called :
    {W B : Type 0} (g : Grpc W) (f : W → Reply B × W) (w w1 w2 : W) (r : Reply B)
    → g.dial w ≡ (none, w1)
    → f w1 ≡ (r, w2)
    → unary_call g f (unlocked w) ≡ came_back r (unlocked (g.close w2))
unfolding unary_call
called g f w w1 w2 r dialled ran =
    ap (after_dial g f) dialled
    ∙ ap (λ (a : Reply _ × _). close_and_unlock a.0 a.1 (some (g.close a.1))) ran

-- A function of the client that finds the mutex free comes back with what the server's method of
-- the same name returns, its error as grpc passes it on, and leaves the mutex free and the server
-- as the method leaves it. `Dial` succeeds, and the method returns.
pub client_call_reaches :
    (g : Grpc State) (srv : QuashServiceServer) (c : Connection srv)
    → GrpcTo g c
    → (m : Method) (req : Request m) (s s' : State) (r : Reply (Response m))
    → call srv m req s ≡ returned r s'
    → client_call g m req (unlocked s) ≡ came_back (seen c.status r) (unlocked s')
client_call_reaches g srv c reaches m req s s' r ran =
    ap (λ (f : World State → Ran State (Reply (Response m))). f (unlocked s))
      (client_call_unary g m req)
    ∙ called g (stub g.invoke m req) s s s' (seen c.status r) (reaches.dials s) (
        ap (λ (i : Invoke State). stub i m req s) reaches.same_invoke
        ∙ stub_reaches srv c m req s s' r ran)
    ∙ ap (λ w. came_back (seen c.status r) (unlocked w)) (reaches.closes s')
