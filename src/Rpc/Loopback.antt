-- ===== src/Rpc/Loopback.antt =====
-- A connection without a network: the table is looked up and the handler is run in place.
use quash.Kv.Live.{found}
use text.Mathlib.TextLemmas.{cons-append, nil-append}
use quash.Rpc.Reaching.{seen, Connection}
use quash.Rpc.{
  AnyRequest, AnyResponse, Decoder, Invoke, Method, QuashServiceServer, Request, Response,
  a_request, a_response, add_subscriber_rpc, create_topic_rpc, delete_kv_rpc, get_kv_rpc,
  new_request, new_response, remove_subscriber_rpc, remove_topic_rpc, set_kv_rpc,
}
use quash.Rpc.Routing.{path_of, find_handler}
use quash.Prelude.{concat, Option, String, ap, none, refl, some, ◌∙◌, ◌≡◌}
use quash.Rpc.Serving.{method_handler, service_name, MethodHandler, methods}
use quash.Handler.{Outcome, Reply, State, blocked, error, ok, panicked, returned}

abbrev as_request : (m : Method) → AnyRequest → Option (Request m)
as_request set_kv_rpc (a_request set_kv_rpc req) = some req
as_request get_kv_rpc (a_request get_kv_rpc req) = some req
as_request delete_kv_rpc (a_request delete_kv_rpc req) = some req
as_request create_topic_rpc (a_request create_topic_rpc req) = some req
as_request remove_topic_rpc (a_request remove_topic_rpc req) = some req
as_request add_subscriber_rpc (a_request add_subscriber_rpc req) = some req
as_request remove_subscriber_rpc (a_request remove_subscriber_rpc req) = some req
as_request m r = none

abbrev as_response : (m : Method) → AnyResponse → Option (Response m)
as_response set_kv_rpc (a_response set_kv_rpc res) = some res
as_response get_kv_rpc (a_response get_kv_rpc res) = some res
as_response delete_kv_rpc (a_response delete_kv_rpc res) = some res
as_response create_topic_rpc (a_response create_topic_rpc res) = some res
as_response remove_topic_rpc (a_response remove_topic_rpc res) = some res
as_response add_subscriber_rpc (a_response add_subscriber_rpc res) = some res
as_response remove_subscriber_rpc (a_response remove_subscriber_rpc res) = some res
as_response m r = none

-- Without as many characters as the first text has.
abbrev drop_like : String → String → String
drop_like String.[] t = t
drop_like (String.◌∷◌ c s) String.[] = String.[]
drop_like (String.◌∷◌ c s) (String.◌∷◌ d t) = drop_like s t

drop_like-concat : (s t : String) → drop_like s (concat s t) ≡ t
drop_like-concat String.[] t = nil-append t
drop_like-concat (String.◌∷◌ c s) t =
    ap (drop_like (String.◌∷◌ c s)) (cons-append c s t) ∙ drop_like-concat s t

-- What stands behind "/", the service and "/".
abbrev name_in : String → String
name_in path = drop_like "/" (drop_like service_name (drop_like "/" path))

name_in-path_of : (name : String) → name_in (path_of name) ≡ name
name_in-path_of name =
    ap (λ (p : String). drop_like "/" (drop_like service_name p))
      (drop_like-concat "/" (concat service_name (concat "/" name)))
    ∙ ap (drop_like "/") (drop_like-concat service_name (concat "/" name))
    ∙ drop_like-concat "/" name

abbrev filled : {A : Type 0} → Option A → Reply A
filled none = error "type mismatch"
filled (some a) = ok a

abbrev decode_as : (m : Method) → Request m → Decoder
decode_as m req m' x = filled (as_request m' (a_request m req))

abbrev answer_with : {A : Type 0} → A → Option A → State → (Option String × A) × State
answer_with out none s = ((some "type mismatch", out), s)
answer_with out (some r) s = ((none, r), s)

abbrev landed :
    (m : Method)
    → Response m
    → State
    → Outcome (Reply AnyResponse)
    → (Option String × Response m) × State
landed m out s (returned (ok r) s') = answer_with out (as_response m r) s'
landed m out s (returned (error err) s') = ((some err, out), s')
landed m out s panicked = ((some "unavailable", out), s)
landed m out s (blocked s') = ((some "deadline exceeded", out), s')

abbrev run_found :
    QuashServiceServer
    → (m : Method) → Request m
    → Response m
    → State
    → Option MethodHandler
    → (Option String × Response m) × State
run_found srv m req out s none = ((some "unimplemented", out), s)
run_found srv m req out s (some h) = landed m out s (h srv (decode_as m req) none s)

abbrev pub invoke_local : QuashServiceServer → Invoke State
invoke_local srv name m req out s = run_found srv m req out s (find_handler methods (name_in name))

decode-filled : (m : Method) (req : Request m) → decode_as m req m (new_request m) ≡ ok req
decode-filled set_kv_rpc req = refl
decode-filled get_kv_rpc req = refl
decode-filled delete_kv_rpc req = refl
decode-filled create_topic_rpc req = refl
decode-filled remove_topic_rpc req = refl
decode-filled add_subscriber_rpc req = refl
decode-filled remove_subscriber_rpc req = refl

as_response-same : (m : Method) (r : Response m) → as_response m (a_response m r) ≡ some r
as_response-same set_kv_rpc r = refl
as_response-same get_kv_rpc r = refl
as_response-same delete_kv_rpc r = refl
as_response-same create_topic_rpc r = refl
as_response-same remove_topic_rpc r = refl
as_response-same add_subscriber_rpc r = refl
as_response-same remove_subscriber_rpc r = refl

runs :
    (srv : QuashServiceServer) (m : Method) (req : Request m) (s : State) (name : String)
    (h : MethodHandler)
    → find_handler methods name ≡ some h
    → invoke_local srv (path_of name) m req (new_response m) s
      ≡ landed m (new_response m) s (h srv (decode_as m req) none s)
runs srv m req s name h found =
    ap (λ n. run_found srv m req (new_response m) s (find_handler methods n)) (name_in-path_of name)
    ∙ ap (run_found srv m req (new_response m) s) found

pub loopback : (srv : QuashServiceServer) → Connection srv
loopback srv = record {
  invoke = invoke_local srv;
  status = λ err. err;
  decode = decode_as;
  decoded = decode-filled;
  replies = λ name m req out s s' found ran.
      runs srv m req s name (method_handler m) found
      ∙ ap (landed m (new_response m) s) ran
      ∙ ap (λ (o : Option (Response m)). answer_with (new_response m) o s')
          (as_response-same m out);
  fails = λ name m req err s s' found ran.
      runs srv m req s name (method_handler m) found ∙ ap (landed m (new_response m) s) ran;
}

-- It is `invoke_local`, and passes errors on as they are.
pub loopback-invoke : (srv : QuashServiceServer) → (loopback srv).invoke ≡ invoke_local srv
unfolding loopback
loopback-invoke srv = refl

pub loopback-seen :
    {A : Type 0} (srv : QuashServiceServer) (r : Reply A) → seen (loopback srv).status r ≡ r
unfolding loopback
loopback-seen srv (ok out) = refl
loopback-seen srv (error err) = refl
