-- ===== src/Client.antt =====
-- client/client.go: a call takes the package's mutex, dials, calls the stub, and closes the
-- connection and unlocks on its way out. What grpc does to the world outside of the client, `W`,
-- is an argument.
pub mod Streams
pub mod Locking
pub mod Serving
pub mod EndToEnd
pub mod RoundTrip
pub mod NoRoom
mod Tests
use quash.Handler.{Reply, error}
use quash.Prelude.{Bool, Option, String, false, if◌then◌else◌, none, some, true}
use quash.Rpc.{
  Invoke, Method, Request, Response, add_subscriber_rpc, create_topic_rpc, delete_kv_rpc,
  get_kv_rpc, remove_subscriber_rpc, remove_topic_rpc, set_kv_rpc, stub,
}

-- grpc as the client uses it: `Dial` with its error, `Close` of a connection and of a nil
-- connection, which may panic, and `Invoke`.
pub record Grpc (W : Type 0) : Type 0 where
  pub dial : W → Option String × W
  pub close : W → W
  pub close_nil : W → Option W
  pub invoke : Invoke W

-- The mutex `lock`, and the rest of the world.
pub record World (W : Type 0) : Type 0 where
  pub locked : Bool
  pub outside : W

-- A call comes back, panics, waits within the call for a stream or a channel, or waits for the
-- mutex, which another call holds.
pub data Ran (W A : Type 0) : Type 0 where
  came_back : A → World W → Ran W A
  panicked_at : World W → Ran W A
  waits : A → World W → Ran W A
  shut_out : World W → Ran W A

abbrev pub unlocked : {W : Type 0} → W → World W
unlocked w = record { locked = false; outside = w }

abbrev pub held : {W : Type 0} → W → World W
held w = record { locked = true; outside = w }

-- The deferred function after `return r`, where the world is `w`: `Close`, which gives a world or
-- panics, and then the `Unlock`.
unfoldable pub close_and_unlock : {W A : Type 0} → A → W → Option W → Ran W A
close_and_unlock r w none = panicked_at (held w)
close_and_unlock r w (some w') = came_back r (unlocked w')

-- What a unary call does after `Dial`. The deferred function is set up before the test of `err`,
-- so that an error closes the nil connection.
unfoldable pub after_dial :
    {W B : Type 0} → Grpc W → (W → Reply B × W) → Option String × W → Ran W (Reply B)
unfolding close_and_unlock
after_dial g use_client (some err, w) = close_and_unlock (error err) w (g.close_nil w)
after_dial g use_client (none, w) =
    let answer = use_client w in close_and_unlock answer.0 answer.1 (some (g.close answer.1))

unfoldable pub unary_call : {W B : Type 0} → Grpc W → (W → Reply B × W) → World W → Ran W (Reply B)
unfolding after_dial
unary_call g use_client s =
    if s.locked then shut_out s else after_dial g use_client (g.dial s.outside)

-- `SetKV`, `GetKV`, `DeleteKV`, `CreateTopic`, `DeleteTopic`, which calls the stub `RemoveTopic`,
-- `AddSubscriber` and `RemoveSubscriber`.
unfoldable pub client_call :
    {W : Type 0} → Grpc W → (m : Method) → Request m → World W → Ran W (Reply (Response m))
unfolding unary_call
client_call g set_kv_rpc req = unary_call g (stub g.invoke set_kv_rpc req)
client_call g get_kv_rpc req = unary_call g (stub g.invoke get_kv_rpc req)
client_call g delete_kv_rpc req = unary_call g (stub g.invoke delete_kv_rpc req)
client_call g create_topic_rpc req = unary_call g (stub g.invoke create_topic_rpc req)
client_call g remove_topic_rpc req = unary_call g (stub g.invoke remove_topic_rpc req)
client_call g add_subscriber_rpc req = unary_call g (stub g.invoke add_subscriber_rpc req)
client_call g remove_subscriber_rpc req = unary_call g (stub g.invoke remove_subscriber_rpc req)
