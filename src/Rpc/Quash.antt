-- ===== src/Rpc/Quash.antt =====
-- The server that server/server.go registers, `quashserver.Server`, by its methods.
use quash.Kv.{set_kv, get_kv, delete_kv}
use quash.Broker.{create_topic, remove_topic, add_subscriber, remove_subscriber}
use quash.Clock.{Time}
use quash.Rpc.{QuashServiceServer}
use quash.Prelude.{List, ℕ}
use quash.Utils.{subscription_id}

-- At the instant `now`, with the random bytes `bytes` for a subscription identifier.
unfoldable pub quash_server : Time → List ℕ → QuashServiceServer
quash_server now bytes = record {
  set_kv = set_kv now;
  get_kv = get_kv now;
  delete_kv = delete_kv;
  create_topic = create_topic;
  remove_topic = remove_topic;
  add_subscriber = add_subscriber (subscription_id bytes);
  remove_subscriber = remove_subscriber;
}
