-- ===== src/Rpc/StreamStubs.antt =====
-- The stubs of `Publish` and `Consume` in proto/quash_proto_grpc.pb.go, which open a stream.
use quash.Handler.{Reply}
use quash.Rpc.Routing.{path_of}
use quash.Prelude.{suc, zero, Bool, List, String, [], false, refl, true, ℕ, ◌∷◌, ◌≡◌}

pub record StreamDesc : Type 0 where
  pub stream_name : String
  pub server_streams : Bool
  pub client_streams : Bool

-- `QuashService_ServiceDesc.Streams`
abbrev pub streams : List StreamDesc
streams =
    record { stream_name = "Publish"; server_streams = true; client_streams = true }
    ∷ record { stream_name = "Consume"; server_streams = true; client_streams = true }
    ∷ []

abbrev pub publish_full_method_name : String
publish_full_method_name = "/quash_proto.QuashService/Publish"

abbrev pub consume_full_method_name : String
consume_full_method_name = "/quash_proto.QuashService/Consume"

-- `cc.NewStream(ctx, desc, method)`: an error, or a stream.
abbrev pub NewStream : Type 0 → Type 0 → Type 0
NewStream W S = StreamDesc → String → W → Reply S × W

abbrev none_such : StreamDesc
none_such = record { stream_name = ""; server_streams = false; client_streams = false }

-- An index, for the indices in range.
abbrev desc_at : List StreamDesc → ℕ → StreamDesc
desc_at [] i = none_such
desc_at (d ∷ ds) zero = d
desc_at (d ∷ ds) (suc i) = desc_at ds i

unfoldable pub publish_stub : {W S : Type 0} → NewStream W S → W → Reply S × W
publish_stub new_stream = new_stream (desc_at streams 0) publish_full_method_name

unfoldable pub consume_stub : {W S : Type 0} → NewStream W S → W → Reply S × W
consume_stub new_stream = new_stream (desc_at streams 1) consume_full_method_name

abbrev both_ways : String → StreamDesc
both_ways name = record { stream_name = name; server_streams = true; client_streams = true }

-- Each stub opens the stream of its name, in both directions, under the path of that name.
pub stream_stubs_routed :
    {W S : Type 0} (new_stream : NewStream W S)
    → (publish_stub new_stream ≡ new_stream (both_ways "Publish") (path_of "Publish"))
      × (consume_stub new_stream ≡ new_stream (both_ways "Consume") (path_of "Consume"))
unfolding publish_stub consume_stub
stream_stubs_routed new_stream = (refl, refl)
