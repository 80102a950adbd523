-- ===== src/Client/Streams.antt =====
-- `Publish` and `Consume` of client/client.go. A stream is given by what it answers: whether each
-- `Send` fails, and what each `Recv` returns; the channel `req` by the values that it brings, and
-- `resp` by how many it takes. That `Consume` closes `resp` when it comes back is left out.
use quash.Structs.{Topic}
use quash.Handler.{Reply, error, ok}
use quash.Client.{Grpc, Ran, World, came_back, held, shut_out, unlocked, waits}
use quash.Prelude.{suc, zero, ℕ, List, Option, String, [], if◌then◌else◌, none, some, ◌∷◌}
use quash.Stream.{Ending, Received, broken, eof, failed, finished, message, waiting}
use quash.Messages.{ConsumeRequest, ConsumeResponse, PublishRequest, PublishResponse}

-- One round of the loop over `req`: the value, the error of `Send`, and what `Recv` returns.
pub record Exchange : Type 0 where
  pub value : String
  pub send_error : Option String
  pub received : Received PublishResponse

-- The client's side of a stream, before and after `CloseSend`.
pub data SendSide : Type 0 where
  unclosed : SendSide
  half_closed : SendSide

-- What comes after the values: the error of `CloseSend`, and what each `Recv` returns then, by
-- whether `CloseSend` has been called on the stream. `none` where the channel `req` is not closed.
abbrev pub Closing : Type 0
Closing = Option (Option String × (SendSide → List (Received PublishResponse)))

-- The requests that were sent, the values put into `resp`, and the ending.
pub record Spoken (A : Type 0) : Type 0 where
  pub requests : List A
  pub responses : List String
  pub ending : Ending

abbrev pub only : {A : Type 0} → List A → Ending → Spoken A
only requests e = record { requests = requests; responses = []; ending = e }

-- The channel `resp`, which nobody closes during the call: `none` if it is nil, and else how many
-- more values it takes, by its buffer and by what the other goroutines receive from it.
abbrev pub Room : Type 0
Room = Option ℕ

-- The room that is left after a send on the channel.
abbrev pub room_left : Room → Room
room_left none = none
room_left (some zero) = some zero
room_left (some (suc n)) = some n

-- `resp <- x` unless `resp` is nil, and then the rest of the loop. Without room the call waits there.
unfoldable pub put_in : {A : Type 0} → Room → String → Spoken A → Spoken A
put_in none x more = more
put_in (some zero) x more = only [] waiting
put_in (some (suc n)) x more = record more { responses = x ∷ more.responses }

-- The loop after `CloseSend`, which leaves what it receives alone.
unfoldable pub await_eof : List (Received PublishResponse) → Ending
await_eof [] = waiting
await_eof (eof ∷ rs) = finished
await_eof (failed err ∷ rs) = broken err
await_eof (message m ∷ rs) = await_eof rs

unfoldable pub close_send : Closing → Ending
unfolding await_eof
close_send none = waiting
close_send (some (some err, rs)) = broken err
close_send (some (none, rs)) = await_eof (rs half_closed)

abbrev pub request_of : Topic → String → PublishRequest
request_of topic v = record { topic_name = topic; value = v }

-- A round after its `Send`. Here the end of the stream is an error, `io.EOF`.
unfoldable pub after_recv :
    Room → PublishRequest → Received PublishResponse → Spoken PublishRequest → Spoken PublishRequest
unfolding put_in
after_recv resp req eof more = only (req ∷ []) (broken "EOF")
after_recv resp req (failed err) more = only (req ∷ []) (broken err)
after_recv resp req (message m) more =
    let rest = put_in resp m.response more in record rest { requests = req ∷ rest.requests }

unfoldable pub publish_loop : Room → Topic → List Exchange → Closing → Spoken PublishRequest
unfolding close_send after_recv
publish_loop resp topic [] closing = only [] (close_send closing)
publish_loop resp topic (x ∷ xs) closing =
    let more = publish_loop (room_left resp) topic xs closing in
    elim x.send_error [
      | some err ↦ only [] (broken err)
      | none ↦ after_recv resp (request_of topic x.value) x.received more
    ]

-- The loop of `Consume`.
unfoldable pub consume_loop : Room → List (Received ConsumeResponse) → Spoken ConsumeRequest
unfolding put_in
consume_loop resp [] = only [] waiting
consume_loop resp (eof ∷ rs) = only [] finished
consume_loop resp (failed err ∷ rs) = only [] (broken err)
consume_loop resp (message m ∷ rs) =
    let more = consume_loop (room_left resp) rs in put_in resp m.response more

-- The one request of `Consume`, `CloseSend` and the loop. The server's `Consume` reads one request
-- and returns by itself, so that what is received does not depend on `CloseSend`.
unfoldable pub consume_stream :
    Room
    → ConsumeRequest
    → Option String
    → Option String
    → List (Received ConsumeResponse)
    → Spoken ConsumeRequest
unfolding consume_loop
consume_stream resp req (some err) close_error rs = only [] (broken err)
consume_stream resp req none (some err) rs = only (req ∷ []) (broken err)
consume_stream resp req none none rs =
    let got = consume_loop resp rs in record got { requests = req ∷ got.requests }

-- The deferred function runs unless the call waits.
unfoldable pub finish : {W A : Type 0} → Grpc W → Spoken A → W → Ran W (Spoken A)
finish g r w = elim r.ending [
  | finished ↦ came_back r (unlocked (g.close w))
  | broken err ↦ came_back r (unlocked (g.close w))
  | waiting ↦ waits r (held w)
]

abbrev pub said_of : {A : Type 0} → Reply (Spoken A) → Spoken A
said_of (ok said) = said
said_of (error err) = only [] (broken err)

-- After `Dial`: its error unlocks and returns; the stub's error and the loop, which ends with what
-- it has said, come before the deferred function.
unfoldable pub stream_dialled :
    {W A : Type 0} → Grpc W → (W → Reply (Spoken A) × W) → Option String × W → Ran W (Spoken A)
unfolding finish
stream_dialled g talk (some err, w) = came_back (only [] (broken err)) (unlocked w)
stream_dialled g talk (none, w) = let o = talk w in finish g (said_of o.0) o.1

-- The frame of `Publish` and `Consume`. `talk` opens the stream and runs the loop on it.
unfoldable pub streaming_call :
    {W A : Type 0} → Grpc W → (W → Reply (Spoken A) × W) → World W → Ran W (Spoken A)
unfolding stream_dialled
streaming_call g talk s = if s.locked then shut_out s else stream_dialled g talk (g.dial s.outside)

-- `client.Publish` or `client.Consume` of the stub: its error, or the stream by its answers, and
-- the world that the stream leaves behind.
abbrev pub Opens : Type 0 → Type 0 → Type 0
Opens W Answers = W → Reply Answers × W

abbrev pub on_stream : {Answers A : Type 0} → (Answers → A) → Reply Answers → Reply A
on_stream f (ok answers) = ok (f answers)
on_stream f (error err) = error err

abbrev pub talk_on : {W Answers A : Type 0} → Opens W Answers → (Answers → A) → Opens W A
talk_on opens f w = let o = opens w in (on_stream f o.0, o.1)

abbrev pub PublishAnswers : Type 0
PublishAnswers = List Exchange × Closing

-- The errors of `Send` and of `CloseSend`, and what each `Recv` returns.
abbrev pub ConsumeAnswers : Type 0
ConsumeAnswers = Option String × (Option String × List (Received ConsumeResponse))

abbrev pub publish_talk :
    {W : Type 0} → Opens W PublishAnswers → Topic → Room → Opens W (Spoken PublishRequest)
publish_talk opens topic resp = talk_on opens (λ a. publish_loop resp topic a.0 a.1)

abbrev pub consume_talk :
    {W : Type 0} → Opens W ConsumeAnswers → ConsumeRequest → Room → Opens W (Spoken ConsumeRequest)
consume_talk opens req resp = talk_on opens (λ a. consume_stream resp req a.0 a.1.0 a.1.1)

unfoldable pub client_publish :
    {W : Type 0}
    → Grpc W
    → Opens W PublishAnswers
    → Topic
    → Room
    → World W
    → Ran W (Spoken PublishRequest)
unfolding streaming_call publish_loop
client_publish g opens topic resp = streaming_call g (publish_talk opens topic resp)

unfoldable pub client_consume :
    {W : Type 0}
    → Grpc W
    → Opens W ConsumeAnswers
    → ConsumeRequest
    → Room
    → World W
    → Ran W (Spoken ConsumeRequest)
unfolding streaming_call consume_stream
client_consume g opens req resp = streaming_call g (consume_talk opens req resp)
