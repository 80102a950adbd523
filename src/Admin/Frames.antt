-- ===== src/Admin/Frames.antt =====
-- What the dashboard is sent.
use quash.Telemetry.Exact.{kv_unlocked}
use quash.GoMap
use quash.GoMap.{GoMap}
use quash.Structs.{SrvData}
use quash.Admin.{sent_before, websocket_handler, Turn, push_loop, written}
use quash.Telemetry.{Gauges, count_topics, measured, snapshot, srv_data}
use quash.Stream.{Served, Ending, broken, waiting}
use quash.Prelude.{refl, ◌∙◌, List, Option, String, [], ap, false, none, some, ◌∷◌, ◌≡◌}
use quash.Handler.{pure, Outcome, State, continue, returned}

-- A snapshot can be taken from `s`, where the others lead to `s'` between its critical sections:
-- each mutex is free when it is wanted, and the gauges can be read.
pub record Ready {Float64 : Type 0} (g : Gauges Float64) (s s' : State) : Type 0 where
  pub kv_free : s.kv_locked ≡ false
  pub brokers_free : s'.brokers_locked ≡ false
  pub ram : Float64
  pub has_ram : g.used_percent ≡ some ram
  pub cpu : Float64
  pub more : List Float64
  pub has_cpu : g.percents ≡ cpu ∷ more

-- The state that a turn leaves.
abbrev pub after_turn : {Float64 : Type 0} → Turn Float64 → State → State
after_turn t s = t.between (t.others s)

-- It can be taken in every turn, of the state that the turn finds.
abbrev pub AllReady : {Float64 : Type 0} → List (Turn Float64) → State → Type 0
AllReady [] s = Unit {0}
AllReady (t ∷ ts) s = Ready t.gauges (t.others s) (after_turn t s) × AllReady ts (after_turn t s)

-- The state and the ending after the turns, of which the first that cannot write is the last.
abbrev state_if : Option String → State → State → State
state_if (some err) s more = s
state_if none s more = more

abbrev pub state_after : {Float64 : Type 0} → List (Turn Float64) → State → State
state_after [] s = s
state_after (t ∷ ts) s = state_if t.write_error (after_turn t s) (state_after ts (after_turn t s))

abbrev ending_if : Option String → Ending → Ending
ending_if (some err) more = broken err
ending_if none more = more

abbrev pub ending_after : {Float64 : Type 0} → List (Turn Float64) → Ending
ending_after [] = waiting
ending_after (t ∷ ts) = ending_if t.write_error (ending_after ts)

module _ {Float64 : Type 0} (zero_float : Float64) (marshal : SrvData Float64 → String) where
  -- The frame of a turn is the JSON of a snapshot of the state that the turn finds, and the rest
  -- follows.
  pub record IsFrame (t : Turn Float64) (s : State) (frames rest : List String) : Type 0 where
    pub shown : SrvData Float64
    pub taken :
        snapshot zero_float t.between t.order t.orders t.gauges s ≡ returned shown (t.between s)
    pub first : frames ≡ marshal shown ∷ rest

  abbrev pub FramesIf : Option String → (List String → Type 0) → List String → Type 0
  FramesIf (some err) More frames = frames ≡ []
  FramesIf none More frames = More frames

  abbrev pub AreFrames : List (Turn Float64) → State → List String → Type 0
  AreFrames [] s frames = frames ≡ []
  AreFrames (t ∷ ts) s frames =
      FramesIf t.write_error
        (λ fs.
          (rest : List String) × IsFrame t (t.others s) fs rest
          × AreFrames ts (after_turn t s) rest)
        frames

  taken_now :
      (t : Turn Float64) (s : State)
      → Ready t.gauges s (t.between s)
      → (d : SrvData Float64) × (snapshot zero_float t.between t.order t.orders t.gauges s
          ≡ returned d (t.between s))
  unfolding snapshot srv_data
  taken_now t s r = (
    measured zero_float r.ram r.cpu t.gauges (GoMap.len s.kv_map)
        (count_topics t.order t.orders (t.between s).brokers []),
    rw (r.kv_free, kv_unlocked s r.kv_free, r.brokers_free, r.has_ram, r.has_cpu),
  )

  -- A turn that takes its snapshot goes on to write it.
  turned :
      (t : Turn Float64) (ts : List (Turn Float64)) (s : State) (d : SrvData Float64)
      → snapshot zero_float t.between t.order t.orders t.gauges (t.others s)
        ≡ returned d (after_turn t s)
      → push_loop zero_float marshal (t ∷ ts) s
        ≡ written zero_float marshal
            (marshal d)
            t.write_error
            (push_loop zero_float marshal ts)
            (after_turn t s)
  unfolding push_loop
  turned t ts s d taken =
      ap
        (λ (o : Outcome (SrvData Float64)). continue o (λ shown.
          written zero_float marshal (marshal shown) t.write_error
            (push_loop zero_float marshal ts)))
        taken

  abbrev frames_if : Option String → List String → List String
  frames_if (some err) frames = []
  frames_if none frames = frames

  written_lem :
      (e : Option String) (frame : String) (ts : List (Turn Float64)) (s s' : State)
      (frames : List String) (ends : Ending)
      → push_loop zero_float marshal ts s ≡ returned (record { sent = frames; ending = ends }) s'
      → written zero_float marshal frame e (push_loop zero_float marshal ts) s
        ≡ returned
            (record { sent = frames_if e (frame ∷ frames); ending = ending_if e ends })
            (state_if e s s')
  written_lem (some err) frame ts s s' frames ends ran = refl
  written_lem none frame ts s s' frames ends ran =
      ap
        (λ (o : Outcome (Served String)).
          continue o (λ r. pure (sent_before zero_float marshal frame r)))
        ran

  frames_if-FramesIf :
      (e : Option String) (More : List String → Type 0) (frames : List String)
      → More frames
      → FramesIf e More (frames_if e frames)
  frames_if-FramesIf (some err) More frames h = refl
  frames_if-FramesIf none More frames h = h

  pushes_all :
      (ts : List (Turn Float64)) (s : State)
      → AllReady ts s
      → (frames : List String) × (push_loop zero_float marshal ts s
          ≡ returned (record { sent = frames; ending = ending_after ts }) (state_after ts s))
        × AreFrames ts s frames
  unfolding push_loop
  pushes_all [] s h = ([], refl, refl)
  pushes_all (t ∷ ts) s h =
      let (d, taken) = taken_now t (t.others s) h.0 in
      let (rest, ran, are) = pushes_all ts (after_turn t s) h.1 in
      (
        frames_if t.write_error (marshal d ∷ rest),
        turned t ts s d taken
            ∙ written_lem t.write_error (marshal d) ts (after_turn t s)
                (state_after ts (after_turn t s)) rest (ending_after ts) ran,
        frames_if-FramesIf t.write_error _ (marshal d ∷ rest)
            (rest, record { shown = d; taken = taken; first = refl }, are),
      )

  -- A dashboard whose `Upgrade` succeeds is sent, in each turn up to the first in which it cannot
  -- be written to, the JSON of a snapshot of the state that the turn finds; a failed write ends the
  -- handler, and the server is left as the other goroutines leave it, before a turn and between the
  -- two critical sections of its snapshot. In every turn each mutex is free when it is wanted, and
  -- the gauges can be read.
  pub websocket_handler_lem :
      (ts : List (Turn Float64)) (s : State)
      → AllReady ts s
      → (frames : List String) × (websocket_handler zero_float marshal none ts s
          ≡ returned (record { sent = frames; ending = ending_after ts }) (state_after ts s))
        × AreFrames ts s frames
  unfolding websocket_handler
  websocket_handler_lem ts s h = pushes_all ts s h
