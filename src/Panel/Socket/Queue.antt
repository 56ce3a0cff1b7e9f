-- ===== src/Panel/Socket/Queue.antt =====
-- The connection of api/panel/ws.go: the channels of messages to be written, `SendDeviceReport` and
-- `SendKickReport`, and the goroutines of `Run` and `connect`, one step at a time.
use ljfxznode.Common.{
  ℕ, zero, suc, ◌+◌, Bool, true, false, Option, none, some, List, [], ◌∷◌, ◌++◌, String, ltb,
  length, from_bits, text_key, nat_key, ◌==◌, if◌then◌else◌,
}
use ljfxznode.Panel.Json.{int, text, object, done, field}
use ljfxznode.Panel.Socket.{Devices, Callback, Message, handle_message}
use ljfxznode.Panel.Socket.Devices.{marshal_devices}

-- `make(chan wsMessage, 16)`
abbrev pub queue_size : ℕ
queue_size = 16

-- Where `Run` is: between two calls of `connect`, after `connected.Store(true)`, after
-- `w.writeCh = writeCh`, in the writer's loop, on the way out of it, and after `connect` returned.
pub data Phase : Type 0 where
  away : Phase
  welcomed : Phase
  opened : ℕ → Phase
  serving : ℕ → Phase
  closing : Phase
  ended : Phase

-- A call of a report: after `connected.Load()`, and after it read `writeCh`.
pub data Sender : Type 0 where
  checked : Message → Sender
  loaded : Message → Option ℕ → Sender

-- What was seen of the channels: an offer with its answer, a report answered without a channel, and a
-- message taken out, with whether `WriteJSON` wrote it.
pub data Event : Type 0 where
  offered : ℕ → Message → Bool → Event
  refused : Message → Event
  took : ℕ → Message → Bool → Event

-- `write_ch` is the field `writeCh`; the channels made so far are those below `made`, and those whose
-- reader was started are the ones below `started`. The events, the callbacks and the calls of
-- `onStatus` are kept newest first.
pub record WsClient : Type 0 where
  pub connected : Bool
  pub write_ch : Option ℕ
  pub phase : Phase
  pub made : ℕ
  pub started : ℕ
  pub chans : ℕ → List Message
  pub senders : List Sender
  pub events : List Event
  pub callbacks : List Callback
  pub statuses : List Bool

abbrev pub new_ws_client : WsClient
new_ws_client = record {
  connected = false;
  write_ch = none;
  phase = away;
  made = 0;
  started = 0;
  chans = λ ch. [];
  senders = [];
  events = [];
  callbacks = [];
  statuses = [];
}

abbrev pub put : ℕ → List Message → (ℕ → List Message) → ℕ → List Message
put ch q chans k = if ch == k then q else chans k

abbrev pub happened : Event → WsClient → WsClient
happened e c = record c { events = e ∷ c.events }

-- `select { case ch <- msg: ... default: ... }`
unfoldable pub offer : ℕ → Message → WsClient → WsClient
offer ch msg c =
    if ltb (length (c.chans ch)) queue_size
    then record c {
      chans = put ch (c.chans ch ++ msg ∷ []) c.chans;
      events = offered ch msg true ∷ c.events;
    }
    else happened (offered ch msg false) c

-- The start of a report.
unfoldable pub send : Message → WsClient → WsClient
send msg c =
    if c.connected then record c { senders = checked msg ∷ c.senders } else happened (refused msg) c

unfoldable pub send_device_report : ℕ → Devices → WsClient → WsClient
unfolding send marshal_devices
send_device_report now devices c =
    send
      (record {
        event = "report.devices";
        payload = some (object (marshal_devices devices));
        timestamp = now;
      })
      c

unfoldable pub send_kick_report : ℕ → ℕ → String → String → WsClient → WsClient
unfolding send
send_kick_report now uid email ip c =
    send
      (record {
        event = "report.kick";
        payload = some (
            object (
              field "user_id" (int (from_bits uid))
                (field "email" (text email) (field "ip" (text ip) done))));
        timestamp = now;
      })
      c

-- The next action of a report that is under way: it reads `writeCh`, or it ends with its answer.
unfoldable pub go_on : Sender → WsClient → WsClient
unfolding offer
go_on (checked msg) c = record c { senders = loaded msg c.write_ch ∷ c.senders }
go_on (loaded msg none) c = happened (refused msg) c
go_on (loaded msg (some ch)) c = offer ch msg c

-- The report at a place among those under way is the one to act; `before` holds those passed by.
unfoldable pub resume : ℕ → List Sender → List Sender → WsClient → WsClient
unfolding go_on
resume i before [] c = c
resume zero before (s ∷ rest) c = go_on s (record c { senders = before ++ rest })
resume (suc i) before (s ∷ rest) c = resume i (s ∷ before) rest c

abbrev pub bare : String → Message
bare event = record { event = event; payload = none; timestamp = 0 }

abbrev pub called : Option Callback → WsClient → WsClient
called none c = c
called (some callback) c = record c { callbacks = callback ∷ c.callbacks }

-- `connected.Store(true)` and `notifyStatus(true)`
abbrev pub welcome : WsClient → WsClient
welcome c = record c { phase = welcomed; connected = true; statuses = true ∷ c.statuses }

-- The first frame: an error ends the connection, and any other that is no greeting is a message.
unfoldable pub greet : Message → WsClient → WsClient
unfolding handle_message
greet first c =
    if first.event == "error"
    then record c { phase = ended }
    else (if first.event == "auth.success"
        then welcome c
        else called (handle_message first) (welcome c))

-- `writeCh := make(chan wsMessage, 16)` and `w.writeCh = writeCh`
unfoldable pub open_channel : WsClient → WsClient
open_channel c = record c { phase = opened c.made; write_ch = some c.made; made = c.made + 1 }

-- The request for the devices of all nodes, and the start of the reader.
unfoldable pub request_devices : ℕ → WsClient → WsClient
unfolding offer
request_devices ch c =
    offer ch (bare "request.devices") (record c { phase = serving ch; started = ch + 1 })

-- The reader's goroutine, which may outlive `connect`: a message is handled, and a ping is answered if
-- there is room.
unfoldable pub receive : ℕ → Message → WsClient → WsClient
unfolding handle_message offer
receive ch msg c =
    let c' = called (handle_message msg) c in
    if msg.event == "ping" then offer ch (bare "pong") c' else c'

-- `case msg := <-writeCh`: a message that is not written is lost, and the connection ends.
unfoldable pub write_next : Bool → ℕ → List Message → WsClient → WsClient
write_next written ch [] c = c
write_next true ch (msg ∷ rest) c = record c {
  chans = put ch rest c.chans;
  events = took ch msg true ∷ c.events;
}
write_next false ch (msg ∷ rest) c = record c {
  phase = closing;
  chans = put ch rest c.chans;
  events = took ch msg false ∷ c.events;
}

pub data Step : Type 0 where
  fails_to_dial : Step
  greeted : Message → Step
  opens : Step
  requests : Step
  received : ℕ → Message → Step
  writes : Bool → Step
  hangs_up : Step
  clears : Step
  notes_end : Step
  reports_devices : ℕ → Devices → Step
  reports_kick : ℕ → ℕ → String → String → Step
  resumes : ℕ → Step

-- What `Run` and `connect` do where they are; another step of theirs is none.
unfoldable pub connect_step : Step → Phase → WsClient → WsClient
unfolding greet open_channel request_devices write_next
connect_step fails_to_dial away c = record c { phase = ended }
connect_step (greeted first) away c = greet first c
connect_step opens welcomed c = open_channel c
connect_step requests (opened ch) c = request_devices ch c
connect_step (writes written) (serving ch) c = write_next written ch (c.chans ch) c
connect_step hangs_up (serving ch) c = record c { phase = closing }
connect_step clears closing c = record c { phase = ended; write_ch = none }
connect_step notes_end ended c = record c {
  phase = away;
  connected = false;
  statuses = false ∷ c.statuses;
}
connect_step s p c = c

unfoldable pub step : Step → WsClient → WsClient
unfolding connect_step receive send_device_report send_kick_report resume
step (received ch msg) c = if ltb ch c.started then receive ch msg c else c
step (reports_devices now devices) c = send_device_report now devices c
step (reports_kick now uid email ip) c = send_kick_report now uid email ip c
step (resumes i) c = resume i [] c.senders c
step s c = connect_step s c.phase c

unfoldable pub run : List Step → WsClient → WsClient
unfolding step
run [] c = c
run (s ∷ rest) c = run rest (step s c)
