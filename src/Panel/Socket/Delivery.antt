-- ===== src/Panel/Socket/Delivery.antt =====
-- What becomes of the messages that the channels of api/panel/ws.go take, over any run.
use ljfxznode.Common.{
  ℕ, zero, suc, ◌+◌, ◌≤◌, ◌≡◌, ◌∙◌, refl, ap, inl, inr, Bool, true, false, Option, none, some, List,
  [], ◌∷◌, ◌++◌, ltb, length, arith, Bool-cases, if◌then◌else◌, text_key, ◌==◌, some_injective,
}
use ljfxznode.Panel.Socket.{Callback, Message, handle_message}
use ljfxznode.Panel.Socket.Queue.{
  Phase, away, welcomed, opened, serving, closing, ended, Sender, checked, loaded, Event, offered,
  refused, WsClient, new_ws_client, queue_size, happened, offer, send, send_device_report,
  send_kick_report, go_on, resume, bare, called, welcome, greet, open_channel, request_devices,
  receive, write_next, Step, fails_to_dial, greeted, opens, requests, received, writes, hangs_up,
  clears, notes_end, reports_devices, reports_kick, resumes, connect_step, step, run,
}
use ljfxznode.Panel.Socket.Channels.{
  accepted, taken, written, Answered, IsWritten, all_written, InOrder, AllOnTime, live_on,
  offered-InOrder, full-InOrder, took-InOrder, written-AllOnTime, lost-AllOnTime,
}

-- Each channel gave out the messages that it had accepted in their order and holds the others, at most
-- 16; a message was accepted exactly if fewer than 16 waited; and those given out were written, all but
-- the last if writing it failed.
pub record IsDelivered (c : WsClient) : Type 0 where
  pub in_order : (ch : ℕ) → accepted ch c.events ≡ taken ch c.events ++ c.chans ch
  pub bounded : (ch : ℕ) → length (c.chans ch) ≤ queue_size
  pub answered : Answered c.events
  pub writes_out : (ch : ℕ) → IsWritten (taken ch c.events) (written ch c.events)

abbrev IsOk : WsClient → Type 0
IsOk c = InOrder c.chans c.events × AllOnTime c.phase c.made c.events

if_IsOk : (b : Bool) (c c' : WsClient) → IsOk c → IsOk c' → IsOk (if b then c else c')
if_IsOk true c c' v v' = v
if_IsOk false c c' v v' = v'

-- An event that is no message taken out leaves what was written.
offered-AllOnTime :
    (ch : ℕ) (msg : Message) (b : Bool) (p : Phase) (made : ℕ) (es : List Event)
    → AllOnTime p made es
    → AllOnTime p made (offered ch msg b ∷ es)
unfolding taken written
offered-AllOnTime ch msg b p made es v = record {
  writes_out = v.writes_out;
  live = v.live;
  fresh = v.fresh;
}

refused-IsOk : (msg : Message) (c : WsClient) → IsOk c → IsOk (happened (refused msg) c)
unfolding accepted taken written Answered
refused-IsOk msg c (v, w) = (
  record { in_order = v.in_order; bounded = v.bounded; answered = v.answered },
  record { writes_out = w.writes_out; live = w.live; fresh = w.fresh },
)

offer-IsOk : (ch : ℕ) (msg : Message) (c : WsClient) → IsOk c → IsOk (offer ch msg c)
unfolding offer
offer-IsOk ch msg c (v, w) = elim (Bool-cases (ltb (length (c.chans ch)) queue_size)) [
  | inl room ↦
      rw room
        (offered-InOrder ch msg c.chans c.events room v, offered-AllOnTime ch msg true _ _ _ w)
  | inr full ↦
      rw full (full-InOrder ch msg c.chans c.events full v, offered-AllOnTime ch msg false _ _ _ w)
]

-- Where no connection writes, nothing is asked of one.
idle-AllOnTime :
    (p p' : Phase) (made : ℕ) (es : List Event)
    → live_on p' ≡ none
    → AllOnTime p made es
    → AllOnTime p' made es
idle-AllOnTime p p' made es idle w = record {
  writes_out = w.writes_out;
  live = λ ch e. absurd (cc);
  fresh = w.fresh;
}

send-IsOk : (msg : Message) (c : WsClient) → IsOk c → IsOk (send msg c)
unfolding send
send-IsOk msg c v = if_IsOk c.connected _ _ v (refused-IsOk msg c v)

go_on-IsOk : (s : Sender) (c : WsClient) → IsOk c → IsOk (go_on s c)
unfolding go_on
go_on-IsOk (checked msg) c v = v
go_on-IsOk (loaded msg none) c v = refused-IsOk msg c v
go_on-IsOk (loaded msg (some ch)) c v = offer-IsOk ch msg c v

resume-IsOk :
    (i : ℕ) (before senders : List Sender) (c : WsClient)
    → IsOk c
    → IsOk (resume i before senders c)
unfolding resume
resume-IsOk i before [] c v = v
resume-IsOk zero before (s ∷ rest) c v = go_on-IsOk s (record c { senders = before ++ rest }) v
resume-IsOk (suc i) before (s ∷ rest) c v = resume-IsOk i (s ∷ before) rest c v

called-IsOk : (o : Option Callback) (c : WsClient) → IsOk c → IsOk (called o c)
called-IsOk none c v = v
called-IsOk (some callback) c v = v

welcome-IsOk : (c : WsClient) → IsOk c → IsOk (welcome c)
unfolding live_on
welcome-IsOk c (v, w) = (v, idle-AllOnTime c.phase welcomed c.made c.events refl w)

greet-IsOk : (first : Message) (c : WsClient) → IsOk c → IsOk (greet first c)
unfolding greet live_on
greet-IsOk first c (v, w) =
    if_IsOk (first.event == "error") _ _ (v, idle-AllOnTime c.phase ended c.made c.events refl w)
      (if_IsOk (first.event == "auth.success") _ _ (welcome-IsOk c (v, w))
        (called-IsOk (handle_message first) (welcome c) (welcome-IsOk c (v, w))))

open_channel-IsOk : (c : WsClient) → IsOk c → IsOk (open_channel c)
unfolding open_channel live_on
open_channel-IsOk c (v, w) = (
  v,
  record {
    writes_out = w.writes_out;
    live = λ ch e.
        let same : c.made ≡ ch = some_injective e in (w.fresh ch (omega arith), omega arith);
    fresh = λ ch h. w.fresh ch (omega arith);
  },
)

request_devices-IsOk :
    (ch : ℕ) (c : WsClient) → c.phase ≡ opened ch → IsOk c → IsOk (request_devices ch c)
unfolding request_devices live_on
request_devices-IsOk ch c e (v, w) =
    offer-IsOk ch (bare "request.devices") (record c { phase = serving ch; started = ch + 1 })
      (
        v,
        record {
          writes_out = w.writes_out;
          live = λ k h. w.live k (ap live_on e ∙ h);
          fresh = w.fresh;
        },
      )

receive-IsOk : (ch : ℕ) (msg : Message) (c : WsClient) → IsOk c → IsOk (receive ch msg c)
unfolding receive
receive-IsOk ch msg c v =
    let c' = called (handle_message msg) c in
    let v' = called-IsOk (handle_message msg) c v in
    if_IsOk (msg.event == "ping") _ _ (offer-IsOk ch (bare "pong") c' v') v'

write_next-IsOk :
    (b : Bool) (ch : ℕ) (q : List Message) (c : WsClient)
    → c.phase ≡ serving ch
    → c.chans ch ≡ q
    → IsOk c
    → IsOk (write_next b ch q c)
unfolding write_next live_on
write_next-IsOk b ch [] c e e' v = v
write_next-IsOk true ch (msg ∷ rest) c e e' (v, w) = (
  took-InOrder ch msg rest true c.chans c.events e' v,
  written-AllOnTime ch msg c.phase c.made c.events (ap live_on e) w,
)
write_next-IsOk false ch (msg ∷ rest) c e e' (v, w) = (
  took-InOrder ch msg rest false c.chans c.events e' v,
  lost-AllOnTime ch msg c.phase c.made c.events (ap live_on e) w,
)

connect_step-IsOk :
    (s : Step) (p : Phase) (c : WsClient) → c.phase ≡ p → IsOk c → IsOk (connect_step s p c)
unfolding connect_step live_on
connect_step-IsOk fails_to_dial away c e (v, w) = (v, idle-AllOnTime c.phase _ _ _ refl w)
connect_step-IsOk (greeted first) away c e v = greet-IsOk first c v
connect_step-IsOk opens welcomed c e v = open_channel-IsOk c v
connect_step-IsOk requests (opened ch) c e v = request_devices-IsOk ch c e v
connect_step-IsOk (writes b) (serving ch) c e v = write_next-IsOk b ch (c.chans ch) c e refl v
connect_step-IsOk hangs_up (serving ch) c e (v, w) = (v, idle-AllOnTime c.phase _ _ _ refl w)
connect_step-IsOk clears closing c e (v, w) = (v, idle-AllOnTime c.phase _ _ _ refl w)
connect_step-IsOk notes_end ended c e (v, w) = (v, idle-AllOnTime c.phase _ _ _ refl w)
connect_step-IsOk s p c e v = v

step-IsOk : (s : Step) (c : WsClient) → IsOk c → IsOk (step s c)
unfolding step send_device_report send_kick_report
step-IsOk (received ch msg) c v = if_IsOk (ltb ch c.started) _ _ (receive-IsOk ch msg c v) v
step-IsOk (reports_devices now devices) c v = send-IsOk _ c v
step-IsOk (reports_kick now uid email ip) c v = send-IsOk _ c v
step-IsOk (resumes i) c v = resume-IsOk i [] c.senders c v
step-IsOk s c v = connect_step-IsOk s c.phase c refl v

run-IsOk : (steps : List Step) (c : WsClient) → IsOk c → IsOk (run steps c)
unfolding run
run-IsOk [] c v = v
run-IsOk (s ∷ rest) c v = run-IsOk rest (step s c) (step-IsOk s c v)

new_ws_client-IsOk : IsOk new_ws_client
unfolding accepted taken written Answered live_on
new_ws_client-IsOk = (
  record { in_order = λ ch. refl; bounded = λ ch. omega arith; answered = tt },
  record { writes_out = λ ch. all_written refl; live = λ ch e. absurd (cc); fresh = λ ch h. refl },
)

-- In every interleaving of the client's goroutines, connections that fail and reports that find a
-- channel of an older connection included, each channel's messages whose offer was answered with true
-- are those it gave out and those that wait, in order, at most 16; an offer is answered with true
-- exactly if fewer than 16 wait; and the messages given out were written, all but at most the last.
pub run-new_ws_client : (steps : List Step) → IsDelivered (run steps new_ws_client)
run-new_ws_client steps =
    let (v, w) = run-IsOk steps new_ws_client new_ws_client-IsOk in
    record {
      in_order = v.in_order;
      bounded = v.bounded;
      answered = v.answered;
      writes_out = w.writes_out;
    }
