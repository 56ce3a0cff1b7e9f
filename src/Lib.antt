-- ===== src/Lib.antt =====
-- ljfxznode: a proxy node that takes its users and limits from a panel, serves them through an Xray
-- core, and limits the devices and the speed of each user.
--
-- The parts and how they interact. The controller of a node (node/) polls the panel (api/panel/)
-- for the node, the user list and the numbers of devices, and is pushed user deltas and the global
-- device table over a WebSocket. It writes the users to the core (core/) and to the limiter
-- (limiter/). The dispatcher (core/xray/app/dispatcher/) asks the limiter for every connection,
-- which counts it, refuses it, or refuses it and kicks another device; a kick comes back to the
-- dispatcher, which closes the device's connections. Periodic tasks (common/task/) run the poll and
-- the reports of traffic and devices.
--
-- Files and code:
--   Common     Go maps as association lists, signed integers, decimal numbers, sorting, tests, text
--              prefixes.
--   Json5      common/json5/json5.go: prep, which blanks comments and trailing commas.
--   Panel      The records of api/panel/user.go and node.go, conf/limit.go, common/format/user.go.
--              Json and Socket are api/panel/ws.go: decoding of the messages, the channels of
--              messages to be written with the steps of Run, connect and the two reports, the waits
--              between connections. Config is GetNodeInfo of api/panel/node.go with intervalToTime,
--              and checkResponse of api/panel/utils.go. UserList is GetUserList of
--              api/panel/user.go, Requests the body that ReportUserTraffic sends.
--   Limiter    limiter/limiter.go and limiter/rule.go. State is the `Limiter`; Gate is
--              checkDeviceGate and pickVictim; Cooldown is inCooldown and the purge; Conn is
--              TryOpenConn, ConnOpened, ConnClosed and kickDevice; Users is AddLimiter and
--              UpdateUser; Devices is UpdateGlobalDevices, GetOnlineDevice and LocalDeviceSnapshot;
--              Limit is CheckLimit and determineSpeedLimit; Rules is rule.go; History runs any
--              sequence of operations, Throttle and Cooling look at the kicks in it, and Bound
--              those in which the table of users stays. Refs and Valid hold the invariants.
--   Node       Users is compareUserList; Controller is the `Controller`; Monitor is nodeInfoMonitor
--              of node/task.go, and its Polling several rounds of it with GetUserList; Start is
--              Start and Close; Deltas is removeUsersByIDs and addUsersByWS; Report is
--              reportUserTrafficTask and reportDevicesTask with devicesHash; Socket is the
--              callbacks that startWS gives to the WebSocket client.
--   Core       core/interface.go as a record. Xray is core/xray/user.go with the user part of
--              core/xray/node.go and common/counter/traffic.go; Accounts is vmess.go, trojan.go and
--              ss.go of core/xray; Links is core/xray/app/dispatcher/linkmanager.go; Selector is
--              core/selector.go and NewCore of core/core.go. Dispatcher is
--              core/xray/app/dispatcher/default.go: getLink, DispatchLink and KickByUserIP; its
--              Routing is routedDispatch, Sniffing is shouldOverride and what follows the sniffer,
--              Sniffers is sniffer.go, CachedReader and Content are the reading ahead and the loop
--              of sniffer, Wrapping is common/rate/ and countreader.go, Sessions runs arriving,
--              routed and ending connections and kicks in any order.
--   Task       common/task/task.go, with its goroutines interleaved one step at a time.
--
-- How state and operations are modelled. A component's state is a record, and an operation is a
-- function from state to state. What a mutex guards is one step, and so is each operation of the
-- limiter; Task, the panel's client and the reading of traffic counters take smaller steps, since
-- there the code does not hold one lock throughout. A channel of the client is a number, so that a
-- report that read `writeCh` keeps the channel of a connection that is over. In Sessions a
-- connection takes three steps, its arrival (getLink), its routing, and its end, with other
-- connections' steps between them. A Go map is an association list; where the order of a walk
-- matters it is an argument (`choice` of the gate) or the order of the list. An error is `false` or
-- `none`. Logging is left out. A clock reading is an argument in nanoseconds, one for each call
-- that reads the clock. A user id is the bit pattern of Go's `int`; limits and times are `int64`s
-- with the wrap-around written out where the code multiplies; counts of connections, entries and
-- bytes are natural numbers, which do not reach 2 ^ 63 in a run.
--
-- Code that is not in the repository is a parameter: token buckets and regular expressions
-- (`Externals`), Xray's inbounds and user managers (`Proxy`), its router, handlers and fake DNS
-- (`Routes`, `Resolver`), sha256 (`digest`). Bodies of answers and messages are JSON trees
-- (`Json`): the text's parser is the standard library's, which also matches names of fields without
-- regard to case, where the model compares them as they are written. The answers of the panel, of
-- the certificate request and of SendDeviceReport are arguments, and so are the answers of a
-- connection's reader to the cached reader, the sniffer's result in a session and `strings.ToLower`
-- (`lower`), which is applied to names of ciphers and core types only. Xray's SizeStatWriter adds
-- what it writes to its counter.
--
-- Fuel: the decimal digits of a number use fuel one more than the number, which has no more digits
-- than that; the cleaning of JSON uses fuel one more than the length of the text, which each of its
-- steps shortens; the loop of sniffer runs over a list of rounds, of which it needs two. All other
-- loops recur on a list or on the number of the 256 shards.
--
-- Not modelled: the HTTP requests of api/panel/ and the network fields of a node, the sniffers of
-- single protocols, the building of inbounds, outbounds and DNS, certificates, the node's load
-- status, the configuration and its watcher, and the command line.
pub mod Common
pub mod Json5
pub mod Panel
pub mod Core
pub mod Task
pub mod Limiter
pub mod Node
