-- ===== src/Lib.antt =====
-- openlan: an overlay network in Go. Points connect to a switch over TCP, TLS, UDP, KCP or a web
-- socket, log in with control frames, and send the Ethernet frames of their taps; the switch puts the
-- frames on the bridge of the network and hands out addresses to its points.
--
-- Which file models what, with paths from the root of the repository:
--   Base          the shared helpers: tests, lists, bytes, association lists, slices
--   Safe          pkg/libol/safe.go, the bounded maps under every cache: Safe.StrMap, Safe.StrStr,
--                 Safe.StrInt64 and Safe.Var, a module per type, a function per method
--   Protocol      pkg/libol/protocol.go, the headers: Decode is `decode`, NewXFromFrame `from_frame`,
--                 Encode `encode`, one module per header
--   Message       pkg/libol/message.go: Message.Proto is FrameProto, Message.Frame is FrameMessage and
--                 ControlMessage, Message.Stream is StreamMessagerImpl, Message.Packet is
--                 PacketMessagerImpl
--   Cache         pkg/olsw/cache: Cache.Lease is network.go, the leases of addresses; Cache.Points is
--                 point.go with pkg/models/point.go; Cache.Users is user.go with pkg/models/user.go
--   Access        pkg/olsw/app/access.go, login: a frame from a client goes through `on_frame`, which
--                 asks Cache.Users and puts the point in Cache.Points
--   Bridge        pkg/network/bridge_virtual.go, the learning bridge
--   Tap           pkg/network/tap_virtual.go, the virtual tap: two bounded queues
--   Neighbors     pkg/olap/neighbor.go, the table of a point's neighbours
--   Socket        pkg/libol/socket.go with tcpsocket.go: Socket.Client is a client, whose connection,
--                 status and listeners Connect, Close, Terminal and SetStatus change; Socket.Server is
--                 the table of the clients of a server, and the channels that its loop empties
--   Switch        pkg/olsw/switch.go, what a switch does with a frame and with the end of a client: the
--                 hooks, of which Access and the applications are some, then the tap of the point;
--                 Switch.Rules, with Switch.Rules.Nets, is the rules that Initialize gives to Firewall
--   App           pkg/olsw/app: App.Online is online.go with the cache of flows and pkg/models/line.go,
--                 App.NeighborTable is neighbors.go with its cache and pkg/models/neigbor.go,
--                 App.Request is request.go, on Cache.Lease
--   Point         pkg/olap, a point: Point.TapWorker is tap.go, on Neighbors; Point.SocketWorker, with
--                 Point.SocketWorker.Turns, is socket.go, on Socket.Client; Point.Worker is worker.go,
--                 which joins them, with Point.Routes for NetworkEqual of pkg/models/network.go
--   Firewall      pkg/network/firewall.go with iptables.go: the rules and chains that the switch keeps, as
--                 ApplyRule, RevokeRule, install and uninstall change them and iptables
--   Examples      the theorems at concrete inputs
--
-- How the code is read:
--   - Numbers are natural; an integer of w bits is kept below 2 ^ w by `%` where the code can wrap.
--     A slice is a list, and an index out of range, which panics, is `none`. An error is a value.
--   - A map of Go is an association list with distinct keys. Where the code ranges over a map, the
--     order of the list stands for the order that Go picks, which may be any.
--   - A pointer into the cache of leases is an index into a heap of leases, since two maps share the
--     lease; a tap is a number.
--   - Locks are not modelled: each method is one step, as its lock makes it. Logging is left out.
--   - A connection is a list of what its reads give or its writes take; deadlines are left out. The
--     loop of StreamMessagerImpl.Receive runs on fuel: a round takes a chunk that arrived or a byte of
--     one at least, so more rounds than chunks and bytes, counted together, are enough.
--     The loop of allocLease runs on fuel too: a round for each address of the range and
--     one more are enough.
--   - A goroutine's loop is a function for one turn, and a history is a list of turns: of a client in
--     Socket.Client.Dialing, of a server in Socket.Server.Bounds. Channels are lists without a bound.
--     Listeners of a socket are called at once and in order; what they were called with is a list.
--   - Packages outside the repository are parameters: the block cipher of kcp (BlockCrypt, with
--     IsCipher), the printing and parsing of IP addresses (IpText) and hardware addresses (HwText),
--     each with its documented laws; and, with none, JSON, LDAP, the making of taps, dialing,
--     iptables and the clock (Access.Env, Point.SocketWorker.Json, Firewall.IpTables). Each has a concrete instance in the examples.
--
-- What is not modelled: listening and dialing, the networks and links of the switch, the configuration,
-- the caches of links and of IPsec; and, as input and output or calls of programs and
-- libraries outside the repository, the kernel's taps and bridges, OpenVPN, VXLAN, the fabric, the HTTP
-- interface, the proxies and the C programs.
pub mod Base
pub mod Safe
pub mod Protocol
pub mod Message
pub mod Cache
pub mod Access
pub mod Bridge
pub mod Tap
pub mod App
pub mod Examples
pub mod Firewall
pub mod Neighbors
pub mod Point
pub mod Socket
pub mod Switch
