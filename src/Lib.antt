-- ===== src/Lib.antt =====
-- The sandbox module of aimee and the frames of its event bus.
--
-- The program is a Go process, server-go/modules/sandbox, that answers four kinds of requests on a
-- shared-memory bus, server-go/bus. Two of them decide what a build container may reach through
-- the package proxy: a request (its line, the allowlist, and the head that is forwarded) and an
-- address that a name resolved to. The other two learn the Debian packages that commands install,
-- and return what was learned for a project. The requests and the replies are JSON in the payload
-- of frames, behind a message header; the bus reads and writes both headers.
--
-- The files and what they model:
--   GoString         strings as lists of bytes, and what the code uses of package strings; a loop
--                    with range over a string visits the first bytes of its runes
--   Proxy/Address    ipv4Blocked, proxyIPBlocked and proxyPortAllowed of
--                    server-go/modules/sandbox/proxy_policy.go
--   Proxy/Host       equalFoldASCII, proxyHostAllowed, copyProxyHost and parseProxyPort
--   Proxy/Request    classifyProxyRequestLine; the grammar is Proxy/Request/Grammar
--   Proxy/Rewrite    proxyHeaderShouldStrip, validProxyHeaderName and rewriteProxyHead
--   Learned/Grammar  packageValid of server-go/modules/sandbox/sandbox.go
--   Learned/Tokens   tokenize
--   Learned/Parse    ParseApt; the index into the tokens is the list of those left with the token
--                    before them
--   Learned/Store    read, Load and Record of the store, over a disk that holds the sidecar and
--                    counts temporary files, with the calls of the operating system that fail
--                    and with the panic of an assignment to the nil map as one of the results
--   Handler          NewHandler, the handlers and encode, of server-go/modules/sandbox/module.go
--                    and of proxy_policy.go
--   Bus/LittleEndian the numbers in the headers, as encoding/binary writes them
--   Bus/Message      valid, Encode, DecodeModuleMessage and DeadlineExpired of
--                    server-go/bus/module_protocol.go
--   Bus/Wire         Validate, Encode, Decode and CheckPlacement of server-go/bus/wire.go
--   Bus/Memory       reading and writing bytes of the mapping
--   Bus/Ring         AttachRing, Count, slot, ProduceBegin, ProduceCommit, ConsumeBegin and
--                    ConsumeCommit of server-go/bus/ring.go; Bus/Ring/Delivery has one producer and
--                    one consumer, as steps in any order, Bus/Ring/Queue the queue they make
--   Bus/Fragments    the loop over the parts of a body, of module_runtime.go and module_caller.go
--   Bus/Stages       ModuleProcessConfig and validateModuleConfig of module_runtime.go
--   Bus/Runtime      runHandler, invalidModuleRequest, finishModuleWork and the handling of an event
--                    by runModuleClient, of server-go/bus/module_runtime.go; Bus/Runtime/Reply is
--                    replyModuleResult, Bus/Runtime/Serving the loop beside the goroutines of the
--                    handlers, Bus/Runtime/Drained the end of the loop, Bus/Runtime/Checked the
--                    answers that are sent as others
--   Bus/Caller       newModuleCaller, Call, send and awaitReply of server-go/bus/module_caller.go
--   Bus/Region       AttachControl, AttachQueuePair, the readers, ControlLost and SetHeartbeat of
--                    server-go/bus/region.go, and qpairBytes of server-go/bus/client.go
--   Bus/Client       emit and the calls that send with it, EpochChanged and Poll of
--                    server-go/bus/client.go; the two rings of a client are apart
--   Samples          the theorems at concrete inputs, and runs
--
-- Errors and early returns are `none`, a status or a result of the model; a function of Go that
-- returns a value and a Boolean returns an Option. Numbers are natural, with the widths as
-- hypotheses or as remainders where the code can wrap around.
--
-- Fuel: the loops over the tokens of a command, over its bytes and over the lines of a head take
-- the length of what is left as fuel: a round of each takes a token or a byte at least. The loop
-- over the parts of a body has one more than the length of the body.
--
-- Time and the peer: what the calls of the bus return, one entry a call, is an argument (the
-- attempts of a reply, the polls of a caller); a run that reaches the end of it waits. The clock is
-- read where the code reads it. Handlers return at any time, or never.
--
-- Parameters: encoding/json (the messages in Handler.Messages, the document in
-- Learned.Store.Codec), net.ParseIP, whether an invocation is cancelled, which calls of the
-- operating system fail, and the lower-casing and trimming of texts that are not ASCII. The
-- hypotheses on them stand with the theorems that need them.
--
-- Not modelled: Attach, AttachAs, Detach and parseRights of client.go, which map the memory and
-- shake hands with the host; connecting, in module_runtime.go and client_connect.go, with the
-- heartbeat of keepAlive; the text of the log in moduleDetail; initRing, which the tests of the bus
-- call; runtime/main.go, which only starts the process; and the C sources under
-- src/modules/sandbox, the former implementation.
mod Base
pub mod GoString
pub mod Proxy
pub mod Learned
pub mod Handler
pub mod Bus
pub mod Samples
