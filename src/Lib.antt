-- ===== src/Lib.antt =====
-- claudepod: the nix daemon proxy between a sandboxed guest and the host's nix daemon, and the
-- parts of the tool that stand beside it.
--
-- The program. A guest talks the nix daemon protocol to the proxy (src/proxy), which relays a
-- read-only allowlist of ops to the host daemon. Bytes go through the primitives of
-- src/proxy/wire.rs; src/proxy/handshake.rs negotiates a version with both sides;
-- src/proxy/ops.rs says which ops are allowed and copies their payloads; src/proxy/stderr.rs
-- relays or drains the daemon's messages; src/proxy/session.rs drives one connection with all of
-- these and intercepts `IsValidPath`, for which it may have a path of the manifest of
-- src/proxy/run_roots.rs filled by src/proxy/host_client.rs. src/store_path.rs says what a
-- direct store path is.
--
-- The files.
--   Prelude     shared names, Boolean tests, lists, number formats
--   Outcome     `anyhow::Result` over an explicit state; Outcome.Trace has the rules of total
--               correctness by what an operation logs, Outcome.Ending those of operations that
--               do not wait, Outcome.Stages those of what is left behind; the modules called
--               Ending, Delivery and Delivered apply these
--   Wire        src/proxy/wire.rs; Copy has its copy functions, Format the frames, Reading,
--               Writing, Moves, Verbatim, Chunks and RoundTrip the proofs, Pieces what payloads are
--               made of
--   Utf8        `String::from_utf8`, `from_utf8_lossy` and `trim_end` of the standard library; Words
--               has lines, words and numbers
--   Paths       `split`, paths by their components, joins and names of the standard library
--   StorePath   src/store_path.rs
--   StoreLayers src/store_layers.rs
--   AgentEnv    src/agent_env.rs; Names relates the two programs that use it
--   Host        files, links, mounts and variables, as src/bin uses them; Log and Changes have the
--               steps by which files evolve, Successes what an operation that succeeded went through
--   Start       src/bin/claudepod-start.rs: EnvSpecs, Volumes, Ports, Inputs, Project and Gpu are
--               what it makes of its options and surroundings, AtomicWrite and Manifest the
--               manifest of the run roots, ProxyChild the proxy that it starts, Binds and Podman the
--               volumes and the command line, Launch its main
--   Entry       src/bin/claudepod-entry.rs: RuntimeEnv is the environment file, Subids the id
--               maps, Config the files under /run and Config.Listed what lists leave in two of
--               them, Setup its run
--   Proxy.Serve src/proxy.rs: the accept loop as a step relation
--   Proxy.Relay src/proxy.rs: a session of one guest, whose own connection to the host daemon is the
--               first one and whose fills have the next ones
--   Proxy.Handshake, Proxy.Ops, Proxy.Stderr, Proxy.RunRoots, Proxy.HostClient, Proxy.Session
--               the file of src/proxy with that name. A function keeps its name; a loop
--               or a branch of it that has a name of its own stands beside it.
--
-- The model. A stream is the bytes that a peer still sends and whether it then hangs up; a read
-- that finds too few bytes is the library's error or waits for ever, and uses up what there is. A
-- sink keeps what was delivered and what waits for a flush. An operation is a function from a state
-- to an outcome and a state, so what was read and written before an error is kept; `pending` is a
-- future that never resolves, which `within` turns into the timeout's error. A session's state is
-- the four halves of its connections, the dials, the fills and the warnings; the host's halves are
-- fresh when it has dialled.
--
-- The launcher and the entry point run on a host: the contents of files by path, links, mounts, and
-- a count of system calls, of which any may fail as a parameter says. A write that fails may leave
-- a first part. Their last act, executing another program, is their result.
--
-- Parameters. The texts of library errors, the result of dialling with what the host daemon then
-- sends, the results of fills by the fills before them, how many bytes a read hands over, which
-- system calls fail, the variables of the environment, the directories of the xdg library, what
-- clap has parsed, and what nix and a started program come to.
--
-- Fuel. The message loops run on more fuel than their stream has bytes, and a message takes eight
-- bytes; the op loop runs on more fuel than the guest sends bytes, and an op takes eight bytes;
-- `read_u64_or_eof` has eight rounds, one for each byte. `out_of_fuel` is excluded by the rules of
-- Outcome.Trace wherever they are applied.
--
-- Not modelled. Sockets, signals and the scheduling of tasks; src/bin/claudepod-nix-proxy.rs, which
-- is these around the accept loop; src/bin/claudepod-e2e.rs, a test program; failing writes to a
-- peer, which in the source end the session like any other error; lines that are printed.
-- Directories are no part of the files' state: making one only may fail. The errors of port options
-- are data in place of their texts.
pub mod Prelude
pub mod Outcome
pub mod Wire
pub mod Utf8
pub mod Paths
pub mod StorePath
pub mod StoreLayers
pub mod AgentEnv
pub mod Host
pub mod Start
pub mod Entry
pub mod Proxy
