-- ===== src/Lib.antt =====
-- pktc: packet descriptions as trees, lowered to the commands that build the tunnels.
--
-- A source text is read as s-expressions (sexp), which become protocol nodes with typed properties
-- (ast). A `configure` form holds one packet, a chain of layers, its spine (spine). A registry of
-- tiles, each a pattern of layer names with a lowering, covers the spine from the outermost layer on
-- by longest match (tile); each tile emits commands (command) and takes the names of the devices it
-- makes from an environment (env). The tile set of the target linux-iproute2 is in tiles/linux.
-- The same tree predicts what the underlay carries (wire) and yields the tree of the far end (mirror);
-- cmd/pktc puts the parts together.
--
-- Which file models what:
--   Common      numbers, texts and lists that all parts share; a text is the list of its bytes
--   Diag        sexp/pos.go, and every diagnostic; `Result` is a Go result with its error, or a fault;
--               Format is the text of a diagnostic
--   Std         Go's library, as documented: strconv's ParseUint, FormatUint (Strconv) and Quote (Quote),
--               net/netip (Netip), package flag (Flag), strings (Strings; Trim and OneLine are on it), UTF-8
--               (Utf8)
--   Sexp        sexp/sexp.go (Kind, Value) and sexp/reader.go (Reader); Print is a printer to compare,
--               Symbols is on the symbols that are read
--   Ast         ast/node.go (Ast, Build), ast/value.go (Reading) and ast/props.go (Props)
--   Spine       spine/spine.go
--   Env         env/env.go
--   Command     command/command.go; Shell is a shell's splitting of a line into words
--   Tile        tile/tile.go, tile/cover.go (Address, Cover) and tile/explain.go (Explain, Report)
--   Linux       tiles/linux: linux.go (Linux, Tunnel, Tiles), endpoint.go (Endpoint), vxlan.go (Vxlan),
--               vlan.go (Vlan), wireguard.go (Wireguard)
--   Wire        wire/wire.go; Check is on its results; Port, Tunnels and Guard compare it with the
--               lowerings of VXLAN, of IPIP, GRE and GRETAP, and of WireGuard
--   Mirror      mirror/mirror.go, the exchange of ends; Far, what `Peer` does behind it; Notes, the texts
--               of its notes; Ends and Twice are on the exchange, Others on what it leaves alone, Peer on the
--               whole, Return, Settled and Back on the far end's far end, Tiled on the tiles of the far
--               end's tree, Lines on what its texts may hold
--   Cli         cmd/pktc/main.go: reading a file's trees, `render` and `lower`; `expect` and `explain`
--               (Views), `parse` (Parse), `mirror` (Mirror), the flags and `main` (Main); Exits is on how a
--               run ends, Args on the flags, Both on what `mirror` prints, Stops on a rule that `lower`
--               refuses, Names on the names of the layers that are read
--   Nettest     internal/nettest/nettest.go: running commands and scripts, namespaces (Pair), captures
--               (Capture); Undo and Tidy are on the clean-ups, Whole and Ends on running what pktc prints;
--               Lines, Script, Printed, Quiet, Heads, Rendered, Covered, Rules and Banner lead there
--   Tests       runs at concrete inputs, and instances of the theorems
--
-- State and errors. `*env.Env` is mutable in the program and is here a record that each operation
-- takes and returns; an operation that fails drops it, as the program stops at the first error.
-- An error is its position and a `Message`, which has one constructor per format string. `fault panic`
-- stands for an index out of range or a nil function, `fault out_of_fuel` for a loop cut short.
--
-- Fuel. The reader's loops run on fuel, twice the bytes left and one more for a value, and one round
-- per byte for a file; the loop of `Cover` and that of `Explain` on one round per layer and one more;
-- the loop of `Alloc` on one round per name in use and one more. A form takes a byte at least, a
-- tile a layer at least, and `Alloc` passes over names in use only.
--
-- Integers. A property of 16 or 32 bits is a natural number below that bound, with the conversion
-- written as `% 2 ^ width`. Line, column and the counters of `Alloc` are unbounded here, where Go has
-- an int, and so is a priority, an integer.
--
-- The outside world. The files are a function from a path to the contents or to the text of an error; a
-- run of pktc is its arguments made into what it writes to both outputs and its exit status. The host of the
-- test harness is a function from a command and a state to what the command wrote, its error and the next
-- state; tcpdump, in the background, is a process that `Processes` starts, waits for and kills. A test is
-- a step on that state which gives a value, skips or fails; it keeps the clean-ups that it has registered
-- and, for the theorems, the commands that ran. `printable`, a parameter where a text is quoted, is
-- strconv.IsPrint beyond Latin-1.
--
-- Not modelled: what a shell and the kernel make of the commands; the tables of Unicode (`printable`).
pub mod Common
pub mod Diag
pub mod Std
pub mod Sexp
pub mod Ast
pub mod Spine
pub mod Env
pub mod Command
pub mod Tile
pub mod Linux
pub mod Cli
pub mod Wire
pub mod Mirror
pub mod Nettest
pub mod Tests
