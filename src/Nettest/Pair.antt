-- ===== src/Nettest/Pair.antt =====
-- internal/nettest/nettest.go: namespaces, alone and in pairs.
use pktc.Common.{Text, bytes, List, [], ◌∷◌, ◌++◌}
use pktc.Std.Strconv.{format_uint}
use pktc.Nettest.{
  Host, M, ◌>>=◌, ◌>>◌, because, failed_text, pure, skip, fail, cleanup, exec_or, require, must_run,
}

pub record Pair : Type 0 where
  pub a : Text
  pub b : Text
  pub a_addr : Text
  pub b_addr : Text

-- the move of a link into a namespace
abbrev pub set_netns : Text → Text → List Text
set_netns dev ns = bytes "ip" ∷ bytes "link" ∷ bytes "set" ∷ dev ∷ bytes "netns" ∷ ns ∷ []

module _ {W : Type 0} (h : Host W) where
  -- `pktc-%s-%d`
  unfoldable pub full_name : Text → Text
  full_name name = bytes "pktc-" ++ (name ++ (bytes "-" ++ format_uint h.pid))

  -- a namespace, and its deletion at the end of the test
  unfoldable pub add_namespace : Text → M W (Unit {0})
  unfolding exec_or
  add_namespace full = do
    exec_or h (bytes "ip" ∷ bytes "netns" ∷ bytes "add" ∷ full ∷ [])
        (λ r. skip (because (bytes "cannot create namespace") r))
    cleanup (bytes "ip" ∷ bytes "netns" ∷ bytes "del" ∷ full ∷ [])

  -- `New`
  unfoldable pub new : Text → Text → M W Text
  unfolding require full_name add_namespace must_run
  new name addr = do
    require h
    add_namespace (full_name name)
    must_run h (full_name name) (
        bytes "ip"
        ∷ bytes "link"
        ∷ bytes "add"
        ∷ bytes "veth0"
        ∷ bytes "type"
        ∷ bytes "veth"
        ∷ bytes "peer"
        ∷ bytes "name"
        ∷ bytes "veth1"
        ∷ [])
    must_run h (full_name name) (
        bytes "ip"
        ∷ bytes "addr"
        ∷ bytes "add"
        ∷ (addr ++ bytes "/24")
        ∷ bytes "dev"
        ∷ bytes "veth0"
        ∷ [])
    must_run h (full_name name)
        (bytes "ip" ∷ bytes "link" ∷ bytes "set" ∷ bytes "veth0" ∷ bytes "up" ∷ [])
    pure (full_name name)

  -- `newEmpty`
  unfoldable pub new_empty : Text → M W Text
  unfolding full_name add_namespace
  new_empty name = add_namespace (full_name name) >> pure (full_name name)

  -- `mustHost`
  unfoldable pub must_host : List Text → M W (Unit {0})
  unfolding exec_or
  must_host argv = exec_or h argv (λ r. fail (failed_text argv r))

  -- the two ends of the wire, in the host
  unfoldable pub add_wire : Text → Text → M W (Unit {0})
  unfolding exec_or
  add_wire ta tb = do
    exec_or h
        (bytes "ip"
          ∷ bytes "link"
          ∷ bytes "add"
          ∷ ta
          ∷ bytes "type"
          ∷ bytes "veth"
          ∷ bytes "peer"
          ∷ bytes "name"
          ∷ tb
          ∷ [])
        (λ r. skip (because (bytes "cannot create a veth pair") r))
    cleanup (bytes "ip" ∷ bytes "link" ∷ bytes "del" ∷ ta ∷ [])

  -- the loop of `NewPair` over the ends: the name it had, and its address
  unfoldable pub set_ends : List (Text × Text × Text) → M W (Unit {0})
  unfolding must_run
  set_ends [] = pure tt
  set_ends ((ns, from, addr) ∷ rest) = do
    must_run h ns
        (bytes "ip" ∷ bytes "link" ∷ bytes "set" ∷ from ∷ bytes "name" ∷ bytes "wire0" ∷ [])
    must_run h ns (
        bytes "ip"
        ∷ bytes "addr"
        ∷ bytes "add"
        ∷ (addr ++ bytes "/24")
        ∷ bytes "dev"
        ∷ bytes "wire0"
        ∷ [])
    must_run h ns (bytes "ip" ∷ bytes "link" ∷ bytes "set" ∷ bytes "wire0" ∷ bytes "up" ∷ [])
    must_run h ns (bytes "ip" ∷ bytes "link" ∷ bytes "set" ∷ bytes "lo" ∷ bytes "up" ∷ [])
    set_ends rest

  unfoldable pub wire_a : Text
  wire_a = bytes "pktc-ta-" ++ format_uint h.pid

  unfoldable pub wire_b : Text
  wire_b = bytes "pktc-tb-" ++ format_uint h.pid

  -- `NewPair`
  unfoldable pub new_pair : Text → Text → Text → M W Pair
  unfolding require new_empty add_wire must_host set_ends wire_a wire_b
  new_pair name a_addr b_addr = do
    require h
    a ← new_empty (name ++ bytes "a")
    b ← new_empty (name ++ bytes "b")
    add_wire wire_a wire_b
    must_host (set_netns wire_a a)
    must_host (set_netns wire_b b)
    set_ends ((a, wire_a, a_addr) ∷ (b, wire_b, b_addr) ∷ [])
    pure (record { a = a; b = b; a_addr = a_addr; b_addr = b_addr })
