-- ===== src/Dht/Wire.antt =====
-- client/dht.go: the lemmas on compact nodes, dhtCompactNode and dhtParseNodes.
use mathlib.Core.List.{append_assoc}
use apgo.Prelude.{
  ℕ, zero, suc, ◌+◌, ◌%◌, ◌-◌, ◌^◌, ◌≤◌, ◌<◌, false, List, [], ◌∷◌, ◌++◌, none, some, ltb, length,
  take, drop, All, length-append, length-drop, Bool-cases, Option-cases, inl, inr, ◌==◌, sym,
  take_prefix, drop_past, ◌≡◌, refl, ap, ◌∙◌, arith,
}
use apgo.Prelude.Text.{Text, be_value, put_be, be_value-put_be, length-put_be}
use apgo.Prelude.Maps.{Key}
use apgo.RoutingTable.{Node, dht_k}
use apgo.Dht.Query.{DhtState, compact_nodes, closest_compact}
use apgo.Dht.Closest.{closest}
use apgo.Dht.{Endpoint, to4, compact_node, nodes_from, parse_nodes}

-- Twenty bytes of identifier, and a port.
abbrev pub IsWireNode : (Key → Endpoint) → Node → Type 0
IsWireNode at n = (length n.id ≡ 20) × ((at n.addr).port < 2 ^ 16)

-- The nodes that have an IPv4 address, in its form of four bytes.
unfoldable pub ipv4_nodes : (Key → Endpoint) → List Node → List (Text × Endpoint)
ipv4_nodes at [] = []
ipv4_nodes at (n ∷ ns) = elim (to4 (at n.addr).ip) [
  | none ↦ ipv4_nodes at ns
  | some v4 ↦ (n.id, record (at n.addr) { ip = v4 }) ∷ ipv4_nodes at ns
]

length-to4 : (ip v4 : Text) → to4 ip ≡ some v4 → length v4 ≡ 4
unfolding to4
length-to4 ip v4 h = elim (Bool-cases (length ip == 4)) [
  | inl short ↦ ground (arith, h, short)
  | inr long ↦ ground (arith, h, long, length-drop 12 ip)
]

-- Twenty bytes of identifier, and a four-byte address with a port.
abbrev pub IsIpv4Node : Text × Endpoint → Type 0
IsIpv4Node n = (length n.0 ≡ 20) × (length (n.1).ip ≡ 4) × ((n.1).port < 2 ^ 16)

node_bytes : Text → Endpoint → Text → Text
node_bytes id addr rest = id ++ (addr.ip ++ (put_be 2 addr.port ++ rest))

compact_nodes_node :
    (at : Key → Endpoint) (n : Node) (ns : List Node) (v4 : Text)
    → IsWireNode at n
    → to4 (at n.addr).ip ≡ some v4
    → compact_nodes at (n ∷ ns)
      ≡ node_bytes n.id (record (at n.addr) { ip = v4 }) (compact_nodes at ns)
unfolding compact_nodes compact_node node_bytes
compact_nodes_node at n ns v4 (i, p) h =
    let port : (at n.addr).port % 2 ^ 16 ≡ (at n.addr).port = omega arith in
    rw (compact_nodes, compact_node, h, port)
      (append_assoc n.id (v4 ++ put_be 2 (at n.addr).port) (compact_nodes at ns)
        ∙ ap (λ t. n.id ++ t) (append_assoc v4 (put_be 2 (at n.addr).port) (compact_nodes at ns)))

length-node_bytes :
    (id : Text) (addr : Endpoint) (rest : Text)
    → IsIpv4Node (id, addr)
    → length (node_bytes id addr rest) ≡ 26 + length rest
unfolding node_bytes
length-node_bytes id addr rest (i, a, p) = omega (
  arith,
  length-append id (addr.ip ++ (put_be 2 addr.port ++ rest)),
  length-append addr.ip (put_be 2 addr.port ++ rest),
  length-append (put_be 2 addr.port) rest,
  length-put_be 2 addr.port,
)

nodes_from-node_bytes :
    (fuel : ℕ) (id : Text) (addr : Endpoint) (rest : Text)
    → IsIpv4Node (id, addr)
    → nodes_from (suc fuel) (node_bytes id addr rest) ≡ (id, addr) ∷ nodes_from fuel rest
unfolding nodes_from
nodes_from-node_bytes fuel id addr rest v =
    let b = node_bytes id addr rest in
    let port = put_be 2 addr.port in
    let long : ltb (length b) 26 ≡ false = ground (arith, length-node_bytes id addr rest v) in
    let from_ip : drop 20 b ≡ addr.ip ++ (port ++ rest) =
      drop_past 0 20 b id (addr.ip ++ (port ++ rest)) v.0 (unfold node_bytes in refl) in
    let from_port : drop 24 b ≡ port ++ rest =
      drop_past 20 4 b addr.ip (port ++ rest) v.1 from_ip in
    let from_rest : drop 26 b ≡ rest =
      drop_past 24 2 b port rest (length-put_be 2 addr.port) from_port in
    let value : be_value port 0 ≡ addr.port = omega (arith, be_value-put_be 2 addr.port 0, v.2) in
    let first : take 20 b ≡ id =
      unfold node_bytes in take_prefix 20 id (addr.ip ++ (port ++ rest)) v.0 in
    rw
      (
        long,
        first,
        from_ip,
        from_port,
        from_rest,
        take_prefix 4 addr.ip (port ++ rest) v.1,
        take_prefix 2 port rest (length-put_be 2 addr.port),
        value,
      )
      refl

skipped :
    (at : Key → Endpoint) (n : Node) (ns : List Node)
    → to4 (at n.addr).ip ≡ none
    → compact_nodes at (n ∷ ns) ≡ compact_nodes at ns
unfolding compact_nodes compact_node
skipped at n ns h = rw (compact_nodes, compact_node, h) refl

left_out :
    (at : Key → Endpoint) (n : Node) (ns : List Node)
    → to4 (at n.addr).ip ≡ none
    → ipv4_nodes at (n ∷ ns) ≡ ipv4_nodes at ns
unfolding ipv4_nodes
left_out at n ns h = rw (ipv4_nodes, h) refl

taken :
    (at : Key → Endpoint) (n : Node) (ns : List Node) (v4 : Text)
    → to4 (at n.addr).ip ≡ some v4
    → ipv4_nodes at (n ∷ ns) ≡ (n.id, record (at n.addr) { ip = v4 }) ∷ ipv4_nodes at ns
unfolding ipv4_nodes
taken at n ns v4 h = rw (ipv4_nodes, h) refl

-- One round for each node at least.
nodes_from-compact_nodes :
    (at : Key → Endpoint) (ns : List Node) (fuel : ℕ)
    → All (IsWireNode at) ns
    → length (compact_nodes at ns) ≤ fuel
    → nodes_from fuel (compact_nodes at ns) ≡ ipv4_nodes at ns
nodes_from-compact_nodes at [] zero v l = unfold nodes_from ipv4_nodes in refl
nodes_from-compact_nodes at [] (suc fuel) v l = unfold nodes_from compact_nodes ipv4_nodes in refl
nodes_from-compact_nodes at (n ∷ ns) fuel v l = elim (Option-cases (to4 (at n.addr).ip)) [
  | inl no_ipv4 ↦
      ap (nodes_from fuel) (skipped at n ns no_ipv4)
      ∙ nodes_from-compact_nodes at ns fuel v.1 (omega (arith, ap length (skipped at n ns no_ipv4)))
      ∙ sym (left_out at n ns no_ipv4)
  | inr (v4, h) ↦
      let addr : Endpoint = record (at n.addr) { ip = v4 } in
      let valid : IsIpv4Node (n.id, addr) = (v.0.0, length-to4 (at n.addr).ip v4 h, v.0.1) in
      let split = compact_nodes_node at n ns v4 v.0 h in
      let size : length (compact_nodes at (n ∷ ns)) ≡ 26 + length (compact_nodes at ns) =
        ap length split ∙ length-node_bytes n.id addr (compact_nodes at ns) valid in
      let more : fuel ≡ suc (fuel - 1) = omega (arith, size, l) in
      ap (λ f. nodes_from f (compact_nodes at (n ∷ ns))) more
      ∙ ap (nodes_from (suc (fuel - 1))) split
      ∙ nodes_from-node_bytes (fuel - 1) n.id addr (compact_nodes at ns) valid
      ∙ ap (λ l. (n.id, addr) ∷ l)
          (nodes_from-compact_nodes at ns (fuel - 1) v.1 (omega (arith, size, l)))
      ∙ sym (taken at n ns v4 h)
]

-- What closestCompact writes of the nodes that Closest finds for a target, dhtParseNodes reads as those
-- of them that have an IPv4 address, mapped into IPv6 or not, in their order and with the address in
-- four bytes. The nodes have identifiers of twenty bytes and ports of sixteen bits.
pub parse_nodes-closest_compact :
    (at : Key → Endpoint) (target : Text) (d : DhtState)
    → All (IsWireNode at) (closest target dht_k d.table)
    → parse_nodes (closest_compact at target d) ≡ ipv4_nodes at (closest target dht_k d.table)
unfolding parse_nodes closest_compact
parse_nodes-closest_compact at target d v =
    nodes_from-compact_nodes at (closest target dht_k d.table) _ v (omega arith)
