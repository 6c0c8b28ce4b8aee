-- ===== src/Router.antt =====
-- libsponge/router.hh and router.cc: `AsyncNetworkInterface` and `Router`.
pub mod LongestPrefix
pub mod Match
use cs144_intro2network.Prelude.{
  ℕ, zero, suc, ◌+◌, ◌-◌, ◌*◌, ◌/◌, ◌%◌, ◌^◌, Bool, true, false, not, Option, none, some, List, [],
  ◌∷◌, ◌++◌, length, get_elem?, ltb, leb, ◌==◌, if◌then◌else◌,
}
use cs144_intro2network.Wire.Ipv4Header.{Ipv4Header}
use cs144_intro2network.Wire.Ipv4Datagram.{Ipv4Datagram}
use cs144_intro2network.Wire.Ethernet.{EthernetFrame}
use cs144_intro2network.NetworkInterface
use cs144_intro2network.NetworkInterface.{NetworkInterface, Received}

pub record AsyncNetworkInterface : Type 0 where
  pub interface : NetworkInterface
  pub datagrams_out : List Ipv4Datagram

abbrev queued : AsyncNetworkInterface → Received → Option AsyncNetworkInterface
queued a none = none
queued a (some (none, n)) = some (record a { interface = n })
queued a (some (some d, n)) =
    some (record { interface = n; datagrams_out = a.datagrams_out ++ d ∷ [] })

unfoldable pub recv_frame : EthernetFrame → AsyncNetworkInterface → Option AsyncNetworkInterface
unfolding NetworkInterface.recv_frame
recv_frame f a = queued a (NetworkInterface.recv_frame f a.interface)

pub record RoutingTableEntry : Type 0 where
  pub route_prefix : ℕ
  pub prefix_length : ℕ
  pub next_hop : Option ℕ
  pub interface_num : ℕ

pub record Router : Type 0 where
  pub interfaces : List AsyncNetworkInterface
  pub routing_table : List RoutingTableEntry

abbrev pub init : Router
init = record { interfaces = []; routing_table = [] }

-- Returns the index of the interface beside the router.
unfoldable pub add_interface : AsyncNetworkInterface → Router → Router × ℕ
add_interface a r =
    let all = r.interfaces ++ a ∷ [] in (record r { interfaces = all }, length all - 1)

unfoldable pub add_route : ℕ → ℕ → Option ℕ → ℕ → Router → Router
add_route route_prefix prefix_length next_hop interface_num r = record r {
  routing_table =
      r.routing_table
      ++ record {
        route_prefix = route_prefix;
        prefix_length = prefix_length;
        next_hop = next_hop;
        interface_num = interface_num;
      }
        ∷ [];
}

-- `x & mask` for a mask of one bit, or of none.
abbrev pub and_bit : ℕ → ℕ → ℕ
and_bit x mask = x / mask % 2 * mask

-- The loop of `match`, for the rounds that are left.
unfoldable pub match_from : ℕ → ℕ → ℕ → ℕ → Bool
match_from zero dst entry_dst mask = true
match_from (suc rounds) dst entry_dst mask =
    let rest = match_from rounds dst entry_dst (mask / 2) in
    if and_bit dst mask == and_bit entry_dst mask then rest else false

unfoldable pub matches : ℕ → ℕ → ℕ → Bool
unfolding match_from
matches dst entry_dst pre_len = match_from pre_len dst entry_dst (2 ^ 31)

-- The body of the search for an entry: the first match, and then any with a longer prefix.
abbrev pub better : ℕ → RoutingTableEntry → Option RoutingTableEntry → Option RoutingTableEntry
better dst e none = if matches dst e.route_prefix e.prefix_length then some e else none
better dst e (some best) =
    if matches dst e.route_prefix e.prefix_length
    then (if ltb best.prefix_length e.prefix_length then some e else some best)
    else some best

unfoldable pub longest_match :
    ℕ → Option RoutingTableEntry → List RoutingTableEntry → Option RoutingTableEntry
longest_match dst found [] = found
longest_match dst found (e ∷ es) = longest_match dst (better dst e found) es

-- `set` changes the interface of an index in range.
unfoldable pub set :
    List AsyncNetworkInterface → ℕ → AsyncNetworkInterface → List AsyncNetworkInterface
set [] i a = []
set (x ∷ xs) zero a = a ∷ xs
set (x ∷ xs) (suc i) a = x ∷ set xs i a

-- Sends from an interface; `none` where `at` throws, or sending does.
abbrev sent_from : ℕ → Router → AsyncNetworkInterface → Option NetworkInterface → Option Router
sent_from i r a none = none
sent_from i r a (some n) =
    some (record r { interfaces = set r.interfaces i (record a { interface = n }) })

unfoldable pub send_from : ℕ → Ipv4Datagram → ℕ → Router → Option Router
unfolding set NetworkInterface.send_datagram
send_from i d hop r = elim (get_elem? r.interfaces i) [
  | none ↦ none
  | some a ↦ sent_from i r a (NetworkInterface.send_datagram d hop a.interface)
]

abbrev or_direct : Option ℕ → ℕ → ℕ
or_direct none dst = dst
or_direct (some hop) dst = hop

abbrev pub next_hop_of : RoutingTableEntry → Ipv4Datagram → ℕ
next_hop_of e d = or_direct e.next_hop d.header.dst

-- The datagram with one hop less to live.
abbrev pub decremented : Ipv4Datagram → Ipv4Datagram
decremented d = record d { header = record (d.header) { ttl = d.header.ttl - 1 } }

unfoldable pub route_one_datagram : Ipv4Datagram → Router → Option Router
unfolding longest_match send_from
route_one_datagram d r =
    if leb d.header.ttl 1 then some r else (elim (longest_match d.header.dst none r.routing_table) [
      | none ↦ some r
      | some e ↦ send_from e.interface_num (decremented d) (next_hop_of e d) r
    ])

abbrev drop_front : List Ipv4Datagram → List Ipv4Datagram
drop_front [] = []
drop_front (d ∷ ds) = ds

-- `queue.pop()` on the queue of an interface.
unfoldable pub pop_queue : ℕ → Router → Router
unfolding set
pop_queue i r = elim (get_elem? r.interfaces i) [
  | none ↦ r
  | some a ↦ record r {
    interfaces = set r.interfaces i (record a { datagrams_out = drop_front a.datagrams_out });
  }
]

-- The `while` of `route`: a round for each datagram in the queue of interface `i`. Sending does not
-- change these queues.
unfoldable pub route_queue : ℕ → List Ipv4Datagram → Router → Option Router
unfolding route_one_datagram pop_queue
route_queue i [] r = some r
route_queue i (d ∷ ds) r = elim (route_one_datagram d r) [
  | none ↦ none
  | some r' ↦ route_queue i ds (pop_queue i r')
]

abbrev queue_of : Option AsyncNetworkInterface → List Ipv4Datagram
queue_of none = []
queue_of (some a) = a.datagrams_out

-- The `for` of `route`, for the interfaces left and the index of the first of them.
unfoldable pub route_from : ℕ → ℕ → Router → Option Router
unfolding route_queue
route_from zero i r = some r
route_from (suc left) i r = elim (route_queue i (queue_of (get_elem? r.interfaces i)) r) [
  | none ↦ none
  | some r' ↦ route_from left (i + 1) r'
]

unfoldable pub route : Router → Option Router
unfolding route_from
route r = route_from (length r.interfaces) 0 r
