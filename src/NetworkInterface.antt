-- ===== src/NetworkInterface.antt =====
-- libsponge/network_interface.hh and network_interface.cc: `NetworkInterface`.
-- An `Address` is its numeric IPv4 value. The `BufferList` of a frame is its bytes in one piece, as
-- `EthernetFrame::parse` leaves it, so `buffers().front()` is the whole payload.
pub mod Resolve
use cs144_intro2network.Prelude.{
  ℕ, ◌+◌, ◌%◌, Bool, not, ◌&&◌, Option, none, some, List, [], ◌∷◌, ◌++◌, ltb, leb, ◌==◌,
  if◌then◌else◌, u32_mod, add64,
}
use cs144_intro2network.Prelude.Map.{Map, lookup, insert, erase}
use cs144_intro2network.Wire.Parser.{is_error}
use cs144_intro2network.Wire.Ipv4Datagram
use cs144_intro2network.Wire.Ipv4Datagram.{Ipv4Datagram}
use cs144_intro2network.Wire.Ethernet.{
  EthernetAddress, EthernetFrame, broadcast, zero_address, same_address, type_ipv4, type_arp,
}
use cs144_intro2network.Wire.Arp
use cs144_intro2network.Wire.Arp.{ArpMessage, opcode_request, opcode_reply}

abbrev pub max_req_time : ℕ
max_req_time = 5000

abbrev pub max_cache_time : ℕ
max_cache_time = 30000

pub record NetworkInterface : Type 0 where
  pub ethernet_address : EthernetAddress
  pub ip_address : ℕ
  pub frames_out : List EthernetFrame
  pub ip_mac_cache : Map EthernetAddress
  pub time_since_cache : Map ℕ
  pub waiting_list : Map Ipv4Datagram
  pub time_since_req_send : Map ℕ
  pub reqs : Map EthernetFrame

-- The constructor.
abbrev pub init : EthernetAddress → ℕ → NetworkInterface
init ethernet_address ip_address = record {
  ethernet_address = ethernet_address;
  ip_address = ip_address;
  frames_out = [];
  ip_mac_cache = [];
  time_since_cache = [];
  waiting_list = [];
  time_since_req_send = [];
  reqs = [];
}

-- `std::less`.
abbrev pub before : ℕ → ℕ → Bool
before a b = ltb a b

abbrev pub frame : EthernetAddress → EthernetAddress → ℕ → List ℕ → EthernetFrame
frame dst src type payload = record {
  header = record { dst = dst; src = src; type = type };
  payload = payload;
}

abbrev pub push_frame : EthernetFrame → NetworkInterface → NetworkInterface
push_frame f n = record n { frames_out = n.frames_out ++ f ∷ [] }

-- A serialized datagram to a known address; `none` where `serialize` throws.
abbrev pub push_datagram :
    EthernetAddress → Option (List ℕ) → NetworkInterface → Option NetworkInterface
push_datagram dst none n = none
push_datagram dst (some payload) n =
    some (push_frame (frame dst n.ethernet_address type_ipv4 payload) n)

abbrev pub request : ℕ → NetworkInterface → ArpMessage
request next_hop_ip n = record (Arp.default) {
  opcode = opcode_request;
  sender_ethernet_address = n.ethernet_address;
  sender_ip_address = n.ip_address;
  target_ip_address = next_hop_ip;
}

-- The counter that `operator[]` reads; a missing key reads as 0.
abbrev or_zero : Option ℕ → ℕ
or_zero none = 0
or_zero (some t) = t

-- The frame that `operator[]` reads; a missing key reads as the empty frame.
abbrev or_empty : Option EthernetFrame → EthernetFrame
or_empty none = frame zero_address zero_address 0 []
or_empty (some f) = f

-- `send_datagram` for a next hop that an ARP request is out for.
unfoldable pub send_again : ℕ → NetworkInterface → NetworkInterface
send_again ip n =
    if leb max_req_time (or_zero (lookup ip n.time_since_req_send))
    then push_frame (or_empty (lookup ip n.reqs))
        (record n { time_since_req_send = insert before ip 0 n.time_since_req_send })
    else n

-- `send_datagram` for a next hop that nothing is known of.
abbrev pub send_request :
    Ipv4Datagram → ℕ → Option (List ℕ) → NetworkInterface → Option NetworkInterface
send_request dgram ip none n = none
send_request dgram ip (some payload) n =
    let f = frame broadcast n.ethernet_address type_arp payload in
    some (record (push_frame f n) {
      waiting_list = insert before ip dgram n.waiting_list;
      time_since_req_send = insert before ip 0 n.time_since_req_send;
      reqs = insert before ip f n.reqs;
    })

unfoldable pub send_unknown : Ipv4Datagram → ℕ → NetworkInterface → Option NetworkInterface
unfolding send_again Arp.serialize
send_unknown dgram ip n = elim (lookup ip n.waiting_list) [
  | some waiting ↦ some (send_again ip n)
  | none ↦ send_request dgram ip (Arp.serialize (request ip n)) n
]

-- `none` where a `serialize` throws.
unfoldable pub send_datagram : Ipv4Datagram → ℕ → NetworkInterface → Option NetworkInterface
unfolding send_unknown Ipv4Datagram.serialize
send_datagram dgram next_hop_ip n = elim (lookup next_hop_ip n.ip_mac_cache) [
  | none ↦ send_unknown dgram next_hop_ip n
  | some dest_mac ↦ push_datagram dest_mac (Ipv4Datagram.serialize dgram) n
]

-- A reply lets the datagram go that waits for its sender.
unfoldable pub receive_reply : ArpMessage → NetworkInterface → Option NetworkInterface
unfolding Ipv4Datagram.serialize
receive_reply m n = elim (lookup m.sender_ip_address n.waiting_list) [
  | none ↦ some n
  | some datagram ↦
      push_datagram m.sender_ethernet_address (Ipv4Datagram.serialize datagram) (record n {
        waiting_list = erase m.sender_ip_address n.waiting_list;
        time_since_req_send = erase m.sender_ip_address n.time_since_req_send;
        reqs = erase m.sender_ip_address n.reqs;
      })
]

abbrev pub answer : ArpMessage → NetworkInterface → ArpMessage
answer m n = record (Arp.default) {
  opcode = opcode_reply;
  target_ip_address = m.sender_ip_address;
  sender_ip_address = n.ip_address;
  target_ethernet_address = m.sender_ethernet_address;
  sender_ethernet_address = n.ethernet_address;
}

abbrev push_answer : EthernetAddress → Option (List ℕ) → NetworkInterface → Option NetworkInterface
push_answer dst none n = none
push_answer dst (some payload) n =
    some (push_frame (frame dst n.ethernet_address type_arp payload) n)

-- A request for our address is answered.
unfoldable pub receive_request :
    EthernetAddress → ArpMessage → NetworkInterface → Option NetworkInterface
unfolding Arp.serialize
receive_request src m n =
    if m.target_ip_address == n.ip_address
    then push_answer src (Arp.serialize (answer m n)) n
    else some n

unfoldable pub learn : ArpMessage → NetworkInterface → NetworkInterface
learn m n = record n {
  ip_mac_cache = insert before m.sender_ip_address m.sender_ethernet_address n.ip_mac_cache;
  time_since_cache = insert before m.sender_ip_address 0 n.time_since_cache;
}

abbrev then_learn : ArpMessage → Option NetworkInterface → Option NetworkInterface
then_learn m none = none
then_learn m (some n) = some (learn m n)

unfoldable pub receive_arp :
    EthernetAddress → ArpMessage → NetworkInterface → Option NetworkInterface
unfolding receive_reply receive_request learn
receive_arp src m n =
    then_learn m (if m.opcode == opcode_reply then receive_reply m n else receive_request src m n)

-- What `recv_frame` returns: `none` where a `serialize` throws.
abbrev pub Received : Type 0
Received = Option (Option Ipv4Datagram × NetworkInterface)

abbrev no_datagram : Option NetworkInterface → Received
no_datagram none = none
no_datagram (some n) = some (none, n)

unfoldable pub recv_frame : EthernetFrame → NetworkInterface → Received
unfolding receive_arp Ipv4Datagram.parse Arp.parse
recv_frame f n =
    if not (same_address f.header.dst broadcast)
      && not (same_address f.header.dst n.ethernet_address)
    then some (none, n)
    else if f.header.type == type_ipv4
    then (let (r, d) = Ipv4Datagram.parse Ipv4Datagram.default f.payload in
        if is_error r then some (none, n) else some (some d, n))
    else if f.header.type == type_arp
    then (let (r, m) = Arp.parse Arp.default f.payload in
        if is_error r then some (none, n) else no_datagram (receive_arp f.header.src m n))
    else some (none, n)

-- `tick`: the counters are `uint32_t`.
unfoldable pub age_requests : ℕ → Map ℕ → Map ℕ
age_requests ms [] = []
age_requests ms ((ip, t) ∷ m) = (ip, (t + ms) % u32_mod) ∷ age_requests ms m

-- The second loop of `tick`, over the counters and with the cache.
unfoldable pub age_cache : ℕ → Map ℕ → Map EthernetAddress → Map ℕ × Map EthernetAddress
age_cache ms [] cache = ([], cache)
age_cache ms ((ip, t) ∷ m) cache =
    let old = leb max_cache_time (add64 t ms) in
    let (times, cache') = age_cache ms m (if old then erase ip cache else cache) in
    if old then (times, cache') else ((ip, (t + ms) % u32_mod) ∷ times, cache')

unfoldable pub tick : ℕ → NetworkInterface → NetworkInterface
unfolding age_requests age_cache
tick ms n =
    let (times, cache) = age_cache ms n.time_since_cache n.ip_mac_cache in
    record n {
      time_since_req_send = age_requests ms n.time_since_req_send;
      time_since_cache = times;
      ip_mac_cache = cache;
    }
