-- ===== src/NetworkInterface/Resolve.antt =====
-- How `NetworkInterface` resolves an address: one request, and the waiting datagram with the reply.
use cs144_intro2network.Prelude.{
  ℕ, ◌≡◌, refl, ap, ◌∙◌, List, [], ◌∷◌, ◌++◌, none, some, ◌==◌, true, ==_iff,
}
use cs144_intro2network.Prelude.Map.{lookup, erase, lookup-insert}
use cs144_intro2network.Wire.Ipv4Datagram
use cs144_intro2network.Wire.Ipv4Datagram.{Ipv4Datagram}
use cs144_intro2network.Wire.Ethernet.{
  EthernetFrame, EthernetAddress, broadcast, type_arp, type_ipv4,
}
use cs144_intro2network.Wire.Arp
use cs144_intro2network.Wire.Arp.{ArpMessage, opcode_reply, supported}
use cs144_intro2network.NetworkInterface.{
  NetworkInterface, before, frame, push_frame, request, send_again, send_request, send_unknown,
  send_datagram, receive_reply, learn, receive_arp,
}

-- A broadcast frame with the ARP request, from the interface, for the owner of `ip`.
pub record Asks (n : NetworkInterface) (ip : ℕ) (f : EthernetFrame) : Type 0 where
  pub dst : f.header.dst ≡ record { b0 = 255; b1 = 255; b2 = 255; b3 = 255; b4 = 255; b5 = 255 }
  pub src : f.header.src ≡ n.ethernet_address
  pub type : f.header.type ≡ 0x0806
  pub message :
      Arp.serialize (record {
        hardware_type = 1;
        protocol_type = 0x0800;
        hardware_address_size = 6;
        protocol_address_size = 4;
        opcode = 1;
        sender_ethernet_address = n.ethernet_address;
        sender_ip_address = n.ip_address;
        target_ethernet_address = record { b0 = 0; b1 = 0; b2 = 0; b3 = 0; b4 = 0; b5 = 0 };
        target_ip_address = ip;
      })
      ≡ some f.payload

-- What holds after a request for `ip` went out with `dgram` waiting.
pub record Requested (n : NetworkInterface) (ip : ℕ) (dgram : Ipv4Datagram) (n' : NetworkInterface)
    : Type 0 where
  pub asking : EthernetFrame
  pub asks : Asks n ip asking
  pub sent : n'.frames_out ≡ n.frames_out ++ asking ∷ []
  pub waits : lookup ip n'.waiting_list ≡ some dgram
  pub timed : lookup ip n'.time_since_req_send ≡ some 0
  pub uncached : n'.ip_mac_cache ≡ n.ip_mac_cache
  pub address : n'.ethernet_address ≡ n.ethernet_address

same_key : (k : ℕ) → (k == k) ≡ true
same_key k = (==_iff k k).1 refl

requested :
    (n : NetworkInterface) (ip : ℕ) (dgram : Ipv4Datagram) (payload : List ℕ)
    → Arp.serialize (request ip n) ≡ some payload
    → (n' : NetworkInterface) × (send_request dgram ip (some payload) n ≡ some n')
      × Requested n ip dgram n'
requested n ip dgram payload e = (
  _,
  refl,
  record {
    asking = frame broadcast n.ethernet_address type_arp payload;
    asks = record { dst = refl; src = refl; type = refl; message = e };
    sent = refl;
    waits = rw (lookup-insert before ip ip dgram n.waiting_list, same_key ip) refl;
    timed = rw (lookup-insert before ip ip 0 n.time_since_req_send, same_key ip) refl;
    uncached = refl;
    address = refl;
  },
)

serialized :
    (n : NetworkInterface) (ip : ℕ)
    → (payload : List ℕ) × (Arp.serialize (request ip n) ≡ some payload)
unfolding Arp.serialize
serialized n ip = (_, refl)

first :
    (d : Ipv4Datagram) (ip : ℕ) (n : NetworkInterface)
    → lookup ip n.ip_mac_cache ≡ none
    → lookup ip n.waiting_list ≡ none
    → send_datagram d ip n ≡ send_request d ip (Arp.serialize (request ip n)) n
unfolding send_datagram send_unknown
first d ip n unknown idle = rw (unknown, send_datagram, idle, send_unknown) refl

again :
    (d later : Ipv4Datagram) (ip : ℕ) (n : NetworkInterface)
    → lookup ip n.ip_mac_cache ≡ none
    → lookup ip n.waiting_list ≡ some d
    → lookup ip n.time_since_req_send ≡ some 0
    → send_datagram later ip n ≡ some n
unfolding send_datagram send_unknown send_again
again d later ip n u w t = rw (u, send_datagram, w, send_unknown, t, send_again) refl

-- The first datagram for an address that is neither cached nor being resolved goes into the waiting
-- list, and one frame goes out: a broadcast ARP request from the interface that asks for the address.
-- Another datagram for it before time passes changes nothing.
pub asks_once :
    (d later : Ipv4Datagram) (ip : ℕ) (n : NetworkInterface)
    → lookup ip n.ip_mac_cache ≡ none
    → lookup ip n.waiting_list ≡ none
    → (n' : NetworkInterface) × (send_datagram d ip n ≡ some n')
      × Requested n ip d n'
      × (send_datagram later ip n' ≡ some n')
asks_once d later ip n unknown idle =
    let (payload, e) = serialized n ip in
    let (n', went, r) = requested n ip d payload e in
    (
      n',
      first d ip n unknown idle ∙ ap (λ o. send_request d ip o n) e ∙ went,
      r,
      again d later ip n' (ap (lookup ip) r.uncached ∙ unknown) r.waits r.timed,
    )

-- A frame that carries a serialized datagram from the interface.
pub record Delivers (n : NetworkInterface) (dst : EthernetAddress) (bytes : List ℕ)
    (f : EthernetFrame) : Type 0 where
  pub to : f.header.dst ≡ dst
  pub from : f.header.src ≡ n.ethernet_address
  pub type : f.header.type ≡ 0x0800
  pub payload : f.payload ≡ bytes

released :
    (src : EthernetAddress) (m : ArpMessage) (d : Ipv4Datagram) (bytes : List ℕ)
    (n : NetworkInterface)
    → m.opcode ≡ opcode_reply
    → lookup m.sender_ip_address n.waiting_list ≡ some d
    → Ipv4Datagram.serialize d ≡ some bytes
    → receive_arp src m n
      ≡ some (
          learn m (
            push_frame
              (frame m.sender_ethernet_address n.ethernet_address type_ipv4 bytes)
              (record n {
                waiting_list = erase m.sender_ip_address n.waiting_list;
                time_since_req_send = erase m.sender_ip_address n.time_since_req_send;
                reqs = erase m.sender_ip_address n.reqs;
              })))
unfolding receive_arp receive_reply
released src m d bytes n reply waits fits = rw (reply, waits, receive_reply, fits) refl

known :
    (d : Ipv4Datagram) (ip : ℕ) (dst : EthernetAddress) (bytes : List ℕ) (n : NetworkInterface)
    → lookup ip n.ip_mac_cache ≡ some dst
    → Ipv4Datagram.serialize d ≡ some bytes
    → send_datagram d ip n ≡ some (push_frame (frame dst n.ethernet_address type_ipv4 bytes) n)
unfolding send_datagram
known d ip dst bytes n cached fits = rw (send_datagram, cached, fits) refl

-- Let a datagram that serializes be sent to an address that is neither cached nor being resolved, and an
-- ARP reply come from that address. After the request, the one frame that goes out then carries the
-- datagram from the interface to the Ethernet address of the reply, and another datagram for the address
-- that serializes goes there at once, in one frame too, with no further request.
pub reply_releases :
    (src : EthernetAddress) (m : ArpMessage) (d later : Ipv4Datagram) (bytes later_bytes : List ℕ)
    (n : NetworkInterface)
    → lookup m.sender_ip_address n.ip_mac_cache ≡ none
    → lookup m.sender_ip_address n.waiting_list ≡ none
    → m.opcode ≡ 2
    → Ipv4Datagram.serialize d ≡ some bytes
    → Ipv4Datagram.serialize later ≡ some later_bytes
    → (n1 n2 n3 : NetworkInterface) × (asking carrying next : EthernetFrame) × (send_datagram d
          m.sender_ip_address n
        ≡ some n1)
      × (receive_arp src m n1 ≡ some n2)
      × (send_datagram later m.sender_ip_address n2 ≡ some n3)
      × (n3.frames_out ≡ ((n.frames_out ++ asking ∷ []) ++ carrying ∷ []) ++ next ∷ [])
      × Asks n m.sender_ip_address asking
      × Delivers n m.sender_ethernet_address bytes carrying
      × Delivers n m.sender_ethernet_address later_bytes next
unfolding learn
reply_releases src m d later bytes later_bytes n unknown idle reply fits later_fits =
    let ip = m.sender_ip_address in
    let (n1, went, r, _) = asks_once d later ip n unknown idle in
    let carrying = frame m.sender_ethernet_address n1.ethernet_address type_ipv4 bytes in
    let n2 : NetworkInterface = learn m (
      push_frame carrying (record n1 {
        waiting_list = erase ip n1.waiting_list;
        time_since_req_send = erase ip n1.time_since_req_send;
        reqs = erase ip n1.reqs;
      })) in
    let next = frame m.sender_ethernet_address n1.ethernet_address type_ipv4 later_bytes in
    let cached : lookup ip n2.ip_mac_cache ≡ some m.sender_ethernet_address =
      rw (lookup-insert before ip ip m.sender_ethernet_address n1.ip_mac_cache, same_key ip) refl in
    (
      n1,
      n2,
      push_frame next n2,
      r.asking,
      carrying,
      next,
      went,
      released src m d bytes n1 reply r.waits fits,
      known later ip m.sender_ethernet_address later_bytes n2 cached later_fits,
      ap (λ l. (l ++ carrying ∷ []) ++ next ∷ []) r.sent,
      r.asks,
      record { to = refl; from = r.address; type = refl; payload = refl },
      record { to = refl; from = r.address; type = refl; payload = refl },
    )
