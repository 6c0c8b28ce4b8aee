-- ===== src/Tests/Network.antt =====
-- Checksums, frames, buffers, the interface and the router at concrete inputs.
use cs144_intro2network.Prelude.{
  refl, ℕ, List, [], ◌∷◌, arith, ◌++◌, false, ◌≡◌, none, some, ◌+◌, Option, true, ◌↔◌, ◌/◌, ◌^◌,
}
use cs144_intro2network.Wire.Checksum
use cs144_intro2network.Wire.Checksum.{InternetChecksum, fold, add}
use cs144_intro2network.Wire.Checksum.Verify.{value_verifies}
use cs144_intro2network.Wire.Parser.{no_error}
use cs144_intro2network.Wire.TcpHeader
use cs144_intro2network.Wire.TcpSegment
use cs144_intro2network.Wire.Ethernet.{EthernetAddress, EthernetFrame, parse, serialize, broadcast}
use cs144_intro2network.Wire.Ethernet.RoundTrip.{parse-serialize}
use cs144_intro2network.Wire.Ipv4Header
use cs144_intro2network.Wire.Ipv4Datagram
use cs144_intro2network.Wire.Ipv4Datagram.{Ipv4Datagram}
use cs144_intro2network.Wire.Arp
use cs144_intro2network.Wire.Arp.{ArpMessage, opcode_reply}
use cs144_intro2network.Prelude.Map.{lookup}
use cs144_intro2network.NetworkInterface
use cs144_intro2network.NetworkInterface.{NetworkInterface, send_datagram, receive_arp, frame}
use cs144_intro2network.NetworkInterface.Resolve.{
  Asks, Delivers, Requested, asks_once, reply_releases,
}
use cs144_intro2network.Router.{RoutingTableEntry, longest_match}
use cs144_intro2network.Router.LongestPrefix.{Finds, longest_match-Finds}
use cs144_intro2network.Buffer
use cs144_intro2network.Buffer.{Buffer}
use cs144_intro2network.Buffer.Contents.{contents, Discards, AllValid, list_remove_prefix-Discards}
use cs144_intro2network.Router.{matches}
use cs144_intro2network.Router.Match.{matches_iff}
use cs144_intro2network.Wire.TcpHeader
use cs144_intro2network.Wire.TcpHeader.{TcpHeader}
use cs144_intro2network.Wire.TcpHeader.RoundTrip.{IsHeader}
use cs144_intro2network.Wire.TcpSegment
use cs144_intro2network.Wire.TcpSegment.{TcpSegment, with_cksum}
use cs144_intro2network.Wire.TcpSegment.RoundTrip.{parse-serialize_segment}

abbrev large_sum : InternetChecksum
large_sum = record { sum = 0x2f3a1; parity = false }

value_verifies_example :
    ((r : ℕ) × (fold 3 large_sum.sum ≡ some r))
    × (Checksum.value (record large_sum { sum = large_sum.sum + Checksum.value large_sum }) ≡ 0)
value_verifies_example = value_verifies large_sum (omega arith)

abbrev route_to : ℕ → ℕ → RoutingTableEntry
route_to prefix_length interface_num = record {
  route_prefix = 0x0a000000;
  prefix_length = prefix_length;
  next_hop = none;
  interface_num = interface_num;
}

longest_match-Finds_example :
    Finds 0x0a000001
      (route_to 8 0 ∷ route_to 24 1 ∷ route_to 16 2 ∷ [])
      (longest_match 0x0a000001 none (route_to 8 0 ∷ route_to 24 1 ∷ route_to 16 2 ∷ []))
longest_match-Finds_example =
    longest_match-Finds 0x0a000001 (route_to 8 0 ∷ route_to 24 1 ∷ route_to 16 2 ∷ [])

abbrev station : EthernetAddress
station = record { b0 = 2; b1 = 0; b2 = 0; b3 = 94; b4 = 16; b5 = 255 }

abbrev test_frame : EthernetFrame
test_frame = record {
  header = record { dst = broadcast; src = station; type = 0x806 };
  payload = 1 ∷ 2 ∷ 3 ∷ [];
}

abbrev old_frame : EthernetFrame
old_frame = record { header = record { dst = station; src = station; type = 0 }; payload = [] }

parse-serialize_example : parse old_frame (serialize test_frame) ≡ (no_error, test_frame)
parse-serialize_example =
    parse-serialize test_frame old_frame
      (record {
        small0 = omega arith;
        small1 = omega arith;
        small2 = omega arith;
        small3 = omega arith;
        small4 = omega arith;
        small5 = omega arith;
      })
      (record {
        small0 = omega arith;
        small1 = omega arith;
        small2 = omega arith;
        small3 = omega arith;
        small4 = omega arith;
        small5 = omega arith;
      })
      (omega arith)

abbrev test_datagram : Ipv4Datagram
test_datagram = record {
  header = record Ipv4Header.default { len = 21; src = 1; dst = 2 };
  payload = 7 ∷ [];
}

abbrev idle : NetworkInterface
idle = NetworkInterface.init station 1

asks_once_example :
    (n : NetworkInterface) × (send_datagram test_datagram 2 idle ≡ some n)
    × Requested idle 2 test_datagram n
    × (send_datagram test_datagram 2 n ≡ some n)
asks_once_example =
    asks_once test_datagram test_datagram 2 idle (unfold lookup in refl) (unfold lookup in refl)

abbrev test_reply : ArpMessage
test_reply = record Arp.default {
  opcode = opcode_reply;
  sender_ip_address = 2;
  sender_ethernet_address = station;
  target_ip_address = 1;
}

abbrev or_empty : Option (List ℕ) → List ℕ
or_empty none = []
or_empty (some bytes) = bytes

abbrev datagram_bytes : List ℕ
datagram_bytes = or_empty (Ipv4Datagram.serialize test_datagram)

reply_releases_example :
    (n1 n2 n3 : NetworkInterface) × (asking carrying next : EthernetFrame) × (send_datagram
        test_datagram 2 idle
      ≡ some n1)
    × (receive_arp station test_reply n1 ≡ some n2)
    × (send_datagram test_datagram 2 n2 ≡ some n3)
    × (n3.frames_out ≡ (([] ++ asking ∷ []) ++ carrying ∷ []) ++ next ∷ [])
    × Asks idle 2 asking
    × Delivers idle station datagram_bytes carrying
    × Delivers idle station datagram_bytes next
reply_releases_example =
    reply_releases station test_reply test_datagram test_datagram datagram_bytes datagram_bytes idle
      (unfold lookup in refl) (unfold lookup in refl) refl (unfold Ipv4Datagram.serialize in refl)
      (unfold Ipv4Datagram.serialize in refl)

-- The first byte of the first piece has been discarded.
abbrev pieces : List Buffer
pieces =
    record { storage = some (1 ∷ 2 ∷ 3 ∷ []); starting_offset = 1 }
    ∷ Buffer.empty
    ∷ Buffer.of_string (4 ∷ 5 ∷ [])
    ∷ []

pieces-AllValid : AllValid pieces
pieces-AllValid = ((omega arith, omega arith), (tt, ((omega arith, omega arith), tt)))

list_remove_prefix-Discards_example :
    Discards 3 (contents pieces) (Buffer.list_remove_prefix 3 pieces)
list_remove_prefix-Discards_example = list_remove_prefix-Discards 3 pieces pieces-AllValid

matches_iff_example :
    (matches 0x0a000102 0x0a000000 8 ≡ true) ↔ (0x0a000102 / 2 ^ 24 ≡ 0x0a000000 / 2 ^ 24)
matches_iff_example = matches_iff 0x0a000102 0x0a000000 8 (omega arith) (omega arith) (omega arith)

-- Two words of options, and three flags.
abbrev test_header : TcpHeader
test_header = record TcpHeader.default {
  sport = 80;
  dport = 43210;
  seqno = 4294967295;
  doff = 7;
  ack = true;
  syn = true;
  fin = true;
  win = 65535;
}

test_header-IsHeader : IsHeader test_header
test_header-IsHeader = record {
  sport_fits = omega arith;
  dport_fits = omega arith;
  seqno_fits = omega arith;
  ackno_fits = omega arith;
  doff_fits = omega arith;
  doff_long = omega arith;
  win_fits = omega arith;
  cksum_fits = omega arith;
  uptr_fits = omega arith;
}

abbrev test_segment : TcpSegment
test_segment = record { header = test_header; payload = 7 ∷ 255 ∷ 3 ∷ [] }

parse-serialize_segment_example :
    (bytes : List ℕ) × (TcpSegment.serialize test_segment 0x1234 ≡ some bytes)
    × (c : ℕ) × (TcpSegment.parse TcpSegment.default bytes 0x1234
        ≡ (no_error, record test_segment { header = with_cksum c test_header }))
parse-serialize_segment_example =
    parse-serialize_segment TcpSegment.default test_segment 0x1234 test_header-IsHeader
      (omega arith, (omega arith, (omega arith, tt))) (omega arith) (omega arith)
