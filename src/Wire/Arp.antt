-- ===== src/Wire/Arp.antt =====
-- libsponge/tcp_helpers/arp_message.hh and arp_message.cc.
use cs144_intro2network.Prelude.{
  ℕ, Bool, not, ◌&&◌, ◌||◌, Option, none, some, List, ◌++◌, length, ltb, ◌==◌, if◌then◌else◌,
}
use cs144_intro2network.Wire.Parser.{
  ParseResult, packet_too_short, unsupported, Parse, ◌>>=◌, start, parse_int, u8, u16, u32, put_u8,
  put_u16, put_u32,
}
use cs144_intro2network.Wire.Ethernet.{
  EthernetAddress, zero_address, get_address, put_address, type_ipv4,
}

abbrev pub opcode_request : ℕ
opcode_request = 1

abbrev pub opcode_reply : ℕ
opcode_reply = 2

pub record ArpMessage : Type 0 where
  pub hardware_type : ℕ
  pub protocol_type : ℕ
  pub hardware_address_size : ℕ
  pub protocol_address_size : ℕ
  pub opcode : ℕ
  pub sender_ethernet_address : EthernetAddress
  pub sender_ip_address : ℕ
  pub target_ethernet_address : EthernetAddress
  pub target_ip_address : ℕ

abbrev pub default : ArpMessage
default = record {
  hardware_type = 1;
  protocol_type = type_ipv4;
  hardware_address_size = 6;
  protocol_address_size = 4;
  opcode = 0;
  sender_ethernet_address = zero_address;
  sender_ip_address = 0;
  target_ethernet_address = zero_address;
  target_ip_address = 0;
}

abbrev pub supported : ArpMessage → Bool
supported m =
    m.hardware_type == 1
    && (m.protocol_type == type_ipv4
        && (m.hardware_address_size == 6
            && (m.protocol_address_size == 4
                && (m.opcode == opcode_request || m.opcode == opcode_reply))))

-- The five fields in front of the addresses.
unfoldable pub fields : ArpMessage → Parse ArpMessage
unfolding parse_int
fields m = do
  hardware_type ← u16
  protocol_type ← u16
  hardware_address_size ← u8
  protocol_address_size ← u8
  opcode ← u16
  λ p. (
    record m {
      hardware_type = hardware_type;
      protocol_type = protocol_type;
      hardware_address_size = hardware_address_size;
      protocol_address_size = protocol_address_size;
      opcode = opcode;
    },
    p,
  )

unfoldable pub addresses : ArpMessage → Parse ArpMessage
unfolding get_address parse_int
addresses m = do
  sender_ethernet_address ← get_address
  sender_ip_address ← u32
  target_ethernet_address ← get_address
  target_ip_address ← u32
  λ p. (
    record m {
      sender_ethernet_address = sender_ethernet_address;
      sender_ip_address = sender_ip_address;
      target_ethernet_address = target_ethernet_address;
      target_ip_address = target_ip_address;
    },
    p,
  )

-- `parse` into `m`, which an error leaves as far as it was read.
unfoldable pub parse : ArpMessage → List ℕ → ParseResult × ArpMessage
unfolding fields addresses
parse m buffer =
    if ltb (length buffer) 28
    then (packet_too_short, m)
    else (let (m', p) = fields m (start buffer) in
        if not (supported m')
        then (unsupported, m')
        else (let (m'', q) = addresses m' p in (q.get_error, m'')))

-- `none` where the source throws.
unfoldable pub serialize : ArpMessage → Option (List ℕ)
serialize m =
    if not (supported m)
    then none
    else some (
        put_u16 m.hardware_type
        ++ (put_u16 m.protocol_type
            ++ (put_u8 m.hardware_address_size
                ++ (put_u8 m.protocol_address_size
                    ++ (put_u16 m.opcode
                        ++ (put_address m.sender_ethernet_address
                            ++ (put_u32 m.sender_ip_address
                                ++ (put_address m.target_ethernet_address
                                    ++ put_u32 m.target_ip_address))))))))
