-- ===== src/Tests/Adapters.antt =====
-- The adapters and the event loop at concrete inputs.
use cs144_intro2network.Prelude.{ℕ, List, [], ◌∷◌, some, refl, true, false, ◌≡◌, arith, none}
use cs144_intro2network.Wire.TcpHeader
use cs144_intro2network.Wire.TcpSegment.{TcpSegment, with_cksum}
use cs144_intro2network.TcpOverIp.{
  InternetDatagram, in_one, whole, Endpoint, Adapter, ported, wrap_tcp_in_ip, unwrap_tcp_in_ip,
}
use cs144_intro2network.TcpOverIp.RoundTrip
use cs144_intro2network.TcpOverIp.RoundTrip.{IsSendable, peer, wrap-unwrap}
use cs144_intro2network.FdAdapter
use cs144_intro2network.FdAdapter.RoundTrip as UdpRoundTrip
use cs144_intro2network.FdAdapter.RoundTrip.{read-write}
use cs144_intro2network.TuntapAdapter
use cs144_intro2network.TuntapAdapter.{EthernetAdapter, send_pending}
use cs144_intro2network.TuntapAdapter.RoundTrip.{tun_read-tun_write}
use cs144_intro2network.TuntapAdapter.Pending
use cs144_intro2network.TuntapAdapter.Pending.{Call, Flushed, run-Flushed}

abbrev here : Endpoint
here = record { ip = 0x0a000001; port = 1000 }

abbrev there : Endpoint
there = record { ip = 0x0a000002; port = 80 }

abbrev ours : Adapter
ours = record { source = here; destination = there; listening = false }

abbrev syn_segment : TcpSegment
syn_segment = record {
  header = record TcpHeader.default { syn = true; seqno = 4294967295 };
  payload = 1 ∷ 2 ∷ [];
}

syn_segment-IsSendable : IsSendable ours syn_segment
syn_segment-IsSendable = record {
  source = record { ip_fits = omega arith; port_fits = omega arith };
  destination = record { ip_fits = omega arith; port_fits = omega arith };
  header = record {
    sport_fits = omega arith;
    dport_fits = omega arith;
    seqno_fits = omega arith;
    ackno_fits = omega arith;
    doff_fits = omega arith;
    doff_long = omega arith;
    win_fits = omega arith;
    cksum_fits = omega arith;
    uptr_fits = omega arith;
  };
  bytes = (omega arith, (omega arith, tt));
  short = omega arith;
}

abbrev received : ℕ → TcpSegment
received c = record (ported syn_segment ours) {
  header = with_cksum c (ported syn_segment ours).header;
}

wrap-unwrap_example :
    (d : InternetDatagram) × (wrap_tcp_in_ip syn_segment ours ≡ some (d, ported syn_segment ours))
    × (unwrap_tcp_in_ip d (peer ours) ≡ none)
    × (c : ℕ) × (unwrap_tcp_in_ip (in_one (whole d)) (peer ours)
        ≡ some (some (received c), peer ours))
    × (unwrap_tcp_in_ip (in_one (whole d)) (RoundTrip.listener ours 5 here)
        ≡ some (some (received c), peer ours))
wrap-unwrap_example = wrap-unwrap syn_segment ours 5 here syn_segment-IsSendable

read-write_example :
    (payload : List ℕ) × (FdAdapter.write syn_segment ours
      ≡ some (record { address = there; payload = payload }, ported syn_segment ours))
    × (c : ℕ) × (FdAdapter.read (record { address = here; payload = payload }) (peer ours)
        ≡ (some (received c), peer ours))
    × (FdAdapter.read
          (record { address = here; payload = payload })
          (UdpRoundTrip.listener ours there)
        ≡ (some (received c), peer ours))
read-write_example = read-write syn_segment ours there syn_segment-IsSendable

abbrev station : EthernetAdapter
station =
    TuntapAdapter.init ours (record { b0 = 2; b1 = 0; b2 = 0; b3 = 0; b4 = 0; b5 = 1 }) 0x0a000001
      0x0a000009

abbrev pending : EthernetAdapter
pending = record station {
  interface = record station.interface { frames_out = TuntapAdapter.default_frame ∷ [] };
}

abbrev adapter_calls : List Call
adapter_calls =
    Pending.writes syn_segment ∷ Pending.ticks 6000 ∷ Pending.reads (1 ∷ 2 ∷ 3 ∷ []) ∷ []

run-Flushed_example : Flushed station (Pending.run adapter_calls station)
run-Flushed_example = run-Flushed adapter_calls station (unfold TuntapAdapter.init in refl)

tun_read-tun_write_example :
    (bytes : List ℕ) × (TuntapAdapter.tun_write syn_segment ours
      ≡ some (bytes, ported syn_segment ours))
    × (c : ℕ) × (TuntapAdapter.tun_read bytes (peer ours) ≡ some (some (received c), peer ours))
tun_read-tun_write_example =
    tun_read-tun_write syn_segment ours syn_segment-IsSendable (omega arith)
