-- ===== src/TuntapAdapter/Pending.antt =====
-- A `TCPOverIPv4OverEthernetAdapter` never keeps a frame back.
use mathlib.Core.List.{map}
use cs144_intro2network.Prelude.{
  Option, some, none, inl, inr, Option-cases, Bool-cases, subst, ◌≡◌, ℕ, List, [], ◌∷◌, ◌++◌, refl,
  sym, ◌∙◌, ap, append_assoc, append-nil, ◌≡◌,
}
use cs144_intro2network.Wire.TcpSegment.{TcpSegment}
use cs144_intro2network.Wire.Ipv4Datagram.{Ipv4Datagram}
use cs144_intro2network.Wire.Ethernet
use cs144_intro2network.Wire.Ethernet.{EthernetFrame}
use cs144_intro2network.NetworkInterface
use cs144_intro2network.NetworkInterface.{NetworkInterface, recv_frame, send_datagram}
use cs144_intro2network.TcpOverIp.{wrap_tcp_in_ip, unwrap_tcp_in_ip, in_one, whole}
use cs144_intro2network.Wire.Parser.{is_error}
use cs144_intro2network.TuntapAdapter.{
  give, default_frame, EthernetAdapter, send_frames, send_pending, read, write, tick,
}

send_frames_lem :
    (frames : List EthernetFrame) (e : EthernetAdapter)
    → send_frames frames e ≡ record e {
      tap = e.tap ++ map Ethernet.serialize frames;
      interface = record e.interface { frames_out = [] };
    }
unfolding send_frames
send_frames_lem [] e =
    ap
      (λ (t : List (List ℕ)). record e {
        tap = t;
        interface = record e.interface { frames_out = [] };
      })
      (sym (append-nil e.tap))
send_frames_lem (f ∷ frames) e =
    send_frames_lem frames (record e {
      tap = e.tap ++ Ethernet.serialize f ∷ [];
      interface = record e.interface { frames_out = frames };
    })
    ∙ ap
        (λ (t : List (List ℕ)). record e {
          tap = t;
          interface = record e.interface { frames_out = [] };
        })
        (append_assoc e.tap (Ethernet.serialize f ∷ []) (map Ethernet.serialize frames))

-- `send_pending` writes the queued frames to the device in order, and empties the queue.
send_pending_lem :
    (e : EthernetAdapter)
    → send_pending e ≡ record e {
      tap = e.tap ++ map Ethernet.serialize e.interface.frames_out;
      interface = record e.interface { frames_out = [] };
    }
send_pending_lem e = send_frames_lem e.interface.frames_out e

pub data Call : Type 0 where
  reads : List ℕ → Call
  writes : TcpSegment → Call
  ticks : ℕ → Call

abbrev snd_of {ℓ} : {A : Type ℓ} → Option (A × EthernetAdapter) → Option EthernetAdapter
snd_of none = none
snd_of (some (_, e)) = some e

-- A call; `none` if it throws.
unfoldable pub call : Call → EthernetAdapter → Option EthernetAdapter
unfolding read write tick
call (reads bytes) e = snd_of (read bytes e)
call (writes seg) e = snd_of (write seg e)
call (ticks ms) e = some (tick ms e)

unfoldable pub run : List Call → EthernetAdapter → Option EthernetAdapter
unfolding call
run [] e = some e
run (c ∷ calls) e = elim (call c e) [ none ↦ none | some e' ↦ run calls e' ]

-- The queue is empty, and the device has got what it had and possibly more.
abbrev pub Flushed : EthernetAdapter → Option EthernetAdapter → Type 0
Flushed old none = Unit
Flushed old (some e) =
    (e.interface.frames_out ≡ []) × ((more : List (List ℕ)) × (e.tap ≡ old.tap ++ more))

send_pending-Flushed :
    (e : EthernetAdapter) (n : NetworkInterface)
    → Flushed e (some (send_pending (record e { interface = n })))
send_pending-Flushed e n =
    subst (λ x. Flushed e (some x)) (sym (send_pending_lem (record e { interface = n })))
      (refl, (map Ethernet.serialize n.frames_out, refl))

give-Flushed :
    (old e : EthernetAdapter) (d : Option Ipv4Datagram)
    → Flushed old (some e)
    → Flushed old (snd_of (give d e))
unfolding give
give-Flushed old e none h = h
give-Flushed old e (some d) h = elim (Option-cases (unwrap_tcp_in_ip (in_one d) e.adapter)) [
  | inl throws ↦ rw (give, Flushed, throws) tt
  | inr ((seg, a), unwrapped) ↦ rw (give, Flushed, unwrapped) h
]

unchanged-Flushed : (e : EthernetAdapter) → e.interface.frames_out ≡ [] → Flushed e (some e)
unchanged-Flushed e h = (h, ([], sym (append-nil e.tap)))

read-Flushed :
    (bytes : List ℕ) (e : EthernetAdapter)
    → e.interface.frames_out ≡ []
    → Flushed e (snd_of (read bytes e))
unfolding read
read-Flushed bytes e h =
    let (r, f) = Ethernet.parse default_frame bytes in
    elim (Bool-cases (is_error r)) [
      | inl bad ↦ rw bad (unchanged-Flushed e h)
      | inr good ↦ elim (Option-cases (recv_frame f e.interface)) [
        | inl throws ↦ rw (good, throws) tt
        | inr (t, got) ↦
            rw (good, got)
              (give-Flushed e (send_pending (record e { interface = t.1 })) t.0
                (send_pending-Flushed e t.1))
      ]
    ]

write-Flushed : (seg : TcpSegment) (e : EthernetAdapter) → Flushed e (snd_of (write seg e))
unfolding write
write-Flushed seg e = elim (Option-cases (wrap_tcp_in_ip seg e.adapter)) [
  | inl throws ↦ rw (Flushed, throws) tt
  | inr (t, wrapped) ↦ elim (Option-cases (send_datagram (whole t.0) e.next_hop e.interface)) [
    | inl throws ↦ rw (Flushed, wrapped, throws) tt
    | inr (n, sent) ↦ rw (Flushed, wrapped, sent) (send_pending-Flushed e n)
  ]
]

call-Flushed : (c : Call) (e : EthernetAdapter) → e.interface.frames_out ≡ [] → Flushed e (call c e)
unfolding call tick
call-Flushed (reads bytes) e h = read-Flushed bytes e h
call-Flushed (writes seg) e h = write-Flushed seg e
call-Flushed (ticks ms) e h = send_pending-Flushed e (NetworkInterface.tick ms e.interface)

later-Flushed :
    (old e : EthernetAdapter) (o : Option EthernetAdapter)
    → Flushed old (some e)
    → Flushed e o
    → Flushed old o
later-Flushed old e none h g = tt
later-Flushed old e (some e') (empty, (more, h)) (empty', (more', g)) =
    (empty', (more ++ more', g ∙ ap (λ t. t ++ more') h ∙ append_assoc old.tap more more'))

-- From an adapter with no frame queued, no sequence of calls, until one throws, leaves a
-- frame queued; what is on the device stays there.
pub run-Flushed :
    (calls : List Call) (e : EthernetAdapter)
    → e.interface.frames_out ≡ []
    → Flushed e (run calls e)
unfolding run
run-Flushed [] e h = unchanged-Flushed e h
run-Flushed (c ∷ calls) e h = elim (Option-cases (call c e)) [
  | inl throws ↦ rw (Flushed, throws) tt
  | inr (e', q) ↦
      let now : Flushed e (some e') = subst (Flushed e) q (call-Flushed c e h) in
      rw (Flushed, q) (later-Flushed e e' (run calls e') now (run-Flushed calls e' now.0))
]
