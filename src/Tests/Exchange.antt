-- ===== src/Tests/Exchange.antt =====
-- Two connections on a small run.
use cs144_intro2network.Prelude.{List, [], ◌∷◌, some, ◌≡◌, arith}
use cs144_intro2network.Exchange.{
  Config, World, world, Event, ours, theirs, to_us, to_them, connects, writes, ends, ticks,
  transmits, reads, run,
}
use cs144_intro2network.Exchange.Prefix.{HearsPrefix, exchange-HearsPrefix}

abbrev small : Config
small = record { rt_timeout = 1000; recv_capacity = 8; send_capacity = 8; isn = 17 }

-- Both ends give their texts; the second segment of ours is lost once and a SYN comes twice.
abbrev meeting : List Event
meeting =
    ours connects
    ∷ ours transmits
    ∷ to_them 0
    ∷ theirs transmits
    ∷ to_us 0
    ∷ to_us 0
    ∷ ours (writes 2)
    ∷ ours (writes 5)
    ∷ ours ends
    ∷ ours transmits
    ∷ to_them 2
    ∷ to_them 3
    ∷ theirs (writes 1)
    ∷ theirs transmits
    ∷ ours (ticks 1000)
    ∷ ours transmits
    ∷ to_us 1
    ∷ to_us 2
    ∷ to_them 1
    ∷ to_them 2
    ∷ theirs (reads 2)
    ∷ theirs (reads 8)
    ∷ ours (reads 8)
    ∷ []

exchange-HearsPrefix_example :
    (w : World) × (run (5 ∷ 6 ∷ 7 ∷ []) (8 ∷ []) meeting (world small small) ≡ some w)
    × HearsPrefix (8 ∷ []) w.us
    × HearsPrefix (5 ∷ 6 ∷ 7 ∷ []) w.them
exchange-HearsPrefix_example =
    exchange-HearsPrefix (5 ∷ 6 ∷ 7 ∷ []) (8 ∷ []) small small meeting
      (record { number = omega arith; recv = omega arith; send = omega arith })
      (record { number = omega arith; recv = omega arith; send = omega arith }) (omega arith)
