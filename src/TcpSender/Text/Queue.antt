-- ===== src/TcpSender/Text/Queue.antt =====
-- What may become of the queue and the stream of a sender that keeps to a text.
use cs144_intro2network.Prelude.{ℕ, List, inl, inr, length, ◌+◌, ◌<◌, u32_mod, arith, ◌≤◌, []}
use cs144_intro2network.ByteStream.{set_error}
use cs144_intro2network.Wire.TcpSegment.{TcpSegment}
use cs144_intro2network.TcpSender.{TcpSender}
use cs144_intro2network.TcpSender.Emits.{Emits, Every}
use cs144_intro2network.TcpSender.Text.{Excerpt, Sends, with_stream-Emits}
use cs144_intro2network.TcpSender.Text.Calls.{Sending}

module _ (s : List ℕ) (limit isn : ℕ) (small : length s + limit < u32_mod) where
  pub Sending-Emits :
      (bound : ℕ) (t : TcpSender)
      → Sending s limit isn small bound t
      → Emits (Excerpt s limit isn) t
  Sending-Emits bound t (inl h) = h.emits
  Sending-Emits bound t (inr (gone, fins, le, h)) = h.emits

  pub Sending-written :
      (bound : ℕ) (t : TcpSender) → Sending s limit isn small bound t → t.stream.written ≤ length s
  Sending-written bound t (inl h) = omega (arith, h.stream.counted, h.stream.held.fits)
  Sending-written bound t (inr (gone, fins, le, h)) =
      omega (arith, h.stream.counted, h.stream.held.fits)

  pub more-Sending :
      (bound : ℕ) (t : TcpSender)
      → Sending s limit isn small bound t
      → Sending s limit isn small (bound + 1) t
  more-Sending bound t (inl h) = inl h
  more-Sending bound t (inr (gone, fins, le, h)) = inr (gone, fins, omega arith, h)

  requeue-Sends :
      (start : ℕ) (gone : List ℕ) (fins : ℕ) (t : TcpSender) (queue : List TcpSegment)
      → Every (Excerpt s limit isn) queue
      → Sends s limit isn start gone fins t
      → Sends s limit isn start gone fins (record t { segments_out = queue })
  requeue-Sends start gone fins t queue q h = record {
    stream = h.stream;
    initial = h.initial;
    number = h.number;
    over = h.over;
    probe_fin = h.probe_fin;
    emits = record {
      queued = q;
      kept = h.emits.kept;
      probe = h.emits.probe;
      probe_syn = h.emits.probe_syn;
    };
  }

  -- Any queue of excerpts will do.
  pub requeue-Sending :
      (bound : ℕ) (t : TcpSender) (queue : List TcpSegment)
      → Every (Excerpt s limit isn) queue
      → Sending s limit isn small bound t
      → Sending s limit isn small bound (record t { segments_out = queue })
  requeue-Sending bound t queue q (inl h) = inl (requeue-Sends 0 [] 0 t queue q h)
  requeue-Sending bound t queue q (inr (gone, fins, le, h)) =
      inr (gone, fins, le, requeue-Sends 1 gone fins t queue q h)

  set_error-Sends :
      (start : ℕ) (gone : List ℕ) (fins : ℕ) (t : TcpSender)
      → Sends s limit isn start gone fins t
      → Sends s limit isn start gone fins (record t { stream = set_error t.stream })
  unfolding set_error
  set_error-Sends start gone fins t h = record {
    stream = record {
      held = h.stream.held;
      counted = h.stream.counted;
      within = h.stream.within;
      representable = h.stream.representable;
    };
    initial = h.initial;
    number = h.number;
    over = h.over;
    probe_fin = h.probe_fin;
    emits =
        with_stream-Emits s limit isn small (Excerpt s limit isn) t (set_error t.stream) h.emits;
  }

  pub set_error-Sending :
      (bound : ℕ) (t : TcpSender)
      → Sending s limit isn small bound t
      → Sending s limit isn small bound (record t { stream = set_error t.stream })
  set_error-Sending bound t (inl h) = inl (set_error-Sends 0 [] 0 t h)
  set_error-Sending bound t (inr (gone, fins, le, h)) =
      inr (gone, fins, le, set_error-Sends 1 gone fins t h)
