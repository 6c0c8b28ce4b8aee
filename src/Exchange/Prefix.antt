-- ===== src/Exchange/Prefix.antt =====
-- Two connections hear prefixes of each other's texts.
use cs144_intro2network.Prelude.{
  ℕ, List, [], ◌∷◌, Option, none, some, refl, ◌++◌, ◌+◌, ◌*◌, ◌<◌, ◌≤◌, ◌≡◌, length, u32_mod, subst,
  ◌^◌, sym, ◌∙◌, arith, take, get_elem?, replicate, length-replicate, inl, u64_mod,
}
use cs144_intro2network.ByteStream
use cs144_intro2network.ByteStream.Text.{Wrote}
use cs144_intro2network.TcpReceiver.Delivery.{Receives}
use cs144_intro2network.TcpConnection.Text.{Utters}
use cs144_intro2network.Transfer.Padding.{Every-get, hears_prefix}
use cs144_intro2network.Exchange.{
  Endpoint, Config, IsConfig, start, World, world, Event, ours, theirs, to_us, to_them, call,
  deliver, step, run, with_us, with_them,
}
use cs144_intro2network.Exchange.Endpoints.{
  Holds, HoldsAfter, more-Holds, call-Holds, deliver-Holds,
}

module _ (a b pad : List ℕ) (limit isn peer_isn : ℕ)
    (small : length a + length b + limit + 1 < 2 ^ 31) (padded : length pad ≡ limit)
    (raw : isn < u32_mod) (peer_raw : peer_isn < u32_mod) (fits_a : length a + limit < u32_mod)
    (fits_b : length b + limit < u32_mod) where
  -- Each end keeps to its text and hears the other's.
  record Together (bound : ℕ) (w : World) : Type 0 where
    us : Holds a limit isn fits_a b pad peer_isn bound w.us
    them : Holds b limit peer_isn fits_b a pad isn bound w.them

  abbrev TogetherAfter : ℕ → Option World → Type 0
  TogetherAfter bound none = ⊥
  TogetherAfter bound (some w) = Together bound w

  with_us-Together :
      (bound : ℕ) (w : World) (o : Option Endpoint)
      → Together bound w
      → HoldsAfter a limit isn fits_a b pad peer_isn (bound + 2) o
      → TogetherAfter (bound + 2) (with_us w o)
  with_us-Together bound w none t h = h
  with_us-Together bound w (some e) t h = record {
    us = h;
    them = more-Holds b limit peer_isn fits_b a pad isn bound w.them t.them;
  }

  with_them-Together :
      (bound : ℕ) (w : World) (o : Option Endpoint)
      → Together bound w
      → HoldsAfter b limit peer_isn fits_b a pad isn (bound + 2) o
      → TogetherAfter (bound + 2) (with_them w o)
  with_them-Together bound w none t h = h
  with_them-Together bound w (some e) t h = record {
    us = more-Holds a limit isn fits_a b pad peer_isn bound w.us t.us;
    them = h;
  }

  step-Together :
      (bound : ℕ) (e : Event) (w : World)
      → bound + 2 + length a + length b ≤ limit
      → Together bound w
      → TogetherAfter (bound + 2) (step a b e w)
  unfolding step
  step-Together bound (ours c) w room t =
      with_us-Together bound w (call a c w.us) t
        (call-Holds a limit isn fits_a b pad peer_isn bound c w.us (omega arith) t.us)
  step-Together bound (theirs c) w room t =
      with_them-Together bound w (call b c w.them) t
        (call-Holds b limit peer_isn fits_b a pad isn bound c w.them (omega arith) t.them)
  step-Together bound (to_us i) w room t =
      let o = get_elem? w.them.sent i in
      with_us-Together bound w (deliver o w.us) t (
        deliver-Holds a limit isn fits_a b pad peer_isn limit fits_b bound o w.us
          (omega (arith, small)) padded peer_raw (omega arith)
          (λ seg e. Every-get (Utters b limit peer_isn fits_b) w.them.sent i seg t.them.sent e)
          t.us)
  step-Together bound (to_them i) w room t =
      let o = get_elem? w.us.sent i in
      with_them-Together bound w (deliver o w.them) t (
        deliver-Holds b limit peer_isn fits_b a pad isn limit fits_a bound o w.them
          (omega (arith, small)) padded raw (omega arith)
          (λ seg e. Every-get (Utters a limit isn fits_a) w.us.sent i seg t.us.sent e) t.them)

  -- What each end has heard is consistent with the padded text of the other.
  abbrev Hears : World → Type 0
  Hears w =
      Receives (b ++ pad) w.us.heard peer_isn w.us.connection.receiver
      × Receives (a ++ pad) w.them.heard isn w.them.connection.receiver

  run-Together :
      (bound : ℕ) (events : List Event) (w : World)
      → bound + 2 * length events + length a + length b ≤ limit
      → Together bound w
      → (w' : World) × (run a b events w ≡ some w') × Hears w'
  unfolding run
  run-Together bound [] w room t = (w, refl, (t.us.talks.hears, t.them.talks.hears))
  run-Together bound (e ∷ events) w room t =
      (elim (step a b e w)
          as (λ o.
            TogetherAfter (bound + 2) o
            → (w' : World) × ((elim o [ none ↦ none | some v ↦ run a b events v ]) ≡ some w')
              × Hears w') [
                | none ↦ λ f. absurd f
                | some v ↦ λ f. run-Together (bound + 2) events v (omega arith) f
              ])
        (step-Together bound e w (omega arith) t)

empty_stream :
    (s : List ℕ) (capacity : ℕ) → capacity < u64_mod → Wrote s [] (ByteStream.init capacity)
empty_stream s capacity h = record {
  held = record { fits = omega arith; same = refl };
  counted = refl;
  within = omega arith;
  representable = h;
}

start-Holds :
    (text : List ℕ) (limit : ℕ) (config : Config) (small : length text + limit < u32_mod)
    (peer pad : List ℕ) (peer_isn : ℕ)
    → IsConfig config
    → Holds text limit config.isn small peer pad peer_isn 0 (start config)
start-Holds text limit config small peer pad peer_isn valid = record {
  talks = record {
    speaks = record {
      sender = inl (record {
        stream = empty_stream text config.send_capacity valid.send;
        initial = refl;
        number = refl;
        over = inl refl;
        probe_fin = λ h. cc;
        emits = record { queued = tt; kept = tt; probe = λ h. cc; probe_syn = refl };
      });
      fresh = λ _. (refl, refl);
      out = tt;
    };
    hears = record {
      numbered = λ h. cc;
      consistent = record {
        output = empty_stream (peer ++ pad) config.recv_capacity valid.recv;
        waiting = tt;
      };
    };
    answered = λ h. cc;
  };
  sent = tt;
}

-- The application of an end has had, or can read, the beginning of the other's text.
pub HearsPrefix : List ℕ → Endpoint → Type 0
HearsPrefix text e =
    let o = e.connection.receiver.reassembler.output in
    (o.written ≤ length text) × (e.heard ++ o.buffer ≡ take o.written text)

-- Two connections start from configurations with fields in the range of their types. At either end the
-- application connects (unless it has sent something), writes the next bytes of its text, ends its stream
-- (and writes nothing after it) and reads, time passes, and what is queued goes out, in any order; the
-- network delivers to an end anything that the other has sent: some of it never, some often, some late.
-- If twice the sum of the lengths of the two texts and of the number of events, plus 1, is below 2^31,
-- every call returns, and at each end the bytes that the application has had followed by those buffered
-- for it are the first `bytes_written()` bytes of the other's text.
pub exchange-HearsPrefix :
    (a b : List ℕ) (us them : Config) (events : List Event)
    → IsConfig us
    → IsConfig them
    → 2 * (length a + length b + length events) + 1 < 2 ^ 31
    → (w : World) × (run a b events (world us them) ≡ some w)
      × HearsPrefix b w.us
      × HearsPrefix a w.them
unfolding HearsPrefix
exchange-HearsPrefix a b us them events valid peer_valid small =
    let (w, e, (h, k)) = padded_run 0 in
    let (v, f, (h', k')) = padded_run 1 in
    let same : some v ≡ some w = sym f ∙ e in
    let same_world : v ≡ w = cc in
    (
      w,
      e,
      hears_prefix b w.us.heard limit them.isn w.us.connection.receiver h (
          subst
            (λ (u : World).
              Receives (b ++ replicate limit 1) u.us.heard them.isn u.us.connection.receiver)
            same_world h'),
      hears_prefix a w.them.heard limit us.isn w.them.connection.receiver k (
          subst
            (λ (u : World).
              Receives (a ++ replicate limit 1) u.them.heard us.isn u.them.connection.receiver)
            same_world k'),
    )
  where
    limit : ℕ
    limit = length a + length b + 2 * length events

    padded_run :
        (x : ℕ)
        → (w : World) × (run a b events (world us them) ≡ some w)
          × (Receives (b ++ replicate limit x) w.us.heard them.isn w.us.connection.receiver
              × Receives (a ++ replicate limit x) w.them.heard us.isn w.them.connection.receiver)
    padded_run x =
        let pad = replicate limit x in
        let padded = length-replicate limit x in
        let fits : length a + length b + limit + 1 < 2 ^ 31 = omega (arith, small) in
        let fits_a : length a + limit < u32_mod = omega (arith, fits) in
        let fits_b : length b + limit < u32_mod = omega (arith, fits) in
        run-Together a b pad limit us.isn them.isn fits padded valid.number peer_valid.number fits_a
          fits_b 0 events (world us them) (omega arith)
          (record {
            us = start-Holds a limit us fits_a b pad them.isn valid;
            them = start-Holds b limit them fits_b a pad us.isn peer_valid;
          })
