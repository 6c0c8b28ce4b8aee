-- ===== src/Wire/TcpHeader/Flags.antt =====
-- The flag byte of a TCP header: each flag is read back from the bit that it was written to.
use cs144_intro2network.Prelude.{
  ℕ, Bool, true, ◌≡◌, ◌<◌, ltb, ◌&&◌, &&-split, both, both_sound, same, same_sound, refl, arith,
}
use cs144_intro2network.Wire.TcpHeader.{TcpHeader, has_bit, flags, default}

-- Each flag has its bit.
abbrev pub Flagged : Bool → Bool → Bool → Bool → Bool → Bool → ℕ → Type 0
Flagged urg ack psh rst syn fin fl =
    (fl < 256)
    × (has_bit fl 32 ≡ urg)
    × (has_bit fl 16 ≡ ack)
    × (has_bit fl 8 ≡ psh)
    × (has_bit fl 4 ≡ rst)
    × (has_bit fl 2 ≡ syn)
    × (has_bit fl 1 ≡ fin)

flagged : Bool → Bool → Bool → Bool → Bool → Bool → Bool
unfolding same
flagged urg ack psh rst syn fin =
    let fl =
      flags (record default { urg = urg; ack = ack; psh = psh; rst = rst; syn = syn; fin = fin }) in
    ltb fl 256
    && (same (has_bit fl 32) urg
        && (same (has_bit fl 16) ack
            && (same (has_bit fl 8) psh
                && (same (has_bit fl 4) rst
                    && (same (has_bit fl 2) syn && same (has_bit fl 1) fin)))))

all_flagged :
    both (λ a. both (λ b. both (λ c. both (λ d. both (λ e. both (λ f. flagged a b c d e f))))))
    ≡ true
unfolding both flagged
all_flagged = refl

split :
    (a b c d e f g : Bool)
    → (a && (b && (c && (d && (e && (f && g)))))) ≡ true
    → (a ≡ true) × (b ≡ true) × (c ≡ true) × (d ≡ true) × (e ≡ true) × (f ≡ true) × (g ≡ true)
split a b c d e f g t =
    let (ha, t1) = &&-split a (b && (c && (d && (e && (f && g))))) t in
    let (hb, t2) = &&-split b (c && (d && (e && (f && g)))) t1 in
    let (hc, t3) = &&-split c (d && (e && (f && g))) t2 in
    let (hd, t4) = &&-split d (e && (f && g)) t3 in
    let (he, t5) = &&-split e (f && g) t4 in
    let (hf, hg) = &&-split f g t5 in (ha, hb, hc, hd, he, hf, hg)

ltb_lt : (m n : ℕ) → ltb m n ≡ true → m < n
ltb_lt m n h = ground arith

pub flags-Flagged : (h : TcpHeader) → Flagged h.urg h.ack h.psh h.rst h.syn h.fin (flags h)
unfolding flagged
flags-Flagged h =
    let fl : ℕ = flags h in
    let t1 =
      both_sound
        (λ a. both (λ b. both (λ c. both (λ d. both (λ e. both (λ f. flagged a b c d e f))))))
        all_flagged h.urg in
    let t2 =
      both_sound (λ b. both (λ c. both (λ d. both (λ e. both (λ f. flagged h.urg b c d e f))))) t1
        h.ack in
    let t3 =
      both_sound (λ c. both (λ d. both (λ e. both (λ f. flagged h.urg h.ack c d e f)))) t2 h.psh in
    let t4 = both_sound (λ d. both (λ e. both (λ f. flagged h.urg h.ack h.psh d e f))) t3 h.rst in
    let t5 = both_sound (λ e. both (λ f. flagged h.urg h.ack h.psh h.rst e f)) t4 h.syn in
    let t6 = both_sound (λ f. flagged h.urg h.ack h.psh h.rst h.syn f) t5 h.fin in
    let (x, b32, b16, b8, b4, b2, b1) =
      split (ltb fl 256) (same (has_bit fl 32) h.urg) (same (has_bit fl 16) h.ack)
        (same (has_bit fl 8) h.psh) (same (has_bit fl 4) h.rst) (same (has_bit fl 2) h.syn)
        (same (has_bit fl 1) h.fin) t6 in
    (
      ltb_lt fl 256 x,
      same_sound (has_bit fl 32) h.urg b32,
      same_sound (has_bit fl 16) h.ack b16,
      same_sound (has_bit fl 8) h.psh b8,
      same_sound (has_bit fl 4) h.rst b4,
      same_sound (has_bit fl 2) h.syn b2,
      same_sound (has_bit fl 1) h.fin b1,
    )
