-- ===== src/Reassembler/Slice.antt =====
-- Excerpts of one byte stream: what the strings pushed into a reassembler are meant to be.
use cs144_intro2network.Prelude.{
  ℕ, ◌+◌, ◌-◌, ◌≤◌, ◌≡◌, sym, ap, ◌∙◌, List, ◌++◌, arith, length, take, drop, length-append,
  length-take, length-drop, take-take, drop-take, drop-drop, take_add, drop-append_le, take_all,
  take-append_le,
}

-- `d` is the part of `s` that begins at index `i`.
pub record AgreesAt (s : List ℕ) (i : ℕ) (d : List ℕ) : Type 0 where
  pub fits : i + length d ≤ length s
  pub same : take (length d) (drop i s) ≡ d

module _ (s : List ℕ) (i : ℕ) (d : List ℕ) (h : AgreesAt s i d) where
  pub AgreesAt-take : (n : ℕ) → AgreesAt s i (take n d)
  AgreesAt-take n =
      let l = length-take n d in
      record {
        fits = omega (arith, l, h.fits);
        same =
            ap (λ k. take k (drop i s)) l
            ∙ sym (take-take n (length d) (drop i s))
            ∙ ap (take n) h.same;
      }

  pub AgreesAt-drop : (n : ℕ) → n ≤ length d → AgreesAt s (i + n) (drop n d)
  AgreesAt-drop n le =
      let l = length-drop n d in
      record {
        fits = omega (arith, l, h.fits);
        same =
            ap (λ k. take k (drop (i + n) s)) l
            ∙ ap (take (length d - n)) (sym (drop-drop n i s))
            ∙ sym (drop-take n (length d) (drop i s))
            ∙ ap (drop n) h.same;
      }

  pub AgreesAt-append : (e : List ℕ) → AgreesAt s (i + length d) e → AgreesAt s i (d ++ e)
  AgreesAt-append e g =
      let l = length-append d e in
      record {
        fits = omega (arith, l, g.fits);
        same =
            ap (λ k. take k (drop i s)) l
            ∙ take_add (length d) (length e) (drop i s)
            ∙ ap (λ k. take (length d) (drop i s) ++ take (length e) k) (drop-drop (length d) i s)
            ∙ ap (λ k. k ++ take (length e) (drop (i + length d) s)) h.same
            ∙ ap (◌++◌ d) g.same;
      }

-- An excerpt of a text is one of any longer text.
pub AgreesAt-longer :
    (s more : List ℕ) (i : ℕ) (d : List ℕ) → AgreesAt s i d → AgreesAt (s ++ more) i d
AgreesAt-longer s more i d h =
    let l = length-append s more in
    record {
      fits = omega (arith, l, h.fits);
      same =
          ap (take (length d)) (drop-append_le i s more (omega (arith, h.fits)))
          ∙ take-append_le (length d) (drop i s) more (omega (arith, length-drop i s, h.fits))
          ∙ h.same;
    }

-- The text after any point agrees with itself.
pub AgreesAt-next : (s : List ℕ) (i n : ℕ) → i ≤ length s → AgreesAt s i (take n (drop i s))
AgreesAt-next s i n le =
    let l = length-take n (drop i s) in
    let m = length-drop i s in
    record {
      fits = omega (arith, l, m);
      same =
          ap (λ k. take k (drop i s)) l
          ∙ sym (take-take n (length (drop i s)) (drop i s))
          ∙ ap (take n) (take_all (length (drop i s)) (drop i s) (omega arith));
    }
