-- ===== src/FileDescriptor/Write.antt =====
-- `FileDescriptor::write` hands the whole buffer to the kernel, or throws.
use cs144_intro2network.Prelude.{
  ℕ, zero, suc, ◌+◌, ◌-◌, ◌<◌, ◌≤◌, ◌≡◌, ◌∙◌, sym, ap, refl, true, false, not, Bool-cases, ◌&&◌,
  some, List, [], ◌∷◌, ◌++◌, ◌==◌, u64_mod, add64, drop, take, arith, inl, inr, length-append, ltb,
  drop-append_le, append-nil, append_assoc, length-drop, take-append-drop, take_add, take_all, ◌⊎◌,
}
use cs144_intro2network.Buffer.{view_size, view_size_from, view_remove_prefix}
use cs144_intro2network.Buffer.Contents.{drop-append_past}
use cs144_intro2network.FileDescriptor.{
  Sys, returned, failed, Kernel, FdWrapper, done, threw, out_of_fuel, Returned, register_write,
  write_from, write, length,
}

-- The bytes that the views show.
abbrev pub viewed : List (List ℕ) → List ℕ
viewed [] = []
viewed (v ∷ vs) = v ++ viewed vs

view_size_from-viewed :
    (ret : ℕ) (vs : List (List ℕ))
    → ret + length (viewed vs) < u64_mod
    → view_size_from ret vs ≡ ret + length (viewed vs)
unfolding view_size_from
view_size_from-viewed ret [] h = omega arith
view_size_from-viewed ret (v ∷ vs) h =
    let l = length-append v (viewed vs) in
    let e : add64 ret (length v) ≡ ret + length v = omega (arith, h, l) in
    rw e (omega (arith, l, view_size_from-viewed (ret + length v) vs (omega (arith, h, l))))

pub view_size-viewed :
    (vs : List (List ℕ)) → length (viewed vs) < u64_mod → view_size vs ≡ length (viewed vs)
view_size-viewed vs h = view_size_from-viewed 0 vs (omega (arith, h)) ∙ omega arith

pub view_remove_prefix-viewed :
    (n : ℕ) (vs : List (List ℕ))
    → n ≤ length (viewed vs)
    → (left : List (List ℕ)) × (view_remove_prefix n vs ≡ some left)
      × (viewed left ≡ drop n (viewed vs))
unfolding view_remove_prefix
view_remove_prefix-viewed zero [] le = ([], refl, refl)
view_remove_prefix-viewed (suc n) [] le = absurd (omega (arith, le))
view_remove_prefix-viewed zero (v ∷ vs) le = (v ∷ vs, refl, refl)
view_remove_prefix-viewed (suc n) (v ∷ vs) le =
    let more : (suc n == 0) ≡ false = ground arith in
    let l = length-append v (viewed vs) in
    elim (Bool-cases (ltb (suc n) (length v))) [
      | inl inside ↦
          rw (more, inside)
            (_, refl, sym (drop-append_le (suc n) v (viewed vs) (ground (arith, inside))))
      | inr past ↦
          let fits : length v ≤ suc n = ground (arith, past) in
          let (left, e, shows) =
            view_remove_prefix-viewed (suc n - length v) vs (omega (arith, l, le)) in
          rw (more, past) (left, e, shows ∙ sym (drop-append_past (suc n) v (viewed vs) fits))
    ]

-- What a descriptor's file has taken, and what `writev` does to that: it takes the front of the bytes
-- that it is given, as many as it says, or fails and takes nothing.
unfoldable pub Takes : {K : Type 0} → (ℕ → K → List ℕ) → ℕ → List ℕ → K → Sys ℕ × K → Type 0
Takes taken fd bytes k (failed errno, k') = taken fd k' ≡ taken fd k
Takes taken fd bytes k (returned n, k') =
    (n ≤ length bytes) × (taken fd k' ≡ taken fd k ++ take n bytes)

-- How a write of `bytes` after `old` may end: all are taken, or it throws with some of them taken.
unfoldable pub Wrote : {K : Type 0} → (ℕ → K → List ℕ) → List ℕ → ℕ → List ℕ → Returned K ℕ → Type 0
Wrote taken old total bytes (done n, f, k) =
    (n ≡ total + length bytes) × (taken f.fd k ≡ old ++ bytes)
Wrote taken old total bytes (threw, f, k) = (i : ℕ) × (taken f.fd k ≡ old ++ take i bytes)
Wrote taken old total bytes (out_of_fuel, f, k) = ⊥

rejoined :
    (old bytes a : List ℕ) (n : ℕ) → a ≡ old ++ take n bytes → (a ++ drop n bytes ≡ old ++ bytes)
rejoined old bytes a n e =
    ap (λ x. x ++ drop n bytes) e
    ∙ append_assoc old (take n bytes) (drop n bytes)
    ∙ ap (◌++◌ old) (take-append-drop n bytes)

Wrote-more :
    {K : Type 0} (taken : ℕ → K → List ℕ) (old old' : List ℕ) (total total' n : ℕ)
    (bytes bytes' : List ℕ) (r : Returned K ℕ)
    → old' ≡ old ++ take n bytes
    → bytes' ≡ drop n bytes
    → total' ≡ total + n
    → n ≤ length bytes
    → Wrote taken old' total' bytes' r
    → Wrote taken old total bytes r
unfolding Wrote
Wrote-more taken old old' total total' n bytes bytes' (done m, f, k) o b t le w = (
  omega (arith, w.0, t, ap length b, length-drop n bytes, le),
  w.1 ∙ ap (λ x. old' ++ x) b ∙ rejoined old bytes old' n o,
)
Wrote-more taken old old' total total' n bytes bytes' (threw, f, k) o b t le w = (
  n + w.0,
  w.1
      ∙ ap (λ x. old' ++ take w.0 x) b
      ∙ ap (λ x. x ++ take w.0 (drop n bytes)) o
      ∙ append_assoc old (take n bytes) (take w.0 (drop n bytes))
      ∙ ap (◌++◌ old) (sym (take_add n w.0 bytes)),
)
Wrote-more taken old old' total total' n bytes bytes' (out_of_fuel, f, k) o b t le w = w

module _ {K : Type 0} (kernel : Kernel K) (taken : ℕ → K → List ℕ)
    (law : (fd : ℕ) (vs : List (List ℕ)) (k : K)
      → Takes taken fd (viewed vs) k (kernel.sys_writev fd vs k)) where
  write_from-Wrote :
      (fuel total : ℕ) (vs : List (List ℕ)) (f : FdWrapper) (k : K)
      → length (viewed vs) < fuel
      → total + length (viewed vs) < u64_mod
      → Wrote taken (taken f.fd k) total (viewed vs) (write_from kernel true fuel total vs f k)
  unfolding write_from Takes Wrote
  write_from-Wrote zero total vs f k enough small = absurd (omega arith)
  write_from-Wrote (suc fuel) total vs f k enough small =
      go (kernel.sys_writev f.fd vs k).0 refl (law f.fd vs k)
        (λ t l g j. write_from-Wrote fuel t l g j)
    where
      k' : K
      k' = (kernel.sys_writev f.fd vs k).1

      size : view_size vs ≡ length (viewed vs)
      size = view_size-viewed vs (omega (arith, small))

      go :
          (r : Sys ℕ)
          → (kernel.sys_writev f.fd vs k).0 ≡ r
          → Takes taken f.fd (viewed vs) k (r, k')
          → ((t : ℕ) (l : List (List ℕ)) (g : FdWrapper) (j : K)
              → length (viewed l) < fuel
              → t + length (viewed l) < u64_mod
              → Wrote taken (taken g.fd j) t (viewed l) (write_from kernel true fuel t l g j))
          → Wrote taken
              (taken f.fd k)
              total
              (viewed vs)
              (write_from kernel true (suc fuel) total vs f k)
      go (failed errno) e t rest = rw (write_from, e) (0, t ∙ sym (append-nil (taken f.fd k)))
      go (returned n) e t rest =
          let (left, removed, shows) = view_remove_prefix-viewed n vs t.0 in
          let some_left : length (viewed left) ≡ length (viewed vs) - n =
            ap length shows ∙ length-drop n (viewed vs) in
          let size_left : view_size left ≡ length (viewed left) =
            view_size-viewed left (omega (arith, some_left, small)) in
          let fits : ltb (view_size vs) n ≡ false = ground (arith, t.0, size) in
          let sum : add64 total n ≡ total + n = omega (arith, t.0, small) in
          let none_left : (view_size left == 0) ≡ true → length (viewed vs) ≤ n =
            λ z. ground (arith, z, size_left, some_left) in
          elim (Bool-cases (n == 0 && not (view_size vs == 0))) [
            | inl nothing ↦ rw (write_from, e, nothing) (n, t.1)
            | inr something ↦ elim (Bool-cases (view_size left == 0)) [
              | inl all ↦
                  rw (write_from, e, something, fits, removed, all)
                    (
                      omega (arith, sum, t.0, none_left all),
                      t.1 ∙ ap (◌++◌ (taken f.fd k)) (take_all n (viewed vs) (none_left all)),
                    )
              | inr part ↦
                  rw (write_from, e, something, fits, removed, part)
                    (Wrote-more taken (taken f.fd k) (taken f.fd k') total (add64 total n) n
                      (viewed vs) (viewed left) _ t.1 shows sum t.0
                      (rest (add64 total n) left (register_write f) k'
                        (ground (arith, enough, some_left, t.0, part, size_left, something, size))
                        (omega (arith, sum, some_left, t.0, small))))
            ]
          ]

  -- If `writev` takes the front of what it is given, as many bytes as it says, or fails and takes nothing, then
  -- `write` with `write_all` of fewer than 2^64 bytes comes to an end: the file has taken all the bytes, in order,
  -- and their number is returned, or it throws and the file has taken some front of them.
  pub write-Wrote :
      (buffer : List (List ℕ)) (f : FdWrapper) (k : K)
      → length (viewed buffer) < u64_mod
      → Wrote taken (taken f.fd k) 0 (viewed buffer) (write kernel true buffer f k)
  write-Wrote buffer f k small =
      let size = view_size-viewed buffer small in
      write_from-Wrote (view_size buffer + 1) 0 buffer f k (omega (arith, size))
        (omega (arith, small))

-- Without `write_all`, there is one call of `writev`.
pub write_once_lem :
    {K : Type 0} (kernel : Kernel K) (buffer : List (List ℕ)) (f : FdWrapper) (k : K) (n : ℕ)
    (k' : K)
    → length (viewed buffer) < u64_mod
    → n ≤ length (viewed buffer)
    → 0 < n ⊎ length (viewed buffer) ≡ 0
    → kernel.sys_writev f.fd buffer k ≡ (returned n, k')
    → write kernel false buffer f k ≡ (done n, register_write f, k')
unfolding write_from
write_once_lem kernel buffer f k n k' small le moves e =
    let size = view_size-viewed buffer small in
    let e0 : (kernel.sys_writev f.fd buffer k).0 ≡ returned n = ap (λ p. p.0) e in
    let e1 : (kernel.sys_writev f.fd buffer k).1 ≡ k' = ap (λ p. p.1) e in
    let (left, removed, shows) = view_remove_prefix-viewed n buffer le in
    let fits : ltb (view_size buffer) n ≡ false = ground (arith, le, size) in
    let sum : add64 0 n ≡ n = omega (arith, le, small) in
    let something : (n == 0 && not (view_size buffer == 0)) ≡ false = ground (arith, moves, size) in
    let round : view_size buffer + 1 ≡ suc (view_size buffer) = omega arith in
    rw round (rw (write_from, e0, something, fits, removed, sum, e1) refl)
