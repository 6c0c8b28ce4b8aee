-- ===== src/FileDescriptor/Trace.antt =====
-- A kernel whose state tells what each file has given and what it has taken.
use cs144_intro2network.Prelude.{
  ℕ, zero, suc, ◌+◌, ◌<◌, ◌≤◌, ◌≡◌, false, not, Bool-cases, ◌&&◌, List, ◌++◌, ◌==◌, if◌then◌else◌,
  u64_mod, add64, take, arith, inl, inr, length, ltb, refl, min,
}
use cs144_intro2network.Buffer.{view_size}
use cs144_intro2network.FileDescriptor
use cs144_intro2network.FileDescriptor.{
  Sys, returned, failed, Kernel, FdWrapper, done, threw, out_of_fuel, Returned, register_write,
  write_from, write, after_read,
}
use cs144_intro2network.FileDescriptor.Write.{viewed, view_size-viewed, view_remove_prefix-viewed}

module _ {K : Type 0} (given taken : ℕ → K → List ℕ) where
  -- A call that moves no bytes.
  pub record Same (k k' : K) : Type 0 where
    pub gave : (fd : ℕ) → given fd k' ≡ given fd k
    pub took : (fd : ℕ) → taken fd k' ≡ taken fd k

  pub record Gave (fd : ℕ) (bytes : List ℕ) (k k' : K) : Type 0 where
    pub gave :
        (other : ℕ)
        → given other k' ≡ (if other == fd then given other k ++ bytes else given other k)
    pub took : (other : ℕ) → taken other k' ≡ taken other k

  pub record Took (fd : ℕ) (bytes : List ℕ) (k k' : K) : Type 0 where
    pub gave : (other : ℕ) → given other k' ≡ given other k
    pub took :
        (other : ℕ)
        → taken other k' ≡ (if other == fd then taken other k ++ bytes else taken other k)

  -- What `read` and `writev` do if they return.
  abbrev pub AfterRead : ℕ → K → Sys (List ℕ) × K → Type 0
  AfterRead fd k (failed errno, k') = Unit
  AfterRead fd k (returned bytes, k') = Gave fd bytes k k'

  abbrev pub AfterWrite : ℕ → List ℕ → K → Sys ℕ × K → Type 0
  AfterWrite fd bytes k (failed errno, k') = Unit
  AfterWrite fd bytes k (returned n, k') = (n ≤ length bytes) × Took fd (take n bytes) k k'

  -- A `read` gives the bytes that it returns, a `writev` takes the front of what it is given, as many
  -- bytes as it says, and neither does anything to another file; the other calls move nothing.
  pub record IsTraced (sys : Kernel K) : Type 0 where
    pub reads : (fd n : ℕ) (k : K) → AfterRead fd k (sys.sys_read fd n k)
    pub writes :
        (fd : ℕ) (vs : List (List ℕ)) (k : K) → AfterWrite fd (viewed vs) k (sys.sys_writev fd vs k)
    pub closes : (fd : ℕ) (k : K) → Same k (sys.sys_close fd k).1
    pub shuts : (fd : ℕ) (how : FileDescriptor.How) (k : K) → Same k (sys.sys_shutdown fd how k).1

  -- What a `write` without `write_all` leaves, if it returns.
  abbrev pub WroteOnce : FdWrapper → List ℕ → K → Returned K ℕ → Type 0
  WroteOnce f bytes k (done n, f', k') =
      (f' ≡ register_write f) × (n ≤ length bytes) × Took f.fd (take n bytes) k k'
  WroteOnce f bytes k (threw, f', k') = Unit
  WroteOnce f bytes k (out_of_fuel, f', k') = Unit

  module _ (sys : Kernel K) (traced : IsTraced sys) where
    write_from-WroteOnce :
        (fuel : ℕ) (buffer : List (List ℕ)) (f : FdWrapper) (k : K)
        → length (viewed buffer) < u64_mod
        → WroteOnce f (viewed buffer) k (write_from sys false fuel 0 buffer f k)
    unfolding write_from
    write_from-WroteOnce zero buffer f k small = tt
    write_from-WroteOnce (suc fuel) buffer f k small =
        go (sys.sys_writev f.fd buffer k).0 refl (traced.writes f.fd buffer k)
      where
        k' : K
        k' = (sys.sys_writev f.fd buffer k).1

        go :
            (r : Sys ℕ)
            → (sys.sys_writev f.fd buffer k).0 ≡ r
            → AfterWrite f.fd (viewed buffer) k (r, k')
            → WroteOnce f (viewed buffer) k (write_from sys false (suc fuel) 0 buffer f k)
        go (failed errno) e t = rw (write_from, e) tt
        go (returned n) e t =
            let size = view_size-viewed buffer small in
            let (left, removed, shows) = view_remove_prefix-viewed n buffer t.0 in
            let fits : ltb (view_size buffer) n ≡ false = ground (arith, t.0, size) in
            let sum : add64 0 n ≡ n = omega (arith, t.0, small) in
            elim (Bool-cases (n == 0 && not (view_size buffer == 0))) [
              | inl nothing ↦ rw (write_from, e, nothing) tt
              | inr something ↦ rw (write_from, e, something, fits, removed, sum) (refl, t.0, t.1)
            ]

    pub write-WroteOnce :
        (buffer : List (List ℕ)) (f : FdWrapper) (k : K)
        → length (viewed buffer) < u64_mod
        → WroteOnce f (viewed buffer) k (write sys false buffer f k)
    write-WroteOnce buffer f k small = write_from-WroteOnce (view_size buffer + 1) buffer f k small

    -- What a `read` leaves, if it returns.
    abbrev pub ReadOnce : FdWrapper → ℕ → K → Returned K (List ℕ) → Type 0
    ReadOnce f limit k (done bytes, f', k') =
        (f'.fd ≡ f.fd) × (length bytes ≤ limit) × Gave f.fd bytes k k'
    ReadOnce f limit k (threw, f', k') = Unit
    ReadOnce f limit k (out_of_fuel, f', k') = Unit

    after_read-ReadOnce :
        (limit : ℕ) (f : FdWrapper) (k : K) (r : Sys (List ℕ) × K)
        → AfterRead f.fd k r
        → ReadOnce f limit k (after_read limit f r)
    unfolding after_read
    after_read-ReadOnce limit f k (failed errno, k') t = tt
    after_read-ReadOnce limit f k (returned bytes, k') t =
        elim (Bool-cases (ltb (min FileDescriptor.buffer_size limit) (length bytes))) [
          | inl beyond ↦ rw beyond tt
          | inr fits ↦
              let le : length bytes ≤ limit = ground (arith, fits) in
              elim (Bool-cases (ltb 0 limit && length bytes == 0)) [
                | inl ended ↦ rw (fits, ended) (refl, le, t)
                | inr more ↦ rw (fits, more) (refl, le, t)
              ]
        ]

    pub read-ReadOnce :
        (limit : ℕ) (f : FdWrapper) (k : K) → ReadOnce f limit k (FileDescriptor.read sys limit f k)
    read-ReadOnce limit f k =
        after_read-ReadOnce limit f k _ (traced.reads f.fd (min FileDescriptor.buffer_size limit) k)
