-- ===== src/Buffer/Contents.antt =====
-- A `BufferList` stands for one string, whatever its pieces.
use cs144_intro2network.Prelude.{
  zero, suc, refl, ℕ, List, [], ◌∷◌, ◌++◌, Option, none, some, ◌≤◌, ◌+◌, ◌≡◌, sym, ◌<◌, ap, u64_mod,
  ◌∙◌, ◌-◌, append-nil, append_assoc, arith, drop-nil, suc, length-drop, refl, length-append,
  Bool-cases, ◌==◌, inl, drop-drop, drop_all, inr, false, drop-append_le,
}
use cs144_intro2network.Buffer.{
  Buffer, str, size, shown, released, remove_prefix, append, concatenate, concatenate_from,
  list_size, list_size_from, list_remove_prefix, views_of, view_remove_prefix, length, drop, add64,
  ltb,
}

-- The offset is within the storage, whose size a `size_t` holds.
abbrev pub Within : Option (List ℕ) → ℕ → Type 0
Within none offset = Unit
Within (some bytes) offset = (offset ≤ length bytes) × (length bytes < u64_mod)

abbrev pub IsValid : Buffer → Type 0
IsValid b = Within b.storage b.starting_offset

abbrev pub AllValid : List Buffer → Type 0
AllValid [] = Unit
AllValid (b ∷ bs) = IsValid b × AllValid bs

-- The string that the buffers make up.
abbrev pub contents : List Buffer → List ℕ
contents [] = []
contents (b ∷ bs) = str b ++ contents bs

pub concatenate-contents :
    (ret : List ℕ) (bs : List Buffer) → concatenate_from ret bs ≡ ret ++ contents bs
unfolding concatenate_from
concatenate-contents ret [] = sym (append-nil ret)
concatenate-contents ret (b ∷ bs) =
    concatenate-contents (ret ++ str b) bs ∙ append_assoc ret (str b) (contents bs)

contents-append : (bs cs : List Buffer) → contents (bs ++ cs) ≡ contents bs ++ contents cs
contents-append [] cs = refl
contents-append (b ∷ bs) cs =
    ap (◌++◌ (str b)) (contents-append bs cs)
    ∙ sym (append_assoc (str b) (contents bs) (contents cs))

append_lem : (bs cs : List Buffer) → append bs cs ≡ bs ++ cs
unfolding append
append_lem bs [] = sym (append-nil bs)
append_lem bs (c ∷ cs) = append_lem (bs ++ c ∷ []) cs ∙ append_assoc bs (c ∷ []) cs

list_size-contents :
    (ret : ℕ) (bs : List Buffer)
    → ret + length (contents bs) < u64_mod
    → list_size_from ret bs ≡ ret + length (contents bs)
unfolding list_size_from
list_size-contents ret [] h = omega arith
list_size-contents ret (b ∷ bs) h =
    let l = length-append (str b) (contents bs) in
    let e : add64 ret (size b) ≡ ret + size b = omega (arith, h, l) in
    rw e (omega (arith, l, list_size-contents (ret + size b) bs (omega (arith, h, l))))

pub drop-append_past :
    (n : ℕ) (xs ys : List ℕ) → length xs ≤ n → drop n (xs ++ ys) ≡ drop (n - length xs) ys
drop-append_past n [] ys h = ap (λ k. drop k ys) (omega arith)
drop-append_past zero (x ∷ xs) ys h = absurd (omega arith)
drop-append_past (suc n) (x ∷ xs) ys h =
    drop-append_past n xs ys (omega arith) ∙ ap (λ k. drop k ys) (omega arith)

abbrev moved : Option (List ℕ) → ℕ → Buffer
moved storage offset = record { storage = released storage offset; starting_offset = offset }

-- Discarding from a buffer what it has.
remove_prefix_lem :
    (n : ℕ) (b : Buffer)
    → IsValid b
    → n ≤ size b
    → (b' : Buffer) × (remove_prefix n b ≡ some b') × (str b' ≡ drop n (str b)) × IsValid b'
unfolding remove_prefix
remove_prefix_lem n b v le =
    let fits : ltb (size b) n ≡ false = ground arith in
    rw fits (kept b.storage b.starting_offset v le)
  where
    kept :
        (storage : Option (List ℕ)) (offset : ℕ)
        → Within storage offset
        → n ≤ length (shown storage offset)
        → (b' : Buffer) × (some (moved storage (add64 offset n)) ≡ some b')
          × (str b' ≡ drop n (shown storage offset))
          × IsValid b'
    kept none offset v le = (_, refl, sym (drop-nil n), tt)
    kept (some bytes) offset v le =
        let l = length-drop offset bytes in
        let e : add64 offset n ≡ offset + n = omega (arith, v.0, v.1, l) in
        rw e (elim (Bool-cases (offset + n == length bytes)) [
          | inl all ↦ rw all (
            _,
            refl,
            sym (drop-drop n offset bytes ∙ drop_all (offset + n) bytes (ground (arith, all))),
            tt,
          )
          | inr part ↦
              rw part (_, refl, sym (drop-drop n offset bytes), (omega (arith, v.0, l), v.1))
        ])

-- What discarding `n` bytes from the front of a string may give.
abbrev pub Discards : ℕ → List ℕ → Option (List Buffer) → Type 0
Discards n bytes none = length bytes < n
Discards n bytes (some bs) = (n ≤ length bytes) × (contents bs ≡ drop n bytes) × AllValid bs

-- For valid buffers, `BufferList::remove_prefix` discards from the string that the list stands for, across pieces, and
-- throws exactly if there are not so many bytes; the pieces stay valid.
pub list_remove_prefix-Discards :
    (n : ℕ) (bs : List Buffer) → AllValid bs → Discards n (contents bs) (list_remove_prefix n bs)
unfolding list_remove_prefix
list_remove_prefix-Discards zero [] v = (omega arith, refl, tt)
list_remove_prefix-Discards (suc n) [] v =
    let more : (suc n == 0) ≡ false = ground arith in rw more (omega arith)
list_remove_prefix-Discards zero (b ∷ bs) v = (omega arith, refl, v)
list_remove_prefix-Discards (suc n) (b ∷ bs) v =
    let more : (suc n == 0) ≡ false = ground arith in
    let l = length-append (str b) (contents bs) in
    elim (Bool-cases (ltb (suc n) (size b))) [
      | inl inside ↦
          let le : suc n ≤ size b = ground (arith, inside) in
          let (b', e, shows, v') = remove_prefix_lem (suc n) b v.0 le in
          rw (more, inside, e)
            (
              omega (arith, l, le),
              ap (λ x. x ++ contents bs) shows
                  ∙ sym (drop-append_le (suc n) (str b) (contents bs) le),
              (v', v.1),
            )
      | inr past ↦
          let le : size b ≤ suc n = ground (arith, past) in
          rw (more, past)
            (across (list_remove_prefix (suc n - size b) bs) l le
              (drop-append_past (suc n) (str b) (contents bs) le)
              (list_remove_prefix-Discards (suc n - size b) bs v.1))
    ]
  where
    across :
        (o : Option (List Buffer))
        → length (str b ++ contents bs) ≡ size b + length (contents bs)
        → size b ≤ suc n
        → drop (suc n) (str b ++ contents bs) ≡ drop (suc n - size b) (contents bs)
        → Discards (suc n - size b) (contents bs) o
        → Discards (suc n) (str b ++ contents bs) o
    across none l le e d = omega arith
    across (some cs) l le e d = (omega (arith, d.0), d.1 ∙ sym e, d.2)

-- A `BufferList` behaves as the string that it stands for: `append` appends, `concatenate` copies
-- it, and `size` is its length, for lengths that a `size_t` holds.
list_contents :
    (bs cs : List Buffer)
    → length (contents bs) < u64_mod
    → (contents (append bs cs) ≡ contents bs ++ contents cs)
      × (concatenate bs ≡ contents bs)
      × (list_size bs ≡ length (contents bs))
list_contents bs cs h = (
  ap contents (append_lem bs cs) ∙ contents-append bs cs,
  concatenate-contents [] bs,
  list_size-contents 0 bs (omega arith) ∙ omega arith,
)

abbrev views_after : Option (List Buffer) → Option (List (List ℕ))
views_after none = none
views_after (some bs) = some (views_of bs)

-- Discarding bytes from a view list of valid buffers gives the views of what is left of the buffers,
-- and throws when they do.
view_remove_prefix-views_of :
    (n : ℕ) (bs : List Buffer)
    → AllValid bs
    → view_remove_prefix n (views_of bs) ≡ views_after (list_remove_prefix n bs)
unfolding view_remove_prefix list_remove_prefix views_of
view_remove_prefix-views_of zero [] v = refl
view_remove_prefix-views_of (suc n) [] v =
    let more : (suc n == 0) ≡ false = ground arith in rw more refl
view_remove_prefix-views_of zero (b ∷ bs) v = refl
view_remove_prefix-views_of (suc n) (b ∷ bs) v =
    let more : (suc n == 0) ≡ false = ground arith in
    elim (Bool-cases (ltb (suc n) (size b))) [
      | inl inside ↦
          let (b', e, shows, v') = remove_prefix_lem (suc n) b v.0 (ground (arith, inside)) in
          rw (more, inside, e, shows) refl
      | inr past ↦ rw (more, past) (view_remove_prefix-views_of (suc n - size b) bs v.1)
    ]
