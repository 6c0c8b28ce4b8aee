-- ===== src/Router/LongestPrefix.antt =====
-- The search of `route_one_datagram` is longest-prefix match.
use cs144_intro2network.Prelude.{
  List, [], ◌∷◌, Option, none, some, inl, inr, refl, Bool-cases, ◌≡◌, ◌⊎◌, true, false, ◌≤◌, ltb,
  arith, ℕ, ltb→lt, ◌<◌,
}
use native.Mathlib.Nat.{le_trans}
use cs144_intro2network.Router.{
  RoutingTableEntry, matches, longest_match, List, ℕ, some, ◌∷◌, Option,
}

-- The route applies to the destination.
abbrev pub Applies : ℕ → RoutingTableEntry → Type 0
Applies dst e = matches dst e.route_prefix e.prefix_length ≡ true

abbrev pub Every : (RoutingTableEntry → Type 0) → List RoutingTableEntry → Type 0
Every P [] = Unit
Every P (e ∷ es) = P e × Every P es

abbrev pub Some : (RoutingTableEntry → Type 0) → List RoutingTableEntry → Type 0
Some P [] = ⊥
Some P (e ∷ es) = P e ⊎ Some P es

-- No entry of the table that applies has a longer prefix.
abbrev pub Longest : ℕ → RoutingTableEntry → List RoutingTableEntry → Type 0
Longest dst best = Every (λ e. Applies dst e → e.prefix_length ≤ best.prefix_length)

-- What a search of a table finds: an entry of the table that applies and is longest, or that no
-- entry applies.
abbrev pub Finds : ℕ → List RoutingTableEntry → Option RoutingTableEntry → Type 0
Finds dst table none = Every (λ e. ¬ (Applies dst e)) table
Finds dst table (some best) = Some (λ e. e ≡ best) table × Applies dst best × Longest dst best table

-- The same with an entry found before.
abbrev FindsFrom :
    ℕ → RoutingTableEntry → List RoutingTableEntry → Option RoutingTableEntry → Type 0
FindsFrom dst old table none = ⊥
FindsFrom dst old table (some best) =
    ((old ≡ best) ⊎ Some (λ e. e ≡ best) table)
    × Applies dst best
    × (old.prefix_length ≤ best.prefix_length)
    × Longest dst best table

longest_match-from :
    (dst : ℕ) (old : RoutingTableEntry) (table : List RoutingTableEntry)
    → Applies dst old
    → FindsFrom dst old table (longest_match dst (some old) table)
unfolding longest_match
longest_match-from dst old [] a = (inl refl, a, omega arith, tt)
longest_match-from dst old (e ∷ es) a =
    elim (Bool-cases (matches dst e.route_prefix e.prefix_length)) [
      | inr differs ↦
          rw differs
            (extend (longest_match dst (some old) es) (λ h. cc) (longest_match-from dst old es a))
      | inl hit ↦ rw hit (elim (Bool-cases (ltb old.prefix_length e.prefix_length)) [
        | inl longer ↦ rw longer (
            replace (longest_match dst (some e) es) (ltb→lt _ _ longer)
              (longest_match-from dst e es hit))
        | inr shorter ↦
            let le : e.prefix_length ≤ old.prefix_length = ground arith in
            rw shorter
              (extend (longest_match dst (some old) es) (λ h. le) (longest_match-from dst old es a))
      ])
    ]
  where
    extend :
        (o : Option RoutingTableEntry)
        → (Applies dst e → e.prefix_length ≤ old.prefix_length)
        → FindsFrom dst old es o
        → FindsFrom dst old (e ∷ es) o
    extend none h f = f
    extend (some best) h (found, applies, le, longest) = (
      elim found [ inl p ↦ inl p | inr p ↦ inr (inr p) ],
      applies,
      le,
      (λ x. le_trans (h x) le, longest),
    )

    replace :
        (o : Option RoutingTableEntry)
        → old.prefix_length < e.prefix_length
        → FindsFrom dst e es o
        → FindsFrom dst old (e ∷ es) o
    replace none h f = f
    replace (some best) h (found, applies, le, longest) = (
      elim found [ inl p ↦ inr (inl p) | inr p ↦ inr (inr p) ],
      applies,
      omega arith,
      (λ x. le, longest),
    )

-- The search finds an entry of the table that applies to the destination and has the longest prefix
-- of all that apply, or finds none where none applies.
pub longest_match-Finds :
    (dst : ℕ) (table : List RoutingTableEntry) → Finds dst table (longest_match dst none table)
unfolding longest_match
longest_match-Finds dst [] = tt
longest_match-Finds dst (e ∷ es) = elim (Bool-cases (matches dst e.route_prefix e.prefix_length)) [
  | inr differs ↦ rw differs (skip (longest_match dst none es) differs (longest_match-Finds dst es))
  | inl hit ↦ rw hit (first (longest_match dst (some e) es) (longest_match-from dst e es hit))
]
  where
    skip :
        (o : Option RoutingTableEntry)
        → matches dst e.route_prefix e.prefix_length ≡ false
        → Finds dst es o
        → Finds dst (e ∷ es) o
    skip none n f = (λ h. cc, f)
    skip (some best) n (found, applies, longest) = (inr found, applies, (λ h. cc, longest))

    first : (o : Option RoutingTableEntry) → FindsFrom dst e es o → Finds dst (e ∷ es) o
    first none f = absurd f
    first (some best) (found, applies, le, longest) = (found, applies, (λ x. le, longest))
