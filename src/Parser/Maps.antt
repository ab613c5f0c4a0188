-- ===== src/Parser/Maps.antt =====
-- `std::map::insert` on a list of entries in the order of their keys, for the semantic actions of
-- trademgen/command/DemandParserHelper.cpp.
use trademgen.Prelude.{
  ◌≡◌, refl, ◌↔◌, ◌⊎◌, inl, inr, Bool, true, false, List, [], ◌∷◌, arith, if◌then◌else◌, Bool-cases,
  All,
}

module _ {K V : Type 0} (below : K → K → Bool) where
  -- The map, and whether the entry was inserted: it is not where the key is there already.
  unfoldable pub insert : K → V → List (K × V) → List (K × V) × Bool
  insert k v [] = ((k, v) ∷ [], true)
  insert k v ((l, w) ∷ m) =
      let rest = insert k v m in
      if below k l
      then ((k, v) ∷ (l, w) ∷ m, true)
      else if below l k
      then ((l, w) ∷ rest.0, rest.1)
      else ((l, w) ∷ m, false)

  -- The keys ascend.
  abbrev pub Sorted : List (K × V) → Type 0
  Sorted [] = Unit
  Sorted ((l, w) ∷ m) = All (λ e. below l e.0 ≡ true) m × Sorted m

  -- An entry has the key: neither of the two keys is below the other.
  abbrev pub HasKey : K → List (K × V) → Type 0
  HasKey k [] = ⊥
  HasKey k ((l, w) ∷ m) = ((below k l ≡ false) × (below l k ≡ false)) ⊎ HasKey k m

  insert-All :
      (l k : K) (v : V) (m : List (K × V))
      → below l k ≡ true
      → All (λ e. below l e.0 ≡ true) m
      → All (λ e. below l e.0 ≡ true) (insert k v m).0
  unfolding insert
  insert-All l k v [] b a = (b, tt)
  insert-All l k v ((x, w) ∷ m) b (h, a) = elim (Bool-cases (below k x)) [
    | inl t ↦ rw t (b, (h, a))
    | inr f ↦ elim (Bool-cases (below x k)) [
      | inl t ↦ rw (f, t) (h, insert-All l k v m b a)
      | inr g ↦ rw (f, g) (h, a)
    ]
  ]

  module _
      (below_trans : (a b c : K) → below a b ≡ true → below b c ≡ true → below a c ≡ true) where
    All-below :
        (k l : K) (m : List (K × V))
        → below k l ≡ true
        → All (λ e. below l e.0 ≡ true) m
        → All (λ e. below k e.0 ≡ true) m
    All-below k l [] h a = tt
    All-below k l ((x, w) ∷ m) h (b, a) = (below_trans k l x h b, All-below k l m h a)

    pub insert-Sorted : (k : K) (v : V) (m : List (K × V)) → Sorted m → Sorted (insert k v m).0
    unfolding insert
    insert-Sorted k v [] s = (tt, tt)
    insert-Sorted k v ((l, w) ∷ m) (a, s) = elim (Bool-cases (below k l)) [
      | inl t ↦ rw t ((t, All-below k l m t a), (a, s))
      | inr f ↦ elim (Bool-cases (below l k)) [
        | inl t ↦ rw (f, t) (insert-All l k v m t a, insert-Sorted k v m s)
        | inr g ↦ rw (f, g) (a, s)
      ]
    ]

    All-HasKey : (k : K) (m : List (K × V)) → All (λ e. below k e.0 ≡ true) m → ¬ HasKey k m
    All-HasKey k [] a h = elim h [ ]
    All-HasKey k ((l, w) ∷ m) (b, a) (inl same) = cc
    All-HasKey k ((l, w) ∷ m) (b, a) (inr h) = All-HasKey k m a h

    -- An insertion fails exactly where the key is there.
    pub insert-HasKey :
        (k : K) (v : V) (m : List (K × V)) → Sorted m → ((insert k v m).1 ≡ false) ↔ HasKey k m
    unfolding insert
    insert-HasKey k v [] s = (λ e. cc, λ h. absurd h)
    insert-HasKey k v ((l, w) ∷ m) (a, s) = elim (Bool-cases (below k l)) [
      | inl t ↦
          let absent : ¬ HasKey k m = All-HasKey k m (All-below k l m t a) in
          (λ e. cc (rw t at e), λ h. absurd (ground (arith, absent)))
      | inr f ↦ elim (Bool-cases (below l k)) [
        | inl t ↦
            rw (f, t)
              (
                λ e. inr ((insert-HasKey k v m s).0 e),
                λ h. (insert-HasKey k v m s).1 (ground arith),
              )
        | inr g ↦ rw (f, g) (λ e. inl (refl, refl), λ h. refl)
      ]
    ]
