-- ===== src/Attribute/Continuous/Ascending.antt =====
-- A search for the neighbours of a key among ascending points: `getUpperBound` of
-- ContinuousAttributeLite.hpp, on the keys of a `std::map`.
use trademgen.Prelude.{
  ℕ, suc, ◌≤◌, ◌<◌, ◌≡◌, ◌⊎◌, inl, inr, true, false, some, [], ◌∷◌, arith, if◌then◌else◌,
  Bool-cases, All,
}
use trademgen.Platform.{Platform, IsOrdered}
use trademgen.Attribute.Continuous.{ContinuousDistribution, real_scalar}
use trademgen.Attribute.Continuous.Bound.{Segment, segment_from}

module _ ⦃p : Platform⦄ where
  open p use {Real, lt, eq}

  -- The keys of a `std::map` ascend.
  abbrev pub Ascending : ContinuousDistribution Real → Type 0
  Ascending [] = Unit
  Ascending ((v, c) ∷ es) = All (λ e. lt v e.0 ≡ true) es × Ascending es

  -- Some key equals the bound.
  abbrev pub Reaches : Real → ContinuousDistribution Real → Type 0
  Reaches b [] = ⊥
  Reaches b ((v, c) ∷ es) = (eq v b ≡ true) ⊎ Reaches b es

  -- The number of keys above a value.
  abbrev pub count_above : Real → ContinuousDistribution Real → ℕ
  count_above key [] = 0
  count_above key ((v, c) ∷ es) =
      let rest = count_above key es in if lt key v then suc rest else rest

  -- The neighbours lie round the key, and not beyond the bound.
  pub record Encloses (b key : Real) (g : Segment Real) : Type 0 where
    pub above_key : lt key g.high ≡ true
    pub not_above : lt key g.low ≡ false
    pub within : lt b g.high ≡ false

  module _ (laws : IsOrdered) where
    open laws use {lt_irrefl, lt_trans, lt_cotrans, eq-def}

    lt-Reaches :
        (w b : Real) (es : ContinuousDistribution Real)
        → All (λ e. lt w e.0 ≡ true) es
        → Reaches b es
        → lt w b ≡ true
    lt-Reaches w b [] a r = absurd r
    lt-Reaches w b ((v, c) ∷ es) (first, a) (inl same) =
        ground (arith, eq-def v b, lt_cotrans w b v first)
    lt-Reaches w b ((v, c) ∷ es) (first, a) (inr r) = lt-Reaches w b es a r

    -- The first key is not beyond the bound.
    pub Reaches-first :
        (v c b : Real) (es : ContinuousDistribution Real)
        → Ascending ((v, c) ∷ es)
        → Reaches b ((v, c) ∷ es)
        → lt b v ≡ false
    Reaches-first v c b es (a, rest) (inl same) = ground (arith, eq-def v b)
    Reaches-first v c b es (a, rest) (inr r) =
        ground (arith, lt-Reaches v b es a r, lt_trans b v b, lt_irrefl b)

    pub segment_from-Encloses :
        (key v c b : Real) (es : ContinuousDistribution Real)
        → Ascending es
        → Reaches b es
        → lt key b ≡ true
        → lt key v ≡ false
        → (g : Segment Real) × (segment_from key v c es ≡ some g) × Encloses b key g
    segment_from-Encloses key v c b [] a r below low = absurd r
    segment_from-Encloses key v c b ((w, d) ∷ es) a r below low = elim (Bool-cases (lt key w)) [
      | inl t ↦ (
        record { low = v; low_share = c; high = w; high_share = d },
        rw t,
        record { above_key = t; not_above = low; within = Reaches-first w d b es a r },
      )
      | inr f ↦ rw f (segment_from-Encloses key w d b es a.1 (later f r) below f)
    ]
      where
        later : lt key w ≡ false → Reaches b ((w, d) ∷ es) → Reaches b es
        later f (inl same) = absurd (ground (arith, eq-def w b, lt_cotrans key w b below))
        later f (inr r') = r'

    count_above_mono :
        (key key' : Real) (es : ContinuousDistribution Real)
        → lt key key' ≡ true
        → count_above key' es ≤ count_above key es
    count_above_mono key key' [] h = omega arith
    count_above_mono key key' ((v, c) ∷ es) h =
        ground (arith, count_above_mono key key' es h, lt_trans key key' v h)

    -- At the upper neighbour fewer keys lie above than at the key.
    pub count_above-lt :
        (key v c : Real) (es : ContinuousDistribution Real) (g : Segment Real)
        → segment_from key v c es ≡ some g
        → lt key g.high ≡ true
        → count_above g.high es < count_above key es
    count_above-lt key v c [] g e up = cc
    count_above-lt key v c ((w, d) ∷ es) g e up = elim (Bool-cases (lt key w)) [
      | inl t ↦ ground (arith, count_above_mono key g.high es, lt_irrefl w)
      | inr f ↦ ground (arith, count_above-lt key w d es g, lt_trans key g.high w)
    ]
