-- ===== src/Attribute/Continuous/Bound.antt =====
-- `getUpperBound` and `getDerivativeValue` of ContinuousAttributeLite.hpp, in terms of the map that
-- the attribute was built from.
use trademgen.Prelude.{
  ℕ, suc, ◌+◌, ◌-◌, ◌<◌, ◌≡◌, refl, sym, ap, ◌∙◌, inl, inr, not, Option, none, some, List, [], ◌∷◌,
  map, arith, ◌==◌, if◌then◌else◌, Bool-cases, length, get_elem?, assertion_failed, Result, ok, err,
  ◌>>=◌, ◌>>◌, check,
}
use trademgen.Platform.{Platform}
use trademgen.Attribute.Scan.{at, scan, scan-map, position, found, found-shift_option}
use trademgen.Attribute.Dictionary.{key_to_value, value_to_key}
use trademgen.Attribute.Continuous.{
  Scalar, ContinuousDistribution, init, get_upper_bound, get_derivative_value,
}

module _ ⦃p : Platform⦄ where
  open p use {Real, sub, div}

  -- Two neighbouring points of a distribution.
  pub record Segment (T : Type 0) : Type 0 where
    pub low : T
    pub low_share : Real
    pub high : T
    pub high_share : Real

  abbrev pub on_segment {ℓ} :
      {T : Type 0} {B : Type ℓ} → (Segment T → Result B) → Option (Segment T) → Result B
  on_segment out none = err assertion_failed
  on_segment out (some g) = out g

  module _ {T : Type 0} ⦃s : Scalar T⦄ where
    open s use {minus, above, differs, to_real}

    -- The neighbours between which the key lies: not above it, and the first one above it.
    abbrev pub segment_from : T → T → Real → ContinuousDistribution T → Option (Segment T)
    segment_from key v c [] = none
    segment_from key v c ((w, d) ∷ es) =
        let rest = segment_from key w d es in
        if above w key
        then some (record { low = v; low_share = c; high = w; high_share = d })
        else rest

    abbrev pub segment : T → ContinuousDistribution T → Option (Segment T)
    segment key [] = none
    segment key ((v, c) ∷ es) = if above v key then none else segment_from key v c es

    -- The daily rate on a segment.
    abbrev pub slope : Segment T → Result Real
    slope g = do
      check (differs g.high g.low)
      ok (div (sub g.high_share g.low_share) (to_real (minus g.high g.low)))

    module _ {B : Type 0} (cums : List Real) (vals : List T) (size : ℕ) (next : ℕ → Result B)
        (out : Segment T → Result B) (at_end : next size ≡ err assertion_failed)
        (at_point : (i : ℕ) (g : Segment T)
          → get_elem? cums i ≡ some g.low_share
          → get_elem? vals i ≡ some g.low
          → get_elem? cums (suc i) ≡ some g.high_share
          → get_elem? vals (suc i) ≡ some g.high
          → suc i < size
          → next (suc i) ≡ out g) where
      next-segment_from :
          (key : T) (i : ℕ) (v : T) (c : Real) (es : ContinuousDistribution T)
          → get_elem? cums i ≡ some c
          → get_elem? vals i ≡ some v
          → ((j : ℕ) → get_elem? cums (suc i + j) ≡ get_elem? (map (λ e. e.1) es) j)
          → ((j : ℕ) → get_elem? vals (suc i + j) ≡ get_elem? (map (λ e. e.0) es) j)
          → size ≡ suc i + length es
          → (found
                (λ k. ok k)
                (λ k. ok k)
                (length es)
                (suc i)
                (position (λ x. above x key) (map (λ e. e.0) es))
              >>= next)
            ≡ on_segment out (segment_from key v c es)
      next-segment_from key i v c [] hc hv rc rv n = ap next (sym n) ∙ at_end
      next-segment_from key i v c ((w, d) ∷ es) hc hv rc rv n = elim (Bool-cases (above w key)) [
        | inl t ↦
            let e : suc i + 0 ≡ suc i = omega arith in
            rw (t, e)
              (at_point i (record { low = v; low_share = c; high = w; high_share = d }) hc hv
                (rw (← e) (rc 0)) (rw (← e) (rv 0)) (omega arith))
        | inr f ↦
            rw
              (
                f,
                ← found-shift_option (λ k. ok k) (λ k. ok k) (length es) (suc i)
                    (position (λ x. above x key) (map (λ e. e.0) es)),
              )
              (next-segment_from key (suc i) w d es (ap (get_elem? cums) (omega arith) ∙ rc 0)
                (ap (get_elem? vals) (omega arith) ∙ rv 0)
                (λ j. ap (get_elem? cums) (omega arith) ∙ rc (suc j))
                (λ j. ap (get_elem? vals) (omega arith) ∙ rv (suc j)) (omega arith))
      ]

    next-segment :
        {B : Type 0} (key : T) (m : ContinuousDistribution T) (next : ℕ → Result B)
        (out : Segment T → Result B)
        → next 0 ≡ err assertion_failed
        → next (length m) ≡ err assertion_failed
        → ((i : ℕ) (g : Segment T)
            → get_elem? (map (λ e. e.1) m) i ≡ some g.low_share
            → get_elem? (map (λ e. e.0) m) i ≡ some g.low
            → get_elem? (map (λ e. e.1) m) (suc i) ≡ some g.high_share
            → get_elem? (map (λ e. e.0) m) (suc i) ≡ some g.high
            → suc i < length m
            → next (suc i) ≡ out g)
        → (scan (λ x. above x key) (λ k. ok k) (λ k. ok k) (map (λ e. e.0) m) (length m) 0 >>= next)
          ≡ on_segment out (segment key m)
    unfolding scan
    next-segment key [] next out at_start at_end at_point = at_start
    next-segment key ((v, c) ∷ es) next out at_start at_end at_point =
        let cums : List Real = map (λ e. e.1) ((v, c) ∷ es) in
        let vals : List T = map (λ e. e.0) ((v, c) ∷ es) in
        ap (λ r. r >>= next)
          (scan-map (λ x. above x key) (λ k. ok k) (λ k. ok k) (λ e. e.0) ((v, c) ∷ es))
        ∙ elim (Bool-cases (above v key)) [
          | inl t ↦ rw t at_start
          | inr f ↦
              rw
                (
                  f,
                  ← found-shift_option (λ k. ok k) (λ k. ok k) (length es) 0
                      (position (λ x. above x key) (map (λ e. e.0) es)),
                )
                (next-segment_from cums vals (suc (length es)) next out at_end at_point key 0 v c es
                  refl refl (λ j. let e : 1 + j ≡ suc j = omega arith in ap (get_elem? cums) e)
                  (λ j. let e : 1 + j ≡ suc j = omega arith in ap (get_elem? vals) e) (omega arith))
        ]

    bound_after : ContinuousDistribution T → ℕ → Result T
    bound_after m idx = do
      check (not (idx == 0))
      check (not (idx == length m))
      at (map (λ e. e.0) m) idx

    slope_after : ContinuousDistribution T → ℕ → Result Real
    unfolding key_to_value
    slope_after m idx = do
      check (not (idx == 0))
      check (not (idx == length m))
      c_cur ← at (map (λ e. e.1) m) idx
      v_cur ← at (map (λ e. e.0) m) idx
      c_prev ← at (map (λ e. e.1) m) (idx - 1)
      v_prev ← at (map (λ e. e.0) m) (idx - 1)
      check (differs v_cur v_prev)
      ok (div (sub (key_to_value c_cur) (key_to_value c_prev)) (to_real (minus v_cur v_prev)))

    -- `getUpperBound` on the arrays that `init` fills answers the upper one of the two neighbours
    -- round the key, the first value strictly above it, and its assertions fail where there are no
    -- neighbours.
    pub get_upper_bound-init :
        (m : ContinuousDistribution T) (key : T)
        → get_upper_bound (init m) key ≡ on_segment (λ g. ok g.high) (segment key m)
    unfolding get_upper_bound init bound_after
    get_upper_bound-init m key =
        next-segment key m (bound_after m) (λ g. ok g.high) refl (ground arith)
          (λ i g _ _ _ hw n. ground arith)

    -- `getDerivativeValue` on the arrays that `init` fills answers the slope between the two
    -- neighbours round the key, the upper of which is the first value strictly above it, and its
    -- assertions fail where there are none, or where the two do not differ.
    pub get_derivative_value-init :
        (m : ContinuousDistribution T) (key : T)
        → get_derivative_value (init m) key ≡ on_segment slope (segment key m)
    unfolding get_derivative_value init slope_after value_to_key
    get_derivative_value-init m key =
        next-segment key m (slope_after m) slope refl (ground arith) λ i g hc hv hd hw n.
          let e : suc i - 1 ≡ i = omega arith in
          ground (arith, ap (get_elem? (map (λ e. e.0) m)) e, ap (get_elem? (map (λ e. e.1) m)) e)
