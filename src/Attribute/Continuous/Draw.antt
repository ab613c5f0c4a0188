-- ===== src/Attribute/Continuous/Draw.antt =====
-- What `getValue` of ContinuousAttributeLite.hpp answers, in terms of the map that the attribute was
-- built from.
use trademgen.Prelude.{
  ℕ, suc, ◌+◌, ◌-◌, ◌<◌, ◌≡◌, refl, ap, ◌∙◌, inl, inr, true, false, Option, none, some, List, [],
  ◌∷◌, map, arith, ◌==◌, if◌then◌else◌, Bool-cases, length, get_elem?, out_of_range, Result, ok,
  ◌>>=◌, or_fault,
}
use trademgen.Platform.{Platform, IsOrdered}
use trademgen.Attribute.Scan.{at, scan-map, position, found, found-shift_option}
use trademgen.Attribute.Dictionary.{key_to_value}
use trademgen.Attribute.Continuous.{Scalar, ContinuousDistribution, init, interpolate, get_value}

module _ ⦃p : Platform⦄ where
  open p use {Real, add, sub, mul, div, lt, eq}

  module _ (laws : IsOrdered) where
    open laws use {eq-def, lt_cotrans}

    -- The test `==` of two points that enclose the variate fails.
    enclosed : (u c d : Real) → lt u c ≡ false → lt u d ≡ true → eq c d ≡ false
    enclosed u c d low t = ground (arith, eq-def c d, lt_cotrans u c d t)

  module _ {T : Type 0} ⦃s : Scalar T⦄ where
    open s use {minus, to_real, of_real}

    -- The straight line through two points of the distribution, at `u`.
    abbrev pub line : Real → T → Real → T → Real → T
    line u v c w d = of_real (add (to_real v) (div (mul (to_real (minus w v)) (sub u c)) (sub d c)))

    -- Past the point `(v, c)`: the line up to the next point that lies above `u`, or the last value.
    abbrev pub between : Real → T → Real → ContinuousDistribution T → T
    between u v c [] = v
    between u v c ((w, d) ∷ es) =
        let rest = between u w d es in if lt u d then line u v c w d else rest

    -- The inverse of the distribution: the first value below its first point, the last one past its
    -- last point, and the straight line from point to point.
    abbrev pub inverse : Real → ContinuousDistribution T → Option T
    inverse u [] = none
    inverse u ((v, c) ∷ es) = some (if lt u c then v else between u v c es)

    -- `getValue` from the index that its loop found.
    after : List Real → List T → ℕ → Real → ℕ → Result T
    unfolding interpolate key_to_value
    after cums vals size u idx =
        if idx == 0 then at vals idx else if idx == size then at vals (idx - 1) else do
          c_cur ← at cums idx
          v_cur ← at vals idx
          c_prev ← at cums (idx - 1)
          v_prev ← at vals (idx - 1)
          ok (interpolate u v_prev (key_to_value c_prev) v_cur (key_to_value c_cur))

    abbrev index_from : Real → ℕ → ContinuousDistribution T → Result ℕ
    index_from u i es =
        found (λ k. ok k) (λ k. ok k) (length es) i (position (λ c. lt u c) (map (λ e. e.1) es))

    after_end :
        (cums : List Real) (vals : List T) (size : ℕ) (u : Real) (i k : ℕ) (v : T)
        → get_elem? vals i ≡ some v
        → k ≡ suc i
        → size ≡ k
        → after cums vals size u k ≡ ok v
    unfolding after
    after_end cums vals size u i k v hv hk n =
        let e : k - 1 ≡ i = omega arith in ground (arith, ap (get_elem? vals) e)

    module _ (laws : IsOrdered) where
      after_point :
          (cums : List Real) (vals : List T) (size : ℕ) (u : Real) (i k : ℕ) (v w : T) (c d : Real)
          → get_elem? cums i ≡ some c
          → get_elem? vals i ≡ some v
          → get_elem? cums k ≡ some d
          → get_elem? vals k ≡ some w
          → k ≡ suc i
          → k < size
          → lt u c ≡ false
          → lt u d ≡ true
          → after cums vals size u k ≡ ok (line u v c w d)
      unfolding after
      after_point cums vals size u i k v w c d hc hv hd hw hk n low t =
          let e : k - 1 ≡ i = omega arith in
          ground (arith, ap (get_elem? vals) e, ap (get_elem? cums) e, enclosed laws u c d low t)

      after-between :
          (cums : List Real) (vals : List T) (size : ℕ) (u : Real) (i : ℕ) (v : T) (c : Real)
          (es : ContinuousDistribution T)
          → get_elem? cums i ≡ some c
          → get_elem? vals i ≡ some v
          → ((j : ℕ) → get_elem? cums (suc i + j) ≡ get_elem? (map (λ e. e.1) es) j)
          → ((j : ℕ) → get_elem? vals (suc i + j) ≡ get_elem? (map (λ e. e.0) es) j)
          → size ≡ suc i + length es
          → lt u c ≡ false
          → (index_from u (suc i) es >>= after cums vals size u) ≡ ok (between u v c es)
      after-between cums vals size u i v c [] hc hv rc rv n low =
          after_end cums vals size u i (suc i + 0) v hv (omega arith) n
      after-between cums vals size u i v c ((w, d) ∷ es) hc hv rc rv n low =
          elim (Bool-cases (lt u d)) [
            | inl t ↦ rw t (
                after_point cums vals size u i (suc i + 0) v w c d hc hv (rc 0) (rv 0) (omega arith)
                  (omega arith) low t)
            | inr f ↦
                rw
                  (
                    f,
                    ← found-shift_option (λ k. ok k) (λ k. ok k) (length es) (suc i)
                        (position (λ x. lt u x) (map (λ e. e.1) es)),
                  )
                  (after-between cums vals size u (suc i) w d es
                    (ap (get_elem? cums) (omega arith) ∙ rc 0)
                    (ap (get_elem? vals) (omega arith) ∙ rv 0)
                    (λ j. ap (get_elem? cums) (omega arith) ∙ rc (suc j))
                    (λ j. ap (get_elem? vals) (omega arith) ∙ rv (suc j)) (omega arith) f)
          ]

      -- Where the doubles are ordered, `getValue` on the arrays that `init` fills is the inverse
      -- of the map's distribution: the first value below the first probability, the last one past
      -- the last, and a straight line between two neighbours. Every access to the arrays is in
      -- range, but for the empty map, where it throws.
      pub get_value-inverse :
          (m : ContinuousDistribution T) (u : Real)
          → get_value (init m) u ≡ or_fault out_of_range (inverse u m)
      unfolding get_value init after
      get_value-inverse [] u = refl
      get_value-inverse ((v, c) ∷ es) u =
          let cums : List Real = map (λ e. e.1) ((v, c) ∷ es) in
          let vals : List T = map (λ e. e.0) ((v, c) ∷ es) in
          ap (λ r. r >>= after cums vals (suc (length es)) u)
            (scan-map (λ d. lt u d) (λ k. ok k) (λ k. ok k) (λ e. e.1) ((v, c) ∷ es))
          ∙ elim (Bool-cases (lt u c)) [
            | inl t ↦ rw t
            | inr f ↦
                rw
                  (
                    f,
                    ← found-shift_option (λ k. ok k) (λ k. ok k) (length es) 0
                        (position (λ x. lt u x) (map (λ e. e.1) es)),
                  )
                  (after-between cums vals (suc (length es)) u 0 v c es refl refl
                    (λ j. let e : 1 + j ≡ suc j = omega arith in ap (get_elem? cums) e)
                    (λ j. let e : 1 + j ≡ suc j = omega arith in ap (get_elem? vals) e)
                    (omega arith) f)
          ]
