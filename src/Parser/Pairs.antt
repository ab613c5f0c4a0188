-- ===== src/Parser/Pairs.antt =====
-- Reading the pairs of a distribution (trademgen/command/DemandParserHelper.cpp): each is
-- inserted into a `std::map`.
use Prim.Native.String.{String}
use trademgen.Prelude.{
  ◌≡◌, refl, sym, ap, ◌∙◌, subst, ◌↔◌, ◌⊎◌, inl, inr, Bool, true, List, [], ◌∷◌, ◌++◌, map,
  Bool-cases, All, ok, ◌>>=◌, Result-cases,
}
use trademgen.Platform.{Platform}
use trademgen.DemandStruct.{DemandStruct}
use trademgen.Parser.{Action, perform}
use trademgen.Parser.Demands.{perform_all}
use trademgen.Parser.Line.{actions_from}
use trademgen.Parser.Maps.{insert}

module _ {K V : Type 0} (below : K → K → Bool) where
  -- The entries, inserted one after the other.
  abbrev pub inserted : List (K × V) → List (K × V) → List (K × V)
  inserted m [] = m
  inserted m ((k, v) ∷ es) = inserted (insert below k v m).0 es

  -- Every key of the map is below the key, or above it.
  abbrev pub Differs : K → List (K × V) → Type 0
  Differs k m = All (λ e. (below k (e.0) ≡ true) ⊎ (below (e.0) k ≡ true)) m

  -- No two keys are the same.
  abbrev pub Distinct : List (K × V) → Type 0
  Distinct [] = Unit
  Distinct ((k, v) ∷ m) = All (λ e. (below (e.0) k ≡ true) ⊎ (below k (e.0) ≡ true)) m × Distinct m

  pub All-nothing : (es : List (K × V)) → All (λ e. Differs (e.0) []) es
  All-nothing [] = tt
  All-nothing (e ∷ es) = (tt, All-nothing es)

  -- A key that is not there is inserted.
  pub insert-Differs :
      (k : K) (v : V) (m : List (K × V)) → Differs k m → (insert below k v m).1 ≡ true
  unfolding insert
  insert-Differs k v [] h = refl
  insert-Differs k v ((l, w) ∷ m) (h, a) = elim (Bool-cases (below k l)) [
    | inl t ↦ rw t refl
    | inr f ↦ elim h [ inl t ↦ cc | inr t ↦ rw (f, t) (insert-Differs k v m a) ]
  ]

  insert-All :
      (P : K × V → Type 0) (k : K) (v : V) (m : List (K × V))
      → P (k, v)
      → All P m
      → All P (insert below k v m).0
  unfolding insert
  insert-All P k v [] h a = (h, tt)
  insert-All P k v ((l, w) ∷ m) h (b, a) = elim (Bool-cases (below k l)) [
    | inl t ↦ rw t (h, (b, a))
    | inr f ↦ elim (Bool-cases (below l k)) [
      | inl t ↦ rw (f, t) (b, insert-All P k v m h a)
      | inr g ↦ rw (f, g) (b, a)
    ]
  ]

  pub All-Differs-insert :
      (k : K) (v : V) (m es : List (K × V))
      → All (λ e. Differs (e.0) m) es
      → All (λ e. (below (e.0) k ≡ true) ⊎ (below k (e.0) ≡ true)) es
      → All (λ e. Differs (e.0) (insert below k v m).0) es
  All-Differs-insert k v m [] h a = tt
  All-Differs-insert k v m (e ∷ es) (h, hs) (a, others) = (
    insert-All (λ x. (below (e.0) (x.0) ≡ true) ⊎ (below (x.0) (e.0) ≡ true)) k v m a h,
    All-Differs-insert k v m es hs others,
  )

  abbrev pub IsEntry : K × V → List (K × V) → Type 0
  IsEntry e [] = ⊥
  IsEntry e (x ∷ m) = (e ≡ x) ⊎ IsEntry e m

  -- After an insertion the entry is there beside those that were.
  insert-IsEntry :
      (k : K) (v : V) (m : List (K × V)) (e : K × V)
      → Differs k m
      → IsEntry e (insert below k v m).0 ↔ ((e ≡ (k, v)) ⊎ IsEntry e m)
  unfolding insert
  insert-IsEntry k v [] e h = (λ i. i, λ i. i)
  insert-IsEntry k v ((l, w) ∷ m) e (h, a) = elim (Bool-cases (below k l)) [
    | inl t ↦ rw t (λ i. i, λ i. i)
    | inr f ↦
        let t : below l k ≡ true = elim h [ inl q ↦ absurd (cc) | inr q ↦ q ] in
        let (there, back) = insert-IsEntry k v m e a in
        rw (f, t)
          (
            λ i. elim i [
              | inl q ↦ inr (inl q)
              | inr q ↦ elim (there q) [ inl q' ↦ inl q' | inr q' ↦ inr (inr q') ]
            ],
            λ i. elim i [
              | inl q ↦ inr (back (inl q))
              | inr (inl q) ↦ inl q
              | inr (inr q) ↦ inr (back (inr q))
            ],
          )
  ]

  -- Entries without a key twice, inserted where their keys are not, are all there beside those that
  -- were.
  pub inserted-IsEntry :
      (m es : List (K × V)) (e : K × V)
      → All (λ x. Differs (x.0) m) es
      → Distinct es
      → IsEntry e (inserted m es) ↔ (IsEntry e m ⊎ IsEntry e es)
  inserted-IsEntry m [] e h d = (λ i. inl i, λ i. elim i [ inl q ↦ q | inr q ↦ absurd q ])
  inserted-IsEntry m ((k, v) ∷ es) e (a, h) (other, d) =
      let (there, back) =
        inserted-IsEntry (insert below k v m).0 es e (All-Differs-insert k v m es h other) d in
      let (now, before) = insert-IsEntry k v m e a in
      (
        λ i. elim (there i) [
          | inl q ↦ elim (now q) [ inl q' ↦ inr (inl q') | inr q' ↦ inl q' ]
          | inr q ↦ inr (inr q)
        ],
        λ i. elim i [
          | inl q ↦ back (inl (before (inr q)))
          | inr (inl q) ↦ back (inl (before (inl q)))
          | inr (inr q) ↦ back (inr q)
        ],
      )

module _ ⦃p : Platform⦄ (text_lt : String → String → Bool) where
  open p use {Real}

  -- One run of actions after another.
  pub perform_all-append :
      (xs ys : List Action) (d : DemandStruct) {e : DemandStruct}
      → perform_all text_lt xs d ≡ ok e
      → perform_all text_lt (xs ++ ys) d ≡ perform_all text_lt ys e
  unfolding perform_all
  perform_all-append [] ys d h = ap (λ r. r >>= perform_all text_lt ys) h
  perform_all-append (x ∷ xs) ys d h = elim (Result-cases (perform text_lt x d)) [
    | inl (f, e) ↦ absurd (cc (rw e at h))
    | inr (d', e) ↦ rw e (perform_all-append xs ys d' (rw e at h))
  ]

  -- A distribution of the demand: the key of each code, the actions of a pair, whether they refuse a
  -- key that is there, the map, and the demand with another map after the actions for a code.
  pub record Distribution (K J : Type 0) : Type 0 where
    pub below : J → J → Bool
    pub key : K → J
    pub entry : K → Real → List Action
    pub refuses : Bool
    pub get : DemandStruct → List (J × Real)
    pub put : K → List (J × Real) → DemandStruct → DemandStruct

  module _ {K J : Type 0} (u : Distribution K J) where
    open u use {below, key, entry, refuses, get, put}

    abbrev pub entries : K × Real → List (K × Real) → List (J × Real)
    entries q rest = (key (q.0), q.1) ∷ map (λ r. (key (r.0), r.1)) rest

    abbrev pub last_code : K × Real → List (K × Real) → K
    last_code q [] = q.0
    last_code q (r ∷ rest) = last_code r rest

    -- A map that refuses a key that is there has none of the pairs' keys, and they have no key twice.
    abbrev pub Fits : List (J × Real) → List (J × Real) → Type 0
    Fits m es = (refuses ≡ true) → All (λ e. Differs below (e.0) m) es × Distinct below es

    -- Where the demand is ready, the actions of a pair insert it into the map, if that takes it.
    pub record IsDistribution (Ready : DemandStruct → Type 0) : Type 0 where
      pub get-put : (k : K) (m : List (J × Real)) (d : DemandStruct) → get (put k m d) ≡ m
      pub put-put :
          (k l : K) (m n : List (J × Real)) (d : DemandStruct) → put k m (put l n d) ≡ put k m d
      pub ready-put : (k : K) (m : List (J × Real)) (d : DemandStruct) → Ready (put k m d)
      pub perform-entry :
          (k : K) (r : Real) (d : DemandStruct)
          → Ready d
          → (refuses ≡ true → (insert below (key k) r (get d)).1 ≡ true)
          → perform_all text_lt (entry k r) d ≡ ok (put k (insert below (key k) r (get d)).0 d)

    module _ {Ready : DemandStruct → Type 0} (is : IsDistribution Ready) where
      open is use {get-put, put-put, ready-put, perform-entry}

      -- The pairs of a list, inserted one after the other.
      pub read_pairs :
          (q : K × Real) (rest : List (K × Real)) (d : DemandStruct)
          → Ready d
          → Fits (get d) (entries q rest)
          → perform_all text_lt (actions_from entry q rest) d
            ≡ ok (put (last_code q rest) (inserted below (get d) (entries q rest)) d)
      read_pairs (k, r) [] d ready fits =
          perform-entry k r d ready (λ h. insert-Differs below (key k) r (get d) ((fits h).0.0))
      read_pairs (k, r) (q ∷ rest) d ready fits =
          let m = (insert below (key k) r (get d)).0 in
          let es = entries q rest in
          let d' = put k m d in
          let step =
            perform-entry k r d ready
              (λ h. insert-Differs below (key k) r (get d) ((fits h).0.0)) in
          perform_all-append (entry k r) (actions_from entry q rest) d step
          ∙ read_pairs q rest d' (ready-put k m d) (λ h.
            let ((_, apart), (other, distinct)) = fits h in
            (
              subst (λ v. All (λ e. Differs below (e.0) v) es) (sym (get-put k m d))
                  (All-Differs-insert below (key k) r (get d) es apart other),
              distinct,
            ))
          ∙ ap (λ v. ok (put (last_code q rest) (inserted below v es) d')) (get-put k m d)
          ∙ ap ok (put-put (last_code q rest) k _ m d)
