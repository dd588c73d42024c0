-- ===== src/Charts/Lines/Hits.antt =====
-- The point that the hit test of a line chart finds.
use my_cars.Prelude.{
  ℕ, zero, suc, ◌≡◌, refl, ap, inl, inr, Bool, true, false, not, List, [], ◌∷◌, ◌++◌, Option, none,
  some, all, all-append, length, length-append, take, get_elem?, arith, Bool-cases, append_assoc,
  append-nil, and_iff,
}
use my_cars.Charts.Lines.{Nearest, compare_one, compare_from, hit_test}

-- Distances that are compared by `<`: none of them is NaN.
pub record IsOrder {D : Type 0} (lt : D → D → Bool) : Type 0 where
  pub irreflexive : (a : D) → lt a a ≡ false
  pub transitive : (a b c : D) → lt a b ≡ true → lt b c ≡ true → lt a c ≡ true
  pub connected : (a b c : D) → lt a b ≡ true → lt c b ≡ false → lt a c ≡ true

module _ {D : Type 0} (lt : D → D → Bool) (infinity : D) where
  -- A distance that is finite, not above any, and below all before it.
  pub record IsFirst (distances : List D) (i : ℕ) (d : D) : Type 0 where
    pub found : get_elem? distances i ≡ some d
    pub finite : lt d infinity ≡ true
    pub least : all (λ e. not (lt e d)) distances ≡ true
    pub first : all (λ e. lt d e) (take i distances) ≡ true

  -- What the hit test promises: the first point of the least finite distance, or none where no
  -- distance is finite.
  abbrev pub IsHit : List D → Option ℕ → D → Type 0
  IsHit distances none d = (d ≡ infinity) × (all (λ e. not (lt e infinity)) distances ≡ true)
  IsHit distances (some i) d = IsFirst distances i d

  module _ (order : IsOrder lt) where
    one : (p : D → Bool) (d : D) → p d ≡ true → all p (d ∷ []) ≡ true
    one p d h = ground arith

    all-weaker :
        (p q : D → Bool) (w : (e : D) → p e ≡ true → q e ≡ true) (ds : List D)
        → all p ds ≡ true
        → all q ds ≡ true
    all-weaker p q w [] h = refl
    all-weaker p q w (d ∷ ds) h =
        let (x, y) = (and_iff (p d) (all p ds)).0 h in
        (and_iff (q d) (all q ds)).1 (w d x, all-weaker p q w ds y)

    get_elem?-end : (ds : List D) (d : D) → get_elem? (ds ++ d ∷ []) (length ds) ≡ some d
    get_elem?-end [] d = refl
    get_elem?-end (e ∷ ds) d = get_elem?-end ds d

    length-end : (ds : List D) (d : D) → length (ds ++ d ∷ []) ≡ suc (length ds)
    length-end ds d = omega (arith, length-append ds (d ∷ []))

    take-end : (ds : List D) (d : D) → take (length ds) (ds ++ d ∷ []) ≡ ds
    take-end [] d = refl
    take-end (e ∷ ds) d = ap (λ k. e ∷ k) (take-end ds d)

    get_elem?-more :
        (ds es : List D) (i : ℕ) (d : D) → get_elem? ds i ≡ some d → get_elem? (ds ++ es) i ≡ some d
    get_elem?-more [] es i d h = cc
    get_elem?-more (e ∷ ds) es zero d h = h
    get_elem?-more (e ∷ ds) es (suc i) d h = get_elem?-more ds es i d h

    take-more :
        (ds es : List D) (i : ℕ) (d : D) → get_elem? ds i ≡ some d → take i (ds ++ es) ≡ take i ds
    take-more [] es i d h = cc
    take-more (e ∷ ds) es zero d h = refl
    take-more (e ∷ ds) es (suc i) d h = ap (λ k. e ∷ k) (take-more ds es i d h)

    false_of_not : (b : Bool) → not b ≡ true → b ≡ false
    false_of_not b h = ground arith

    not_of_false : (b : Bool) → b ≡ false → not b ≡ true
    not_of_false b h = ground arith

    asymmetric : (d e : D) → lt d e ≡ true → lt e d ≡ false
    asymmetric d e h = elim (Bool-cases (lt e d)) [
      | inl k ↦ cc (order.transitive d e d h k, order.irreflexive d)
      | inr k ↦ k
    ]

    -- A distance below the best one becomes the best one.
    better :
        (ds : List D) (best d : D)
        → lt d infinity ≡ true
        → lt d best ≡ true
        → all (λ e. not (lt e best)) ds ≡ true
        → IsFirst (ds ++ d ∷ []) (length ds) d
    better ds best d finite below least =
        let before : all (λ e. lt d e) ds ≡ true =
          all-weaker (λ e. not (lt e best)) (λ e. lt d e)
            (λ e h. order.connected d best e below (false_of_not (lt e best) h)) ds least in
        record {
          found = get_elem?-end ds d;
          finite = finite;
          least =
              all-append (λ e. not (lt e d)) ds (d ∷ [])
                (all-weaker (λ e. lt d e) (λ e. not (lt e d))
                  (λ e h. not_of_false (lt e d) (asymmetric d e h)) ds before)
                (one (λ e. not (lt e d)) d (not_of_false (lt d d) (order.irreflexive d)));
          first = rw (take-end ds d) before;
        }

    -- One round keeps the promise.
    compare_one-IsHit :
        (ds : List D) (o : Option ℕ) (best d : D)
        → IsHit ds o best
        → IsHit
            (ds ++ d ∷ [])
            (compare_one lt infinity (length ds) d (record { nearest = o; best = best })).nearest
            (compare_one lt infinity (length ds) d (record { nearest = o; best = best })).best
    compare_one-IsHit ds none best d (e, least) = elim (Bool-cases (lt d best)) [
      | inl below ↦ rw below (
          better ds best d (rw e at below) below
            (all-weaker (λ x. not (lt x infinity)) (λ x. not (lt x best)) (λ x h. rw e h) ds least))
      | inr above ↦ rw above (
        e,
        all-append (λ x. not (lt x infinity)) ds (d ∷ []) least
            (one (λ x. not (lt x infinity)) d (not_of_false (lt d infinity) (rw e at above))),
      )
    ]
    compare_one-IsHit ds (some i) best d h = elim (Bool-cases (lt d best)) [
      | inl below ↦
          rw below
            (better ds best d (order.transitive d best infinity below h.finite) below h.least)
      | inr above ↦ rw above (record {
        found = get_elem?-more ds (d ∷ []) i best h.found;
        finite = h.finite;
        least =
            all-append (λ x. not (lt x best)) ds (d ∷ []) h.least
              (one (λ x. not (lt x best)) d (not_of_false (lt d best) above));
        first = rw (take-more ds (d ∷ []) i best h.found) h.first;
      })
    ]

    compare_from-IsHit :
        (ds : List D) (s : Nearest D) (es : List D)
        → IsHit ds s.nearest s.best
        → IsHit
            (ds ++ es)
            (compare_from lt infinity (length ds) s es).nearest
            (compare_from lt infinity (length ds) s es).best
    compare_from-IsHit ds s [] h = rw (append-nil ds) h
    compare_from-IsHit ds s (e ∷ es) h =
        let later =
          compare_from-IsHit (ds ++ e ∷ []) (compare_one lt infinity (length ds) e s) es
            (compare_one-IsHit ds s.nearest s.best e h) in
        rw (length-end ds e, append_assoc ds (e ∷ []) es) at later

    -- For an order of the distances in which none is NaN, the point that the hit test finds has a
    -- finite distance, which no other point's is below and which is below that of every earlier
    -- point; and it finds none exactly where no point has a finite distance.
    pub hit_test-IsHit :
        (distances : List D) → (d : D) × IsHit distances (hit_test lt infinity distances) d
    unfolding hit_test
    hit_test-IsHit distances = (
      (compare_from lt infinity 0 (record { nearest = none; best = infinity }) distances).best,
      compare_from-IsHit [] (record { nearest = none; best = infinity }) distances (refl, refl),
    )
