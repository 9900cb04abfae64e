-- ===== src/Routing/Select/Cheapest.antt =====
-- The order of the candidates: by cost, and between equal costs by the lower bound.
use outcome_router.Base.{◌≡◌, ◌↔◌, true, false, List, ◌∷◌, arith, In, All, All-In}
use outcome_router.Double.{Double, ◌⊖◌, ltf}
use outcome_router.Double.Laws.{IsOrdered, IsNumber, ◌≼◌}
use outcome_router.Domain.{Prediction}
use outcome_router.Routing.Select.{epsilon, cheaper, sort_slice}
use outcome_router.Routing.Select.Sort.{IsWeakOrder, sort_slice-least}

module _ {F : Type 0} ⦃d : Double F⦄ where
  -- The costs differ by less than the tolerance only where they are equal.
  abbrev pub AreSeparated : Prediction F → Prediction F → Type 0
  AreSeparated a b = (ltf (d.abs (a.estimated_cost_usd ⊖ b.estimated_cost_usd)) epsilon ≡ true) ↔ (
      (a.estimated_cost_usd ≼ b.estimated_cost_usd) × (b.estimated_cost_usd ≼ a.estimated_cost_usd))

  pub record HasNumbers (p : Prediction F) : Type 0 where
    pub cost : IsNumber p.estimated_cost_usd
    pub bound : IsNumber p.lower_bound

  -- Candidates on which the comparison is an order.
  pub record AreComparable (candidates : List (Prediction F)) : Type 0 where
    pub numbers : (p : Prediction F) → In p candidates → HasNumbers p
    pub separated : (p q : Prediction F) → In p candidates → In q candidates → AreSeparated p q

  -- The same, checked entry by entry.
  pub AreComparable-of_All :
      (candidates : List (Prediction F))
      → All HasNumbers candidates
      → All (λ p. All (AreSeparated p) candidates) candidates
      → AreComparable candidates
  AreComparable-of_All candidates n s = record {
    numbers = λ p i. All-In HasNumbers candidates p n i;
    separated = λ p q i j.
        All-In (AreSeparated p) candidates q
          (All-In (λ r. All (AreSeparated r) candidates) candidates p s i) j;
  }

  -- `a` costs no less than `b`, and at the same cost has no higher lower bound.
  abbrev pub NoBetter : Prediction F → Prediction F → Type 0
  NoBetter a b =
      (b.estimated_cost_usd ≼ a.estimated_cost_usd)
      × (a.estimated_cost_usd ≼ b.estimated_cost_usd → a.lower_bound ≼ b.lower_bound)

  module _ (ordered : IsOrdered F) where
    open ordered use {le_trans, le_total, lt-eq-not-le}

    cheaper-NoBetter :
        (a b : Prediction F)
        → HasNumbers a
        → HasNumbers b
        → AreSeparated a b
        → cheaper a b ≡ false
        → NoBetter a b
    unfolding cheaper
    cheaper-NoBetter a b na nb sep h = ground (
      arith,
      lt-eq-not-le a.estimated_cost_usd b.estimated_cost_usd na.cost nb.cost,
      lt-eq-not-le b.lower_bound a.lower_bound nb.bound na.bound,
      le_total a.estimated_cost_usd b.estimated_cost_usd na.cost nb.cost,
    )

    NoBetter-cheaper :
        (a b : Prediction F)
        → HasNumbers a
        → HasNumbers b
        → AreSeparated a b
        → NoBetter a b
        → cheaper a b ≡ false
    unfolding cheaper
    NoBetter-cheaper a b na nb sep h = ground (
      arith,
      lt-eq-not-le a.estimated_cost_usd b.estimated_cost_usd na.cost nb.cost,
      lt-eq-not-le b.lower_bound a.lower_bound nb.bound na.bound,
    )

    NoBetter-trans : (a b c : Prediction F) → NoBetter a b → NoBetter b c → NoBetter a c
    NoBetter-trans a b c (ab, ab') (bc, bc') =
        let ac = le_trans c.estimated_cost_usd b.estimated_cost_usd a.estimated_cost_usd bc ab in
        (
          ac,
          λ ca.
              le_trans a.lower_bound b.lower_bound c.lower_bound
                (ab'
                  (le_trans a.estimated_cost_usd c.estimated_cost_usd b.estimated_cost_usd ca bc))
                (bc'
                  (le_trans b.estimated_cost_usd a.estimated_cost_usd c.estimated_cost_usd ab ca)),
        )

    cheaper_asym :
        (a b : Prediction F)
        → HasNumbers a
        → HasNumbers b
        → AreSeparated a b
        → AreSeparated b a
        → cheaper a b ≡ true
        → cheaper b a ≡ false
    unfolding cheaper
    cheaper_asym a b na nb ab ba h = ground (
      arith,
      lt-eq-not-le a.estimated_cost_usd b.estimated_cost_usd na.cost nb.cost,
      lt-eq-not-le b.estimated_cost_usd a.estimated_cost_usd nb.cost na.cost,
      lt-eq-not-le b.lower_bound a.lower_bound nb.bound na.bound,
      lt-eq-not-le a.lower_bound b.lower_bound na.bound nb.bound,
      le_total a.estimated_cost_usd b.estimated_cost_usd na.cost nb.cost,
      le_total a.lower_bound b.lower_bound na.bound nb.bound,
    )

    module _ (candidates : List (Prediction F)) (c : AreComparable candidates) where
      open c use {numbers, separated}

      cheaper-IsWeakOrder : IsWeakOrder cheaper (λ p. In p candidates)
      cheaper-IsWeakOrder = record {
        asym = λ p q i j.
            cheaper_asym p q (numbers p i) (numbers q j) (separated p q i j) (separated q p j i);
        trans = λ p q r i j k h l.
            NoBetter-cheaper p r (numbers p i) (numbers r k) (separated p r i k) (
              NoBetter-trans p q r
                (cheaper-NoBetter p q (numbers p i) (numbers q j) (separated p q i j) h)
                (cheaper-NoBetter q r (numbers q j) (numbers r k) (separated q r j k) l));
      }

      -- No candidate is better than the first.
      pub sorted-NoBetter :
          (first : Prediction F) (rest : List (Prediction F))
          → In first candidates
          → sort_slice cheaper candidates ≡ first ∷ rest
          → (p : Prediction F) → In p candidates
          → NoBetter p first
      sorted-NoBetter first rest i e p j =
          cheaper-NoBetter p first (numbers p j) (numbers first i) (separated p first j i) (
            sort_slice-least cheaper (λ q. In q candidates) cheaper-IsWeakOrder candidates first
              rest (λ q k. k) e p j)
