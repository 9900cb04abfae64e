-- ===== src/Routing/Select/Sort.antt =====
-- The first entry after the sort is the least, where the comparison is a strict weak order.
use mathlib.Core.List.{foldl, reverse, reverse-cons}
use outcome_router.Base.{
  ◌≡◌, refl, ◌⊎◌, inl, inr, Bool, true, false, List, [], ◌∷◌, ◌++◌, arith, In, Bool-cases, length,
  length-append, ◌+◌, suc, ap,
}
use outcome_router.Routing.Select.{sink, sink_into, sort_slice}

module _ {A : Type 0} (less : A → A → Bool) where
  -- The length stays.
  length-sink : (x : A) (ys : List A) → length (sink less x ys) ≡ suc (length ys)
  unfolding sink
  length-sink x [] = refl
  length-sink x (y ∷ ys) = ground (arith, length-sink x ys)

  length-foldl_sink :
      (xs acc : List A) → length (foldl (sink_into less) acc xs) ≡ length acc + length xs
  length-foldl_sink [] acc = omega arith
  length-foldl_sink (x ∷ xs) acc =
      omega (arith, length-foldl_sink xs (sink less x acc), length-sink x acc)

  length-reverse : (xs : List A) → length (reverse xs) ≡ length xs
  length-reverse [] = refl
  length-reverse (x ∷ xs) =
      omega (
        arith,
        ap length (reverse-cons x xs),
        length-append (reverse xs) (x ∷ []),
        length-reverse xs,
      )

  pub length-sort_slice : (xs : List A) → length (sort_slice less xs) ≡ length xs
  unfolding sort_slice
  length-sort_slice xs =
      omega (arith, length-reverse (foldl (sink_into less) [] xs), length-foldl_sink xs [])

  last : A → List A → A
  last y [] = y
  last y (x ∷ xs) = last x xs

  last-In : (y : A) (ys : List A) → In (last y ys) (y ∷ ys)
  unfolding last
  last-In y [] = inl refl
  last-In y (x ∷ xs) = inr (last-In x xs)

  reverse-last : (y : A) (ys : List A) → (t : List A) × (reverse (y ∷ ys) ≡ last y ys ∷ t)
  unfolding last
  reverse-last y [] = ([], refl)
  reverse-last y (x ∷ xs) =
      let (t, e) = reverse-last x xs in (t ++ y ∷ [], rw (reverse-cons y (x ∷ xs), e))

  -- Sorting loses nothing.
  sink-In : (x : A) (ys : List A) (z : A) → (x ≡ z) ⊎ In z ys → In z (sink less x ys)
  unfolding sink
  sink-In x [] z h = h
  sink-In x (y ∷ ys) z h = ground (arith, sink-In x ys z)

  foldl_sink-In :
      (xs acc : List A) (z : A) → In z acc ⊎ In z xs → In z (foldl (sink_into less) acc xs)
  foldl_sink-In [] acc z (inl i) = i
  foldl_sink-In [] acc z (inr i) = absurd i
  foldl_sink-In (x ∷ xs) acc z (inl i) =
      foldl_sink-In xs (sink less x acc) z (inl (sink-In x acc z (inr i)))
  foldl_sink-In (x ∷ xs) acc z (inr (inl e)) =
      foldl_sink-In xs (sink less x acc) z (inl (sink-In x acc z (inl e)))
  foldl_sink-In (x ∷ xs) acc z (inr (inr i)) = foldl_sink-In xs (sink less x acc) z (inr i)

  append-In : (xs ys : List A) (z : A) → In z xs ⊎ In z ys → In z (xs ++ ys)
  append-In [] ys z (inl i) = absurd i
  append-In [] ys z (inr i) = i
  append-In (x ∷ xs) ys z (inl (inl e)) = inl e
  append-In (x ∷ xs) ys z (inl (inr i)) = inr (append-In xs ys z (inl i))
  append-In (x ∷ xs) ys z (inr i) = inr (append-In xs ys z (inr i))

  reverse-In : (xs : List A) (z : A) → In z xs → In z (reverse xs)
  reverse-In [] z i = i
  reverse-In (x ∷ xs) z (inl e) = rw reverse-cons (append-In (reverse xs) (x ∷ []) z (inr (inl e)))
  reverse-In (x ∷ xs) z (inr i) =
      rw reverse-cons (append-In (reverse xs) (x ∷ []) z (inl (reverse-In xs z i)))

  pub sort_slice-In : (xs : List A) (z : A) → In z xs → In z (sort_slice less xs)
  unfolding sort_slice
  sort_slice-In xs z i = reverse-In _ z (foldl_sink-In xs [] z (inr i))

  -- The laws of the order on the entries that satisfy `Ok`.
  pub record IsWeakOrder (Ok : A → Type 0) : Type 0 where
    pub asym : (x y : A) → Ok x → Ok y → less x y ≡ true → less y x ≡ false
    pub trans :
        (x y z : A) → Ok x → Ok y → Ok z → less x y ≡ false → less y z ≡ false → less x z ≡ false

  module _ (Ok : A → Type 0) (order : IsWeakOrder Ok) where
    -- No entry is less than one behind it, in the reversed list.
    abbrev Over : A → List A → Type 0
    Over x [] = Unit
    Over x (y ∷ ys) = (less x y ≡ false) × Over x ys

    abbrev Descending : List A → Type 0
    Descending [] = Unit
    Descending (y ∷ ys) = Ok y × Over y ys × Descending ys

    Over-trans :
        (x y : A) (zs : List A)
        → Ok x
        → Ok y
        → less x y ≡ false
        → Descending zs
        → Over y zs
        → Over x zs
    Over-trans x y [] ox oy h s o = tt
    Over-trans x y (z ∷ zs) ox oy h (oz, _, s) (o, os) =
        (order.trans x y z ox oy oz h o, Over-trans x y zs ox oy h s os)

    Over-sink : (y x : A) (zs : List A) → less y x ≡ false → Over y zs → Over y (sink less x zs)
    unfolding sink
    Over-sink y x [] h o = (h, tt)
    Over-sink y x (z ∷ zs) h (o, os) = ground (arith, Over-sink y x zs h os)

    sink-Descending : (x : A) (ys : List A) → Ok x → Descending ys → Descending (sink less x ys)
    unfolding sink
    sink-Descending x [] ox s = (ox, tt, tt)
    sink-Descending x (y ∷ ys) ox (oy, o, s) = elim (Bool-cases (less x y)) [
      | inl under ↦
          rw under (oy, Over-sink y x ys (order.asym x y ox oy under) o, sink-Descending x ys ox s)
      | inr over ↦ rw over (ox, (over, Over-trans x y ys ox oy over s o), (oy, o, s))
    ]

    foldl_sink-Descending :
        (xs acc : List A)
        → ((x : A) → In x xs → Ok x)
        → Descending acc
        → Descending (foldl (sink_into less) acc xs)
    foldl_sink-Descending [] acc all s = s
    foldl_sink-Descending (x ∷ xs) acc all s =
        foldl_sink-Descending xs (sink less x acc) (λ y i. all y (inr i))
          (sink-Descending x acc (all x (inl refl)) s)

    not-less_self : (x : A) → Ok x → less x x ≡ false
    not-less_self x o = elim (Bool-cases (less x x)) [ inl h ↦ order.asym x x o o h | inr h ↦ h ]

    Over-In : (x : A) (ys : List A) (z : A) → Over x ys → In z ys → less x z ≡ false
    Over-In x [] z o i = absurd i
    Over-In x (y ∷ ys) z (o, os) (inl same) = rw (← same) o
    Over-In x (y ∷ ys) z (o, os) (inr i) = Over-In x ys z os i

    -- The last entry of a descending list is its least.
    last-least :
        (y : A) (ys : List A) (z : A)
        → Descending (y ∷ ys)
        → In z (y ∷ ys)
        → less z (last y ys) ≡ false
    unfolding last
    last-least y [] z (o, _, _) (inl same) = rw (← same) (not-less_self y o)
    last-least y [] z s (inr i) = absurd i
    last-least y (x ∷ xs) z (_, o, s) (inl same) =
        rw (← same) (Over-In y (x ∷ xs) (last x xs) o (last-In x xs))
    last-least y (x ∷ xs) z (_, _, s) (inr i) = last-least x xs z s i

    reverse-least :
        (sorted : List A) (first : A) (rest : List A) (z : A)
        → Descending sorted
        → reverse sorted ≡ first ∷ rest
        → In z sorted
        → less z first ≡ false
    reverse-least [] first rest z s e i = absurd i
    reverse-least (y ∷ ys) first rest z s e i =
        let (t, shape) = reverse-last y ys in
        let same : last y ys ≡ first = cc in rw (← same) (last-least y ys z s i)

    -- No entry is less than the one that the sort puts first.
    pub sort_slice-least :
        (xs : List A) (first : A) (rest : List A)
        → ((x : A) → In x xs → Ok x)
        → sort_slice less xs ≡ first ∷ rest
        → (z : A) → In z xs
        → less z first ≡ false
    unfolding sort_slice
    sort_slice-least xs first rest all e z i =
        reverse-least (foldl (sink_into less) [] xs) first rest z
          (foldl_sink-Descending xs [] all tt) e (foldl_sink-In xs [] z (inr i))
