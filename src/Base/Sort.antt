-- ===== src/Base/Sort.antt =====
-- sort.Slice by an int64 key, as the insertion sort that it is on short slices. The order that
-- sort.Slice gives equal keys is not fixed; where the keys differ, every sort gives this result.
use mathlib.Core.HLevel.{¬_prop}
use mathlib.Core.Logic.{∥∥₁_elim}
use mathlib.Core.List.{Perm, Permᴰ, Pairwise, mem-cons_self}
use mathlib.Core.List.Perm
use mathlib.Core.List.Permᴰ
use in_memory_base.Base.{
  suc, ap, length, map, ◌≡◌, ◌≢◌, refl, ◌∙◌, sym, List, [], ◌∷◌, arith, if◌then◌else◌, Bool-cases,
  inl, inr, All,
}
use in_memory_base.Base.Int.{ℤ, ltb_ℤ, ◌≤ℤ◌}

module _ {A : Type 0} (key : A → ℤ) where
  -- Before the first element that is not smaller.
  unfoldable pub insert_by : A → List A → List A
  insert_by x [] = x ∷ []
  insert_by x (y ∷ ys) = if ltb_ℤ (key y) (key x) then y ∷ insert_by x ys else x ∷ y ∷ ys

  unfoldable pub sort_by : List A → List A
  unfolding insert_by
  sort_by [] = []
  sort_by (x ∷ xs) = insert_by x (sort_by xs)

  length-insert_by : (x : A) (ys : List A) → length (insert_by x ys) ≡ suc (length ys)
  unfolding insert_by
  length-insert_by x [] = refl
  length-insert_by x (y ∷ ys) = ground (arith, length-insert_by x ys)

  pub length-sort_by : (xs : List A) → length (sort_by xs) ≡ length xs
  unfolding sort_by
  length-sort_by [] = refl
  length-sort_by (x ∷ xs) = length-insert_by x (sort_by xs) ∙ ap suc (length-sort_by xs)

  -- Every element's key is at most those of the later ones.
  abbrev pub IsAscending : List A → Type 0
  IsAscending [] = Unit
  IsAscending (x ∷ xs) = All (λ y. key x ≤ℤ key y) xs × IsAscending xs

  abbrev pub Distinct : List A → Type 0
  Distinct = Pairwise (λ a b. key a ≢ key b)

  All-insert_by :
      (a x : A) (ys : List A)
      → key a ≤ℤ key x
      → All (λ y. key a ≤ℤ key y) ys
      → All (λ y. key a ≤ℤ key y) (insert_by x ys)
  unfolding insert_by
  All-insert_by a x [] h hs = (h, tt)
  All-insert_by a x (y ∷ ys) h hs = elim (Bool-cases (ltb_ℤ (key y) (key x))) [
    | inl e ↦ rw e (hs.0, All-insert_by a x ys h hs.1)
    | inr e ↦ rw e (h, hs)
  ]

  All-weaken :
      (a x : A) (ys : List A)
      → key a ≤ℤ key x
      → All (λ y. key x ≤ℤ key y) ys
      → All (λ y. key a ≤ℤ key y) ys
  All-weaken a x [] h hs = tt
  All-weaken a x (y ∷ ys) h hs = (omega arith, All-weaken a x ys h hs.1)

  insert_by-IsAscending : (x : A) (ys : List A) → IsAscending ys → IsAscending (insert_by x ys)
  unfolding insert_by
  insert_by-IsAscending x [] h = (tt, tt)
  insert_by-IsAscending x (y ∷ ys) h = elim (Bool-cases (ltb_ℤ (key y) (key x))) [
    | inl e ↦ rw e (All-insert_by y x ys (ground arith) h.0, insert_by-IsAscending x ys h.1)
    | inr e ↦ rw e ((ground arith, All-weaken x y ys (ground arith) h.0), h)
  ]

  pub sort_by-IsAscending : (xs : List A) → IsAscending (sort_by xs)
  unfolding sort_by
  sort_by-IsAscending [] = tt
  sort_by-IsAscending (x ∷ xs) = insert_by-IsAscending x (sort_by xs) (sort_by-IsAscending xs)

  insert_by-perm : (x : A) (ys : List A) → Perm (insert_by x ys) (x ∷ ys)
  unfolding insert_by
  insert_by-perm x [] = Perm.refl (x ∷ [])
  insert_by-perm x (y ∷ ys) = elim (Bool-cases (ltb_ℤ (key y) (key x))) [
    | inl e ↦ rw e (Perm.trans (Perm.cons y (insert_by-perm x ys)) (Perm.swap x y ys))
    | inr e ↦ rw e (Perm.refl _)
  ]

  pub sort_by-perm : (xs : List A) → Perm (sort_by xs) xs
  unfolding sort_by
  sort_by-perm [] = Perm.refl []
  sort_by-perm (x ∷ xs) = Perm.trans (insert_by-perm x (sort_by xs)) (Perm.cons x (sort_by-perm xs))

  sort_by_ascending : (xs : List A) → IsAscending xs → sort_by xs ≡ xs
  unfolding sort_by
  sort_by_ascending [] h = refl
  sort_by_ascending (x ∷ []) h = refl
  sort_by_ascending (x ∷ y ∷ xs) h = rw (sort_by_ascending (y ∷ xs) h.1) (ground arith)

  insert_by_comm :
      (x y : A) (l : List A)
      → key x ≢ key y
      → insert_by x (insert_by y l) ≡ insert_by y (insert_by x l)
  unfolding insert_by
  insert_by_comm x y [] h = ground (arith)
  insert_by_comm x y (z ∷ l) h = ground (arith, insert_by_comm x y l h)

  Distinct-permᴰ : {l r : List A} → Permᴰ l r → Distinct l → Distinct r
  Distinct-permᴰ p d =
      Permᴰ.pairwise {R = λ a b. key a ≢ key b} (λ a b. ¬_prop) (λ a b n e. n (sym e)) p d

  sort_by_permᴰ : {l r : List A} → Permᴰ l r → Distinct l → sort_by l ≡ sort_by r
  unfolding sort_by
  sort_by_permᴰ Permᴰ.nil d = refl
  sort_by_permᴰ (Permᴰ.cons {a} {b} {l₁ = l} {l₂ = r} e p) (Pairwise.cons h d) =
      cc (sort_by_permᴰ p d)
  sort_by_permᴰ (Permᴰ.swap {a} {b} {l} e f) (Pairwise.cons h d) =
      cc (insert_by_comm a b (sort_by l) (h b mem-cons_self))
  sort_by_permᴰ (Permᴰ.trans p q) d = sort_by_permᴰ p d ∙ sort_by_permᴰ q (Distinct-permᴰ p d)

  -- Where no two keys are equal, whatever sorts the list finds this result: any ascending
  -- rearrangement of it is the same list.
  pub sort_by_unique :
      {l r : List A} → IsSet (List A) → Perm l r → Distinct l → IsAscending r → sort_by l ≡ r
  sort_by_unique {l} {r} is_set p d h =
      ∥∥₁_elim p (is_set (sort_by l) r) (λ q. sort_by_permᴰ q d ∙ sort_by_ascending r h)

-- Sorting by a key of the images is sorting the images.
map-insert_by :
    {A B : Type 0} (key : B → ℤ) (f : A → B) (x : A) (xs : List A)
    → map f (insert_by (λ a. key (f a)) x xs) ≡ insert_by key (f x) (map f xs)
unfolding insert_by
map-insert_by key f x [] = refl
map-insert_by key f x (y ∷ ys) = elim (Bool-cases (ltb_ℤ (key (f y)) (key (f x)))) [
  | inl e ↦ rw (e, map-insert_by key f x ys)
  | inr e ↦ rw e
]

pub map-sort_by :
    {A B : Type 0} (key : B → ℤ) (f : A → B) (xs : List A)
    → map f (sort_by (λ a. key (f a)) xs) ≡ sort_by key (map f xs)
unfolding sort_by
map-sort_by key f [] = refl
map-sort_by key f (x ∷ xs) =
    rw (map-insert_by key f x (sort_by (λ a. key (f a)) xs), map-sort_by key f xs)

module _ {A : Type 0} (key : A → ℤ) (P : A → Type 0) where
  All-insert : (x : A) (xs : List A) → P x → All P xs → All P (insert_by key x xs)
  unfolding insert_by
  All-insert x [] h hs = (h, tt)
  All-insert x (y ∷ ys) h hs = elim (Bool-cases (ltb_ℤ (key y) (key x))) [
    | inl e ↦ rw e (hs.0, All-insert x ys h hs.1)
    | inr e ↦ rw e (h, hs)
  ]

  pub All-sort_by : (xs : List A) → All P xs → All P (sort_by key xs)
  unfolding sort_by
  All-sort_by [] h = tt
  All-sort_by (x ∷ xs) h = All-insert x (sort_by key xs) h.0 (All-sort_by xs h.1)
