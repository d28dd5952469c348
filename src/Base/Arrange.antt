-- ===== src/Base/Arrange.antt =====
-- Lists in another order: what holds of all elements, and which elements there are, does not change.
use mathlib.Core.Path.{◌≡◌, refl, sym, ◌∙◌, subst}
use mathlib.Core.Logic.{◌⊎◌, inl, inr}
use mathlib.Core.List.{List, [], ◌∷◌, ◌++◌, append_assoc}
use mathlib.Core.List.Permᴰ
use in_memory_base.Base.{All}
pub use mathlib.Core.List.Permᴰ.{
  Permᴰ, nil, cons, swap, trans, symm, append_left, append_right, middle,
}

abbrev pub same_order {ℓ} : {A : Type ℓ} (xs : List A) → Permᴰ xs xs
same_order = Permᴰ.refl

abbrev pub concat {ℓ} : {A : Type ℓ} → List (List A) → List A
concat [] = []
concat (xs ∷ xss) = xs ++ concat xss

-- `x` is an element of the list.
pub data IsIn {ℓ} {A : Type ℓ} (x : A) : List A → Type ℓ where
  here : {y : A} {ys : List A} → y ≡ x → IsIn x (y ∷ ys)
  later : {y : A} {ys : List A} → IsIn x ys → IsIn x (y ∷ ys)

module _ {ℓ} {A : Type ℓ} where
  pub concat-append : (xss yss : List (List A)) → concat (xss ++ yss) ≡ concat xss ++ concat yss
  concat-append [] yss = refl
  concat-append (xs ∷ xss) yss = rw (concat-append xss yss) (sym (append_assoc xs _ _))

  -- A block moves to the front.
  pub block_first : (xs ys zs : List A) → Permᴰ (xs ++ (ys ++ zs)) (ys ++ (xs ++ zs))
  block_first [] ys zs = same_order (ys ++ zs)
  block_first (x ∷ xs) ys zs =
      trans (cons refl (block_first xs ys zs)) (symm (middle x ys (xs ++ zs)))

  pub IsIn-append_left : (x : A) (xs ys : List A) → IsIn x xs → IsIn x (xs ++ ys)
  IsIn-append_left x [] ys m = elim m [ ]
  IsIn-append_left x (y ∷ xs) ys (here e) = here e
  IsIn-append_left x (y ∷ xs) ys (later m) = later (IsIn-append_left x xs ys m)

  pub IsIn-append_right : (x : A) (xs ys : List A) → IsIn x ys → IsIn x (xs ++ ys)
  IsIn-append_right x [] ys m = m
  IsIn-append_right x (y ∷ xs) ys m = later (IsIn-append_right x xs ys m)

  pub IsIn-split : (x : A) (xs ys : List A) → IsIn x (xs ++ ys) → IsIn x xs ⊎ IsIn x ys
  IsIn-split x [] ys m = inr m
  IsIn-split x (y ∷ xs) ys (here e) = inl (here e)
  IsIn-split x (y ∷ xs) ys (later m) = elim (IsIn-split x xs ys m) [
    | inl l ↦ inl (later l)
    | inr r ↦ inr r
  ]

  pub IsIn-perm : {x : A} {xs ys : List A} → Permᴰ xs ys → IsIn x xs → IsIn x ys
  IsIn-perm nil m = elim m [ ]
  IsIn-perm (cons e p) (here h) = here (sym e ∙ h)
  IsIn-perm (cons e p) (later m) = later (IsIn-perm p m)
  IsIn-perm (swap e f) (here h) = later (here (sym e ∙ h))
  IsIn-perm (swap e f) (later (here h)) = here (sym f ∙ h)
  IsIn-perm (swap e f) (later (later m)) = later (later m)
  IsIn-perm (trans p q) m = IsIn-perm q (IsIn-perm p m)

module _ {ℓ κ} {A : Type ℓ} (P : A → Type κ) where
  pub All-perm : {xs ys : List A} → Permᴰ xs ys → All P xs → All P ys
  All-perm nil h = tt
  All-perm (cons e p) (h, hs) = (subst P e h, All-perm p hs)
  All-perm (swap e f) h = (subst P f h.1.0, (subst P e h.0, h.1.1))
  All-perm (trans p q) h = All-perm q (All-perm p h)

  pub All-left : (xs ys : List A) → All P (xs ++ ys) → All P xs
  All-left [] ys h = tt
  All-left (x ∷ xs) ys h = (h.0, All-left xs ys h.1)

  pub All-right : (xs ys : List A) → All P (xs ++ ys) → All P ys
  All-right [] ys h = h
  All-right (x ∷ xs) ys h = All-right xs ys h.1

  pub All-IsIn : (x : A) (xs : List A) → All P xs → IsIn x xs → P x
  All-IsIn x [] h m = elim m [ ]
  All-IsIn x (y ∷ xs) h (here e) = subst P e h.0
  All-IsIn x (y ∷ xs) h (later m) = All-IsIn x xs h.1 m

  pub All-of : (xs : List A) → ((x : A) → IsIn x xs → P x) → All P xs
  All-of [] f = tt
  All-of (x ∷ xs) f = (f x (here refl), All-of xs (λ y m. f y (later m)))

pub All-map {ℓ κ μ} :
    {A : Type ℓ} (P : A → Type κ) (Q : A → Type μ) (xs : List A)
    → ((x : A) → P x → Q x)
    → All P xs
    → All Q xs
All-map P Q [] f h = tt
All-map P Q (x ∷ xs) f (h, hs) = (f x h, All-map P Q xs f hs)
