-- ===== src/Eviction/Lru/Ordering.antt =====
-- Queues of least recent use as lists: which elements they hold, and the order of a number given to each.
use zncache.Base.{
  ℕ, ◌<◌, ◌≡◌, arith, inl, inr, true, false, List, [], ◌∷◌, ◌++◌, ◌==◌, if◌then◌else◌, eq_or_ne,
}
use zncache.Eviction.Lru.Queue.{without, moved_last, listed}

pub listed-without :
    (x y : ℕ) (ys : List ℕ) → listed y (without x ys) ≡ (if x == y then false else listed y ys)
listed-without x y [] = ground arith
listed-without x y (z ∷ ys) = ground (arith, listed-without x y ys)

pub listed-append :
    (x y : ℕ) (ys : List ℕ) → listed y (ys ++ x ∷ []) ≡ (if x == y then true else listed y ys)
listed-append x y [] = ground arith
listed-append x y (z ∷ ys) = ground (arith, listed-append x y ys)

pub listed-moved_last :
    (x y : ℕ) (ys : List ℕ) → listed y (moved_last x ys) ≡ (if x == y then true else listed y ys)
listed-moved_last x y ys = ground (arith, listed-append x y (without x ys), listed-without x y ys)

-- The list is in the strict order of a number given to its elements.
abbrev pub Ordered : (ℕ → ℕ) → List ℕ → Type 0
Ordered f [] = Unit {0}
Ordered f (x ∷ ys) = ((y : ℕ) → listed y ys ≡ true → f x < f y) × Ordered f ys

pub Ordered-without : (f : ℕ → ℕ) (x : ℕ) (ys : List ℕ) → Ordered f ys → Ordered f (without x ys)
Ordered-without f x [] o = tt
Ordered-without f x (y ∷ ys) (first, o) = elim (eq_or_ne y x) [
  | inl e ↦ ground (arith, Ordered-without f x ys o)
  | inr ne ↦
      let rest : Ordered f (y ∷ without x ys) =
        (λ z there. first z (ground (arith, listed-without x z ys)), Ordered-without f x ys o) in
      ground (arith, rest)
]

pub Ordered-same :
    (f g : ℕ → ℕ) (ys : List ℕ)
    → ((y : ℕ) → listed y ys ≡ true → g y ≡ f y)
    → Ordered f ys
    → Ordered g ys
Ordered-same f g [] same o = tt
Ordered-same f g (y ∷ ys) same (first, o) = (
  λ z there. ground (arith, first z there, same y, same z),
  Ordered-same f g ys (λ z there. same z (ground arith)) o,
)

pub Ordered-append :
    (f : ℕ → ℕ) (x : ℕ) (ys : List ℕ)
    → ((y : ℕ) → listed y ys ≡ true → f y < f x)
    → Ordered f ys
    → Ordered f (ys ++ x ∷ [])
Ordered-append f x [] last o = (λ y there. cc, tt)
Ordered-append f x (y ∷ ys) last (first, o) = (
  λ z there. ground (arith, listed-append x z ys, first z, last y),
  Ordered-append f x ys (λ z there. last z (ground arith)) o,
)
