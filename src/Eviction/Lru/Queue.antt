-- ===== src/Eviction/Lru/Queue.antt =====
-- The elements of a queue of links, and what the operations on links do to them.
use zncache.Base.{
  ℕ, ◌≡◌, refl, ap, ◌≢◌, inl, inr, arith, Bool, true, false, none, some, List, [], ◌∷◌, ◌++◌, ◌==◌,
  if◌then◌else◌, eq_or_ne,
}
use zncache.Glib.{assoc, drop_key, Distinct}

abbrev pub elements : List (ℕ × ℕ) → List ℕ
elements [] = []
elements ((n, x) ∷ q) = x ∷ elements q

abbrev pub without : ℕ → List ℕ → List ℕ
without x [] = []
without x (y ∷ ys) = if y == x then without x ys else y ∷ without x ys

-- The list with one element moved to its end.
abbrev pub moved_last : ℕ → List ℕ → List ℕ
moved_last x ys = without x ys ++ x ∷ []

abbrev pub listed : ℕ → List ℕ → Bool
listed x [] = false
listed x (y ∷ ys) = if y == x then true else listed x ys

pub without_absent : (x : ℕ) (ys : List ℕ) → listed x ys ≡ false → without x ys ≡ ys
without_absent x [] h = refl
without_absent x (y ∷ ys) h = ground (arith, without_absent x ys)

pub elements-append :
    (q : List (ℕ × ℕ)) (n x : ℕ) → elements (q ++ (n, x) ∷ []) ≡ elements q ++ x ∷ []
elements-append [] n x = refl
elements-append ((m, y) ∷ q) n x = ap (◌∷◌ y) (elements-append q n x)

pub assoc-append :
    (q : List (ℕ × ℕ)) (n x m : ℕ)
    → assoc q n ≡ none
    → assoc (q ++ (n, x) ∷ []) m ≡ (if n == m then some x else assoc q m)
assoc-append [] n x m fresh = refl
assoc-append ((k, y) ∷ q) n x m fresh = ground (arith, assoc-append q n x m)

pub append-Distinct :
    (q : List (ℕ × ℕ)) (n x : ℕ) → assoc q n ≡ none → Distinct q → Distinct (q ++ (n, x) ∷ [])
append-Distinct [] n x fresh d = (refl, tt)
append-Distinct ((k, y) ∷ q) n x fresh (new, d) =
    ground (arith, append-Distinct q n x, assoc-append q n x k)

pub listed_of_link :
    (q : List (ℕ × ℕ)) (n x : ℕ) → assoc q n ≡ some x → listed x (elements q) ≡ true
listed_of_link [] n x e = cc
listed_of_link ((m, y) ∷ q) n x e = ground (arith, listed_of_link q n x)

pub link_of_listed :
    (q : List (ℕ × ℕ)) (x : ℕ)
    → Distinct q
    → listed x (elements q) ≡ true
    → (n : ℕ) × (assoc q n ≡ some x)
link_of_listed [] x d h = cc
link_of_listed ((m, y) ∷ q) x (new, d) h = elim (eq_or_ne y x) [
  | inl e ↦ (m, ground (arith, e))
  | inr ne ↦
      let (n, at) = link_of_listed q x d (ground (arith, ne)) in
      let other : m ≢ n = λ e. cc in (n, ground (arith, other, at))
]

-- The link of the element, and no other link, holds it.
abbrev pub Holds : List (ℕ × ℕ) → ℕ → ℕ → Type 0
Holds q n x =
    ((m y : ℕ) → assoc q m ≡ some y → m ≢ n → y ≢ x) × ((y : ℕ) → assoc q n ≡ some y → y ≡ x)

pub elements-drop_key :
    (q : List (ℕ × ℕ)) (n x : ℕ)
    → Distinct q
    → Holds q n x
    → elements (drop_key q n) ≡ without x (elements q)
elements-drop_key [] n x d h = refl
elements-drop_key ((m, y) ∷ q) n x (new, d) (others, own) =
    let rest : Holds q n x = (
      λ k z e. others k z (let ne : m ≢ k = λ same. cc in ground (arith, ne)),
      λ z e. own z (let ne : m ≢ n = λ same. cc in ground (arith, ne)),
    ) in
    ground (arith, elements-drop_key q n x d rest, others m y, own y)
