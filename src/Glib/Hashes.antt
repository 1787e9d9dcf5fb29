-- ===== src/Glib/Hashes.antt =====
-- Hash tables of GLib (GHashTable) with numbers for keys, seen as the list of their entries in the
-- order of an iteration.
use zncache.Base.{
  ℕ, ◌≡◌, refl, arith, Bool, true, false, Option, none, some, List, [], ◌∷◌, ◌==◌, if◌then◌else◌,
}

module _ {V : Type 0} where
  abbrev pub assoc : List (ℕ × V) → ℕ → Option V
  assoc [] k = none
  assoc ((j, v) ∷ t) k = if j == k then some v else assoc t k

  abbrev pub is_some : Option V → Bool
  is_some none = false
  is_some (some v) = true

  -- No key stands twice.
  abbrev pub Distinct : List (ℕ × V) → Type 0
  Distinct [] = Unit {0}
  Distinct ((k, v) ∷ t) = (assoc t k ≡ none) × Distinct t

  -- A write through the pointer that a lookup returned: the entry of the key gets a new value.
  abbrev pub store : List (ℕ × V) → ℕ → V → List (ℕ × V)
  store [] k v = []
  store ((j, w) ∷ t) k v = if j == k then (j, v) ∷ t else (j, w) ∷ store t k v

  pub assoc-store :
      (t : List (ℕ × V)) (k : ℕ) (v : V) (j : ℕ)
      → assoc (store t k v) j
        ≡ (if k == j then (if is_some (assoc t k) then some v else none) else assoc t j)
  assoc-store [] k v j = ground arith
  assoc-store ((i, w) ∷ t) k v j = ground (arith, assoc-store t k v j)

  abbrev pub put : List (ℕ × V) → ℕ → V → List (ℕ × V)
  put [] k v = (k, v) ∷ []
  put ((j, w) ∷ t) k v = if j == k then (k, v) ∷ t else (j, w) ∷ put t k v

  abbrev pub drop_key : List (ℕ × V) → ℕ → List (ℕ × V)
  drop_key [] k = []
  drop_key ((j, w) ∷ t) k = if j == k then drop_key t k else (j, w) ∷ drop_key t k

  pub assoc-put :
      (t : List (ℕ × V)) (k : ℕ) (v : V) (j : ℕ)
      → assoc (put t k v) j ≡ (if k == j then some v else assoc t j)
  assoc-put [] k v j = refl
  assoc-put ((i, w) ∷ t) k v j = ground (arith, assoc-put t k v j)

  pub assoc-drop_key :
      (t : List (ℕ × V)) (k j : ℕ) → assoc (drop_key t k) j ≡ (if k == j then none else assoc t j)
  assoc-drop_key [] k j = ground arith
  assoc-drop_key ((i, w) ∷ t) k j = ground (arith, assoc-drop_key t k j)

  pub put-Distinct : (t : List (ℕ × V)) (k : ℕ) (v : V) → Distinct t → Distinct (put t k v)
  put-Distinct [] k v d = (refl, tt)
  put-Distinct ((i, w) ∷ t) k v (fresh, d) = ground (arith, put-Distinct t k v d, assoc-put t k v i)

  pub drop_key-Distinct : (t : List (ℕ × V)) (k : ℕ) → Distinct t → Distinct (drop_key t k)
  drop_key-Distinct [] k d = tt
  drop_key-Distinct ((i, w) ∷ t) k (fresh, d) =
      ground (arith, drop_key-Distinct t k d, assoc-drop_key t k i)

pub record Tables (V : Type 0) : Type 0 where
  -- `g_hash_table_lookup`, with `none` for NULL, and `g_hash_table_contains`
  pub lookup : List (ℕ × V) → ℕ → Option V
  pub lookup_lem : (t : List (ℕ × V)) (k : ℕ) → lookup t k ≡ assoc t k
  pub contains : List (ℕ × V) → ℕ → Bool
  pub contains_lem : (t : List (ℕ × V)) (k : ℕ) → contains t k ≡ is_some (assoc t k)
  -- `g_hash_table_insert` and `g_hash_table_replace`: the two differ in which equal key they keep
  pub insert : List (ℕ × V) → ℕ → V → List (ℕ × V)
  pub assoc-insert :
      (t : List (ℕ × V)) (k : ℕ) (v : V) (j : ℕ)
      → assoc (insert t k v) j ≡ (if k == j then some v else assoc t j)
  pub insert-Distinct : (t : List (ℕ × V)) (k : ℕ) (v : V) → Distinct t → Distinct (insert t k v)
  -- `g_hash_table_remove` and `g_hash_table_remove_all`
  pub remove : List (ℕ × V) → ℕ → List (ℕ × V)
  pub assoc-remove :
      (t : List (ℕ × V)) (k j : ℕ) → assoc (remove t k) j ≡ (if k == j then none else assoc t j)
  pub remove-Distinct : (t : List (ℕ × V)) (k : ℕ) → Distinct t → Distinct (remove t k)
  pub remove_all : List (ℕ × V) → List (ℕ × V)
  pub remove_all_lem : (t : List (ℕ × V)) → remove_all t ≡ []

-- Functions that meet the laws.
abbrev pub list_tables : {V : Type 0} → Tables V
list_tables = record {
  lookup = assoc;
  lookup_lem = λ t k. refl;
  contains = λ t k. is_some (assoc t k);
  contains_lem = λ t k. refl;
  insert = put;
  assoc-insert = assoc-put;
  insert-Distinct = put-Distinct;
  remove = drop_key;
  assoc-remove = assoc-drop_key;
  remove-Distinct = drop_key-Distinct;
  remove_all = λ t. [];
  remove_all_lem = λ t. refl;
}
