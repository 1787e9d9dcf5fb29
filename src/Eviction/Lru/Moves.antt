-- ===== src/Eviction/Lru/Moves.antt =====
-- The queue of least recent use: its links and its table agree, and what the operations leave.
use zncache.Base.{
  ℕ, ◌≡◌, refl, ◌≢◌, inl, inr, arith, Bool-cases, false, List-cases, Option, none, some,
  Option-cases, List, [], ◌∷◌, ◌++◌, if◌then◌else◌, Returns, returns,
}
use zncache.Glib.{Links, Tables, assoc, drop_key, Distinct, assoc-drop_key, drop_key-Distinct}
use zncache.Eviction.Lru.{Lru, node_in, append, promote_data, promote_node, promote, forget}
use zncache.Eviction.Lru.Queue.{
  elements, moved_last, listed, without_absent, elements-append, assoc-append, append-Distinct,
  listed_of_link, link_of_listed, elements-drop_key, Holds,
}

-- Each link of the queue is the link that the table has for its element, and no link stands twice.
pub record IsLinked (t : Lru) : Type 0 where
  pub links : Distinct t.queue
  pub mapped : (n x : ℕ) → assoc t.queue n ≡ some x → node_in (assoc t.nodes x) ≡ some n
  pub queued : (n x : ℕ) → node_in (assoc t.nodes x) ≡ some n → assoc t.queue n ≡ some x

-- The address is that of no link but, at most, the link of the element itself, which is freed first.
abbrev pub IsFresh : Lru → ℕ → ℕ → Type 0
IsFresh t fresh x = (y : ℕ) → assoc t.queue fresh ≡ some y → y ≡ x

-- The first element of the queue stands in it once.
pub first_once :
    (t : Lru) (x : ℕ) (rest : List ℕ)
    → IsLinked t
    → elements t.queue ≡ x ∷ rest
    → listed x rest ≡ false
first_once t x rest v e = elim (List-cases t.queue) [
  | inl nothing ↦ let none_there : [] ≡ x ∷ rest = rw nothing at e in cc
  | inr ((n, y), q, e') ↦
      let here : y ∷ elements q ≡ x ∷ rest = rw e' at e in
      let (same, others) : (y ≡ x) × (elements q ≡ rest) = (cc, cc) in
      elim (Bool-cases (listed x rest)) [
        | inr absent ↦ absent
        | inl there ↦
            let (new, d) : Distinct ((n, y) ∷ q) = rw e' at (v.links) in
            let (m, at) = link_of_listed q x d (rw others there) in
            let ne : n ≢ m = λ s. cc in
            let later : assoc t.queue m ≡ some x = rw e' (ground (arith, ne, at)) in
            let head : assoc t.queue n ≡ some x = rw e' (ground (arith, same)) in
            absurd (ne (cc (v.mapped m x later, v.mapped n x head)))
      ]
]

-- What holds after a call, with the elements in the order of the queue.
abbrev pub Leaves : List ℕ → Lru → Type 0
Leaves order t = IsLinked t × (elements t.queue ≡ order)

-- The queue and the table with a new link for an element that has none.
pub record Appended (q : List (ℕ × ℕ)) (nodes : List (ℕ × Option ℕ)) (fresh x : ℕ) : Type 0 where
  pub distinct : Distinct q
  pub new : assoc q fresh ≡ none
  pub mapped : (n y : ℕ) → assoc q n ≡ some y → (node_in (assoc nodes y) ≡ some n) × (y ≢ x)
  pub queued : (n y : ℕ) → y ≢ x → node_in (assoc nodes y) ≡ some n → assoc q n ≡ some y

module _ (tables : Tables (Option ℕ)) where
  Appended-IsLinked :
      (q : List (ℕ × ℕ)) (nodes : List (ℕ × Option ℕ)) (fresh x : ℕ)
      → Appended q nodes fresh x
      → IsLinked
          (record { queue = q ++ (fresh, x) ∷ []; nodes = tables.insert nodes x (some fresh) })
  Appended-IsLinked q nodes fresh x a = record {
    links = append-Distinct q fresh x a.new a.distinct;
    mapped = λ n y e. ground (
      arith,
      assoc-append q fresh x n a.new,
      tables.assoc-insert nodes x (some fresh) y,
      a.mapped n y,
    );
    queued = λ n y e. ground (
      arith,
      assoc-append q fresh x n a.new,
      tables.assoc-insert nodes x (some fresh) y,
      a.queued n y,
      a.mapped n y,
    );
  }

  module _ (links : Links) where
    -- The address of a link that was taken out may be given to the new one.
    append-IsLinked :
        (t : Lru) (fresh x : ℕ)
        → Appended t.queue t.nodes fresh x
        → Leaves (elements t.queue ++ x ∷ []) (append links tables t fresh x)
    unfolding append
    append-IsLinked t fresh x a =
        rw (links.push_tail_lem t.queue fresh x, links.peek_tail_link-append t.queue fresh x)
          (Appended-IsLinked t.queue t.nodes fresh x a, elements-append t.queue fresh x)

    absent-Appended :
        (t : Lru) (fresh x : ℕ)
        → IsLinked t
        → IsFresh t fresh x
        → listed x (elements t.queue) ≡ false
        → Appended t.queue t.nodes fresh x
    absent-Appended t fresh x v free absent =
        let other : (n y : ℕ) → assoc t.queue n ≡ some y → y ≢ x =
          λ n y e same. cc (listed_of_link t.queue n x (rw (← same) e), absent) in
        record {
          distinct = v.links;
          new = elim (Option-cases (assoc t.queue fresh)) [
            | inl e ↦ e
            | inr (y, e) ↦ absurd (other fresh y e (free y e))
          ];
          mapped = λ n y e. (v.mapped n y e, other n y e);
          queued = λ n y ne e. v.queued n y e;
        }

    -- The queue without the link of an element.
    dropped-Appended :
        (t : Lru) (fresh x node : ℕ)
        → IsLinked t
        → IsFresh t fresh x
        → assoc t.queue node ≡ some x
        → Appended (drop_key t.queue node) t.nodes fresh x
    dropped-Appended t fresh x node v free e = record {
      distinct = drop_key-Distinct t.queue node v.links;
      new = elim (Option-cases (assoc t.queue fresh)) [
        | inl none_there ↦ ground (arith, assoc-drop_key t.queue node fresh)
        | inr (y, at) ↦ ground (
          arith,
          assoc-drop_key t.queue node fresh,
          free y at,
          v.mapped fresh y at,
          v.mapped node x e,
        )
      ];
      mapped =
          λ n y at. ground (arith, assoc-drop_key t.queue node n, v.mapped n y, v.mapped node x e);
      queued = λ n y ne at. ground (arith, assoc-drop_key t.queue node n, v.queued n y at, e);
    }

    -- A new last element.
    pub append_correct :
        (t : Lru) (fresh x : ℕ)
        → IsLinked t
        → IsFresh t fresh x
        → listed x (elements t.queue) ≡ false
        → Leaves (moved_last x (elements t.queue)) (append links tables t fresh x)
    append_correct t fresh x v free absent =
        rw (without_absent x (elements t.queue) absent)
          (append-IsLinked t fresh x (absent-Appended t fresh x v free absent))

    node-Holds :
        (t : Lru) (node x : ℕ) → IsLinked t → assoc t.queue node ≡ some x → Holds t.queue node x
    node-Holds t node x v e =
        (λ m y at ne same. ground (arith, v.mapped m y at, v.mapped node x e), λ y at. cc)

    not_listed :
        (t : Lru) (x : ℕ)
        → IsLinked t
        → node_in (assoc t.nodes x) ≡ none
        → listed x (elements t.queue) ≡ false
    not_listed t x v absent = elim (Bool-cases (listed x (elements t.queue))) [
      | inl there ↦
          let (n, at) = link_of_listed t.queue x v.links there in cc (v.mapped n x at, absent)
      | inr e ↦ e
    ]

    promote_data-Leaves :
        (t : Lru) (fresh x node : ℕ)
        → IsLinked t
        → IsFresh t fresh x
        → assoc t.queue node ≡ some x
        → Returns
            (Leaves (moved_last x (elements t.queue)))
            (promote_data links tables t fresh x node (some x))
    unfolding promote_data append
    promote_data-Leaves t fresh x node v free e =
        rw
          (
            links.delete_link_lem t.queue node x v.links e,
            ← elements-drop_key t.queue node x v.links (node-Holds t node x v e),
          )
          (returns (
            append-IsLinked (record t { queue = drop_key t.queue node }) fresh x
              (dropped-Appended t fresh x node v free e)))

    -- A listed element becomes the last one; another is left alone.
    pub promote_correct :
        (t : Lru) (fresh x : ℕ)
        → IsLinked t
        → IsFresh t fresh x
        → Returns
            (Leaves (
              if listed x (elements t.queue)
              then moved_last x (elements t.queue)
              else elements t.queue))
            (promote links tables t fresh x)
    unfolding promote promote_node
    promote_correct t fresh x v free = elim (Option-cases (node_in (assoc t.nodes x))) [
      | inl absent ↦
          rw (not_listed t x v absent, tables.lookup_lem t.nodes x, absent) (returns (v, refl))
      | inr (node, e) ↦
          let at = v.queued node x e in
          rw (listed_of_link t.queue node x at, tables.lookup_lem t.nodes x, e, at)
            (promote_data-Leaves t fresh x node v free at)
    ]

    -- The first element is taken out.
    pub forget_correct :
        (n x : ℕ) (rest : List (ℕ × ℕ)) (nodes : List (ℕ × Option ℕ))
        → IsLinked (record { queue = (n, x) ∷ rest; nodes = nodes })
        → Leaves (elements rest) (forget links tables rest nodes x)
    unfolding forget
    forget_correct n x rest nodes v =
        let (new, d) = v.links in
        let first : node_in (assoc nodes x) ≡ some n = v.mapped n x (ground arith) in
        (
          record {
            links = d;
            mapped = λ m y at.
                let ne : n ≢ m = λ same. cc in
                let there : node_in (assoc nodes y) ≡ some m = v.mapped m y (ground (arith, ne)) in
                ground (arith, tables.assoc-insert nodes x none y);
            queued = λ m y at. ground (arith, tables.assoc-insert nodes x none y, v.queued m y);
          },
          refl,
        )
