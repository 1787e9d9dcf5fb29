-- ===== src/Glib/LinkedQueues.antt =====
-- Queues of GLib seen as the sequence of their links (GList), head first: the address of each link
-- with its data. The address of a link that a call allocates is an argument of the call.
use zncache.Base.{ℕ, ◌%◌, ◌≡◌, refl, Option, none, some, List, [], ◌∷◌, ◌++◌, length, u32}
use zncache.Glib.Hashes.{assoc, drop_key, Distinct}

pub record Links : Type 0 where
  -- `g_queue_push_tail`, which allocates the link
  pub push_tail : List (ℕ × ℕ) → ℕ → ℕ → List (ℕ × ℕ)
  pub push_tail_lem : (q : List (ℕ × ℕ)) (n x : ℕ) → push_tail q n x ≡ q ++ (n, x) ∷ []
  -- `g_queue_peek_tail_link`
  pub peek_tail_link : List (ℕ × ℕ) → Option ℕ
  pub peek_tail_link-append :
      (q : List (ℕ × ℕ)) (n x : ℕ) → peek_tail_link (q ++ (n, x) ∷ []) ≡ some n
  -- `g_queue_delete_link` of a link that is part of the queue
  pub delete_link : List (ℕ × ℕ) → ℕ → List (ℕ × ℕ)
  pub delete_link_lem :
      (q : List (ℕ × ℕ)) (n x : ℕ)
      → Distinct q
      → assoc q n ≡ some x
      → delete_link q n ≡ drop_key q n
  -- `g_queue_pop_head`: the data of the first link
  pub pop_head : List (ℕ × ℕ) → Option ℕ × List (ℕ × ℕ)
  pub pop_head-nil : pop_head [] ≡ (none, [])
  pub pop_head-cons : (n x : ℕ) (q : List (ℕ × ℕ)) → pop_head ((n, x) ∷ q) ≡ (some x, q)
  -- `g_queue_get_length`, a `guint`
  pub get_length : List (ℕ × ℕ) → ℕ
  pub get_length_lem : (q : List (ℕ × ℕ)) → get_length q ≡ length q % u32

abbrev pub last_link : List (ℕ × ℕ) → Option ℕ
last_link [] = none
last_link ((n, x) ∷ []) = some n
last_link ((n, x) ∷ l ∷ q) = last_link (l ∷ q)

abbrev pub pop_first_link : List (ℕ × ℕ) → Option ℕ × List (ℕ × ℕ)
pop_first_link [] = (none, [])
pop_first_link ((n, x) ∷ q) = (some x, q)

pub last_link-append : (q : List (ℕ × ℕ)) (n x : ℕ) → last_link (q ++ (n, x) ∷ []) ≡ some n
last_link-append [] n x = refl
last_link-append (l ∷ []) n x = refl
last_link-append (l ∷ k ∷ q) n x = last_link-append (k ∷ q) n x

-- Functions that meet the laws.
abbrev pub list_links : Links
list_links = record {
  push_tail = λ q n x. q ++ (n, x) ∷ [];
  push_tail_lem = λ q n x. refl;
  peek_tail_link = last_link;
  peek_tail_link-append = last_link-append;
  delete_link = drop_key;
  delete_link_lem = λ q n x d e. refl;
  pop_head = pop_first_link;
  pop_head-nil = refl;
  pop_head-cons = λ n x q. refl;
  get_length = λ q. length q % u32;
  get_length_lem = λ q. refl;
}
