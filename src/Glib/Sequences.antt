-- ===== src/Glib/Sequences.antt =====
-- Queues of GLib (GQueue), seen as the sequence of their elements, head first.
use zncache.Base.{ℕ, ◌%◌, ◌≡◌, refl, Option, none, some, List, [], ◌∷◌, ◌++◌, length, u32}

pub record Queues : Type 0 where
  -- `g_queue_push_tail`
  pub push_tail : List ℕ → ℕ → List ℕ
  pub push_tail_lem : (q : List ℕ) (x : ℕ) → push_tail q x ≡ q ++ x ∷ []
  -- `g_queue_pop_head`: NULL and the same queue where it is empty
  pub pop_head : List ℕ → Option ℕ × List ℕ
  pub pop_head-nil : pop_head [] ≡ (none, [])
  pub pop_head-cons : (x : ℕ) (q : List ℕ) → pop_head (x ∷ q) ≡ (some x, q)
  -- `g_queue_get_length`, a `guint`
  pub get_length : List ℕ → ℕ
  pub get_length_lem : (q : List ℕ) → get_length q ≡ length q % u32
  -- `g_queue_clear`
  pub clear : List ℕ → List ℕ
  pub clear_lem : (q : List ℕ) → clear q ≡ []

abbrev pub pop_first : List ℕ → Option ℕ × List ℕ
pop_first [] = (none, [])
pop_first (x ∷ q) = (some x, q)

-- Functions that meet the laws.
abbrev pub list_queues : Queues
list_queues = record {
  push_tail = λ q x. q ++ x ∷ [];
  push_tail_lem = λ q x. refl;
  pop_head = pop_first;
  pop_head-nil = refl;
  pop_head-cons = λ x q. refl;
  get_length = λ q. length q % u32;
  get_length_lem = λ q. refl;
  clear = λ q. [];
  clear_lem = λ q. refl;
}
