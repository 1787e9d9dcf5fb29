-- ===== src/Eviction/Lru.antt =====
-- src/eviction/promotional.c and src/eviction/chunk.c: the queue of least recent use that both policies
-- keep, and the table from an element to its link in the queue. An element is a zone, or the address of
-- a chunk. The address of a new link is an argument.
pub mod Queue
pub mod Ordering
pub mod Moves
use zncache.Base.{ℕ, Option, none, some, List, Run, ok, overrun}
use zncache.Glib.{Links, Tables, assoc}

pub record Lru : Type 0 where
  pub queue : List (ℕ × ℕ)
  pub nodes : List (ℕ × Option ℕ)

-- The link that a lookup gives: NULL for an element that the table lacks, or that it has as NULL.
abbrev pub node_in : Option (Option ℕ) → Option ℕ
node_in none = none
node_in (some node) = node

module _ (links : Links) (tables : Tables (Option ℕ)) where
  -- g_queue_push_tail, and the new link into the table.
  unfoldable pub append : Lru → ℕ → ℕ → Lru
  append t fresh x =
      let queue = links.push_tail t.queue fresh x in
      record { queue = queue; nodes = tables.insert t.nodes x (links.peek_tail_link queue) }

  -- The data of a link moves to the end of the queue, and the table gets its new link for the element.
  unfoldable pub promote_data : Lru → ℕ → ℕ → ℕ → Option ℕ → Run Lru
  unfolding append
  promote_data t fresh x node none = overrun
  promote_data t fresh x node (some data') =
      let queue = links.push_tail (links.delete_link t.queue node) fresh data' in
      ok (record { queue = queue; nodes = tables.insert t.nodes x (links.peek_tail_link queue) })

  -- The branch of a read: an element without a link stays as it is.
  unfoldable pub promote_node : Lru → ℕ → ℕ → Option ℕ → Run Lru
  unfolding promote_data
  promote_node t fresh x none = ok t
  promote_node t fresh x (some node) = promote_data t fresh x node (assoc t.queue node)

  unfoldable pub promote : Lru → ℕ → ℕ → Run Lru
  unfolding promote_node
  promote t fresh x = promote_node t fresh x (node_in (tables.lookup t.nodes x))

  -- The element that left the queue gets NULL for its link.
  unfoldable pub forget : List (ℕ × ℕ) → List (ℕ × Option ℕ) → ℕ → Lru
  forget rest nodes x = record { queue = rest; nodes = tables.insert nodes x none }
