-- ===== src/Cache/Get/Sound/Samples.antt =====
-- Surroundings in which all goes well.
use zncache.Base.{ℕ, suc, ◌+◌, ◌≤◌, ◌≡◌, refl, arith, true, none, some, List, [], ◌∷◌}
use zncache.Glib.{assoc}
use zncache.Zones.{Backend, zns, block, on_zns}
use zncache.Cache.Get.{Surroundings}
use zncache.Cache.Get.Sound.Calls.{Favourable}

-- An address above those of all links.
abbrev pub above : List (ℕ × ℕ) → ℕ
above [] = 0
above ((n, x) ∷ queue) = suc (n + above queue)

pub assoc-above : (queue : List (ℕ × ℕ)) (n : ℕ) → above queue ≤ n → assoc queue n ≡ none
assoc-above [] n h = refl
assoc-above ((m, x) ∷ queue) n h = ground (arith, assoc-above queue n (omega (arith, h)), h)

pub on_zns-zero : (b : Backend) → on_zns b 0 ≡ 0
on_zns-zero zns = refl
on_zns-zero block = refl

abbrev pub plain_env : Surroundings
plain_env = record {
  zbd = λ k. record { open_zones = λ wp n. 0; finish_zones = λ wp n. 0; reset_zones = λ wp n. 0 };
  is_unlocked = λ k. true;
  fresh = above;
  read_memory = some (λ i. 0);
  has_memory = true;
}

pub plain_env-Favourable : Favourable plain_env
plain_env-Favourable = record {
  unlocked = λ k. refl;
  resets = λ k wp length. refl;
  opens = λ k s wp. on_zns-zero s.backend_type;
  finishes = λ k s wp. on_zns-zero s.backend_type;
  fresh = λ queue. assoc-above queue (above queue) (omega arith);
  memory = λ i. 0;
  can_read = refl;
  can_write = refl;
}
