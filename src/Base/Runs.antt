-- ===== src/Base/Runs.antt =====
-- How a call ends: normally, at a failed assertion or an exit, at an access outside an array, or with the
-- fuel of a loop used up.
use mathlib.Core.Path.{◌≡◌, refl, subst}
use mathlib.Core.Bool.{Bool, true, false, not, ◌||◌}
use zncache.Base.Tests.{if◌then◌else◌}

pub data Run {ℓ} (A : Type ℓ) : Type ℓ where
  ok : A → Run A
  aborted overrun out_of_fuel : Run A

infixl 5 ◌>>=◌ ◌>>◌
abbrev pub ◌>>=◌ {ℓ κ} : {A : Type ℓ} {B : Type κ} → Run A → (A → Run B) → Run B
ok a >>= f = f a
aborted >>= f = aborted
overrun >>= f = overrun
out_of_fuel >>= f = out_of_fuel

abbrev pub ◌>>◌ {ℓ} : {B : Type ℓ} → Run (Unit {0}) → Run B → Run B
m >> k = m >>= λ _. k

-- `assert(b)`
abbrev pub assert : Bool → Run (Unit {0})
assert true = ok tt
assert false = aborted

-- `assert(b)`, which is no test where assertions are disabled
abbrev pub check : Bool → Bool → Run (Unit {0})
check asserts b = assert (not asserts || b)

-- The call returns, and its value satisfies the predicate.
pub data Returns {ℓ κ} {V : Type ℓ} (Post : V → Type κ) : Run V → Type (ℓ ⊔ κ) where
  returns : {v : V} → Post v → Returns Post (ok v)

ok_injective {ℓ} : {V : Type ℓ} {v w : V} → ok v ≡ ok w → v ≡ w
ok_injective e = cc

-- An assertion that holds is passed whether assertions are enabled or not.
pub check_holds {ℓ} :
    {V : Type ℓ} (asserts : Bool) {b : Bool} (call : Run V)
    → b ≡ true
    → (check asserts b >> call) ≡ call
check_holds true call e = rw e refl
check_holds false call e = refl

module _ {ℓ κ} {V : Type ℓ} {Post : V → Type κ} where
  -- What holds of the value of a call that is known to return.
  pub Returns-at : {call : Run V} {v : V} → Returns Post call → call ≡ ok v → Post v
  Returns-at (returns h) e = subst Post (ok_injective e) h

  -- The value of a call that returns.
  pub Returns-value : {call : Run V} → Returns Post call → (v : V) × (call ≡ ok v) × Post v
  Returns-value (returns {v} h) = (v, refl, h)

  pub check-Returns :
      (asserts : Bool) {call : Run V} (b : Bool)
      → b ≡ true
      → Returns Post call
      → Returns Post (check asserts b >> call)
  check-Returns asserts {call} b e h = rw (check_holds asserts call e) h

  -- Both branches of a test return.
  pub Returns-if :
      (test : Bool) {yes_call no_call : Run V}
      → (test ≡ true → Returns Post yes_call)
      → (test ≡ false → Returns Post no_call)
      → Returns Post (if test then yes_call else no_call)
  Returns-if true h k = h refl
  Returns-if false h k = k refl

  -- A weaker predicate.
  pub Returns-map {μ} :
      {Weaker : V → Type μ} {call : Run V}
      → Returns Post call
      → ((v : V) → Post v → Weaker v)
      → Returns Weaker call
  Returns-map (returns h) weaken = returns (weaken _ h)

  -- A call, and then another with its value.
  pub Returns-bind {ℓ' μ} :
      {W : Type ℓ'} {Then : W → Type μ} {call : Run V} {rest : V → Run W}
      → Returns Post call
      → ((v : V) → Post v → Returns Then (rest v))
      → Returns Then (call >>= rest)
  Returns-bind (returns h) continue = continue _ h
