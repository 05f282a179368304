-- ===== src/Common/Keys.antt =====
-- Decidable equality of map keys: addresses and hashes are numbers, an operation's id is a pair.
use Prim.Native.Nat.{ℕ}
use mathlib.Core.Path.{◌≡◌, refl}
use mathlib.Core.Logic.{◌↔◌}
use mathlib.Core.Bool.{Bool, true}
use rundler.Common.Tests.{nat_beq, nat_beq_iff}

-- A key type with its test of equality.
pub record KeyEq {ℓ} (Key : Type ℓ) : Type ℓ where
  pub same : (k l : Key) → Bool
  pub same_iff : (k l : Key) → (same k l ≡ true) ↔ (k ≡ l)

-- The test of the key type at hand.
infix 50 ◌==◌
abbrev pub ◌==◌ {ℓ} : {Key : Type ℓ} ⦃e : KeyEq Key⦄ (k l : Key) → Bool
◌==◌ ⦃e⦄ k l = e.same k l

instance abbrev pub nat_eq : KeyEq ℕ
nat_eq = record { same = nat_beq; same_iff = nat_beq_iff }

pub beq_refl {ℓ} : {Key : Type ℓ} ⦃e : KeyEq Key⦄ (k : Key) → (k == k) ≡ true
beq_refl ⦃e⦄ k = (e.same_iff k k).1 refl
