-- ===== src/Types.antt =====
-- crates/types/src: identifiers of user operations, and fees.
pub mod Gas
pub mod Time
pub mod Entity
pub mod Operation
use rundler.Common.{ℕ, ◌≡◌, Bool, ◌&&◌, ◌↔◌, nat_beq, KeyEq, arith, true}

-- user_operation/mod.rs. Addresses, hashes and nonces are numbers.
pub record UserOperationId : Type 0 where
  pub sender : ℕ
  pub nonce : ℕ

abbrev id_beq : UserOperationId → UserOperationId → Bool
id_beq a b = nat_beq a.sender b.sender && nat_beq a.nonce b.nonce

pub id_beq_iff : (a b : UserOperationId) → (id_beq a b ≡ true) ↔ (a ≡ b)
id_beq_iff a b = ground arith

instance abbrev pub id_eq : KeyEq UserOperationId
id_eq = record { same = id_beq; same_iff = id_beq_iff }
