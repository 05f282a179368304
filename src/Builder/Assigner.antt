-- ===== src/Builder/Assigner.antt =====
-- crates/builder/src/assigner.rs: senders of user operations are locked to builders, so that no two
-- builders bundle operations of one sender at a time. The mutex makes the calls sequential; gauges and
-- log lines are left out. A panic is `none`. The pool (a trait object) is a parameter.
pub mod Locks
pub mod Assign
pub mod Handed
pub mod Confirm
pub mod Release
pub mod Isolation
pub mod Examples
use rundler.Common.{
  ℕ, suc, ◌≡◌, Bool, true, false, not, ◌&&◌, Option, none, some, List, [], ◌∷◌, ◌++◌, map, leb,
  nat_beq, nat_eq, if◌then◌else◌, get_or, length, is_empty, ◌>>=◌,
}
use rundler.Common.HashMap.{HashMap, get, insert, remove}
use rundler.Common.HashSet
use rundler.Common.HashSet.{HashSet}

pub data LockState : Type 0 where
  assigned confirmed : LockState

pub record State : Type 0 where
  pub uo_sender_to_builder_state : HashMap ℕ (ℕ × LockState)
  pub builder_to_uo_senders : HashMap ℕ (HashSet ℕ)

pub record Config : Type 0 where
  pub max_pool_ops_per_request : ℕ
  pub max_bundle_size : ℕ

-- What the loop reads of a `PoolOperationSummary`.
pub record OpSummary : Type 0 where
  pub hash : ℕ
  pub sender : ℕ

abbrev pub initial : State
initial = record { uo_sender_to_builder_state = []; builder_to_uo_senders = [] }

-- `entry(sender).or_insert((builder, Assigned))`: the builder that holds the lock, and the map.
unfoldable pub lock_sender : ℕ → ℕ → HashMap ℕ (ℕ × LockState) → ℕ × HashMap ℕ (ℕ × LockState)
lock_sender builder sender m = elim (get sender m) [
  | none ↦ (builder, insert sender (builder, assigned) m)
  | some (owner, _) ↦ (owner, m)
]

-- `entry(builder).or_insert(empty).insert(sender)`.
unfoldable pub add_sender : ℕ → ℕ → HashMap ℕ (HashSet ℕ) → HashMap ℕ (HashSet ℕ)
add_sender builder sender m = insert builder (HashSet.insert sender (get_or (get builder m) [])) m

-- The loop of `assign_operations`: `acc` are the operations to return so far.
unfoldable pub assign_loop :
    ℕ → ℕ → State → List OpSummary → List OpSummary → State × List OpSummary
unfolding lock_sender add_sender
assign_loop max_bundle_size builder s acc [] = (s, acc)
assign_loop max_bundle_size builder s acc (op ∷ ops) =
    let (owner, locks) = lock_sender builder op.sender s.uo_sender_to_builder_state in
    let locked : State = record s { uo_sender_to_builder_state = locks } in
    let taken : State = record locked {
      builder_to_uo_senders = add_sender builder op.sender s.builder_to_uo_senders;
    } in
    let skip = assign_loop max_bundle_size builder locked acc ops in
    let rest = assign_loop max_bundle_size builder taken (acc ++ op ∷ []) ops in
    if not (nat_beq owner builder)
    then skip
    else if leb max_bundle_size (length (acc ++ op ∷ []))
    then (taken, acc ++ op ∷ [])
    else rest

-- The pool: summaries of its best operations, and the operations with given hashes. `none` is an error.
pub record Pool (PoolOperation : Type 0) : Type 0 where
  pub get_ops_summaries : ℕ → ℕ → Option ℕ → Option (List OpSummary)
  pub get_ops_by_hashes : ℕ → List ℕ → Option (List PoolOperation)

-- `none` as the result is the pool's error; the locks taken before it stay.
unfoldable pub assign_operations :
    {PoolOperation : Type 0}
    → Pool PoolOperation
    → Config
    → State
    → ℕ
    → ℕ
    → Option ℕ
    → State × Option (List PoolOperation)
assign_operations pool config s builder entry_point filter_id =
    elim (pool.get_ops_summaries entry_point config.max_pool_ops_per_request filter_id) [
      | none ↦ (s, none)
      | some ops ↦
          let (t, summaries) = assign_loop config.max_bundle_size builder s [] ops in
          if is_empty summaries
          then (t, some [])
          else (t, pool.get_ops_by_hashes entry_point (map (λ op. op.hash) summaries))
    ]

-- The first loop of `confirm_senders_drop_unused`.
unfoldable pub confirm_loop :
    ℕ → HashMap ℕ (ℕ × LockState) → List ℕ → Option (HashMap ℕ (ℕ × LockState))
confirm_loop builder m [] = some m
confirm_loop builder m (sender ∷ senders) =
    let rest = confirm_loop builder (insert sender (builder, confirmed) m) senders in
    elim (get sender m) [
      | none ↦ none
      | some (owner, _) ↦ if not (nat_beq owner builder) then none else rest
    ]

abbrev pub is_confirmed : LockState → Bool
is_confirmed assigned = false
is_confirmed confirmed = true

-- The second loop: the senders of the builder that are not confirmed.
unfoldable pub unconfirmed : HashMap ℕ (ℕ × LockState) → List ℕ → Option (List ℕ)
unconfirmed m [] = some []
unconfirmed m (sender ∷ senders) = elim (get sender m) [
  | none ↦ none
  | some (_, lock_state) ↦ do
    to_remove ← unconfirmed m senders
    some (if is_confirmed lock_state then to_remove else sender ∷ to_remove)
]

-- The third loop. The entry of a builder that has no sender left is removed.
unfoldable pub remove_loop : ℕ → State → List ℕ → Option State
remove_loop builder s [] = some s
remove_loop builder s (sender ∷ senders) = elim (get builder s.builder_to_uo_senders) [
  | none ↦ none
  | some builder_senders ↦
      let left = HashSet.remove sender builder_senders in
      remove_loop builder
        (record {
          uo_sender_to_builder_state = remove sender s.uo_sender_to_builder_state;
          builder_to_uo_senders =
              if is_empty left
              then remove builder s.builder_to_uo_senders
              else insert builder left s.builder_to_uo_senders;
        })
        senders
]

unfoldable pub confirm_senders_drop_unused : State → ℕ → List ℕ → Option State
confirm_senders_drop_unused s builder confirmed_senders = do
  locks ← confirm_loop builder s.uo_sender_to_builder_state confirmed_senders
  builder_senders ← get builder s.builder_to_uo_senders
  to_remove ← unconfirmed locks builder_senders
  remove_loop builder (record s { uo_sender_to_builder_state = locks }) to_remove

unfoldable pub remove_all : HashMap ℕ (ℕ × LockState) → List ℕ → HashMap ℕ (ℕ × LockState)
remove_all m [] = m
remove_all m (sender ∷ senders) = remove_all (remove sender m) senders

unfoldable pub release_all : State → ℕ → State
unfolding remove_all
release_all s builder = elim (get builder s.builder_to_uo_senders) [
  | none ↦ s
  | some builder_senders ↦ record {
    uo_sender_to_builder_state = remove_all s.uo_sender_to_builder_state builder_senders;
    builder_to_uo_senders = remove builder s.builder_to_uo_senders;
  }
]
