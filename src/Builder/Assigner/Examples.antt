-- ===== src/Builder/Assigner/Examples.antt =====
-- Tests of the assigner, and its theorems at concrete inputs.
use rundler.Common.{
  ℕ, ◌≤◌, ◌≡◌, refl, true, none, some, List, [], ◌∷◌, nat_eq, nat_beq, All, length, if◌then◌else◌,
}
use rundler.Common.HashMap.{get, insert, remove}
use rundler.Common.HashSet
use rundler.Common.HashSet.{contains}
use rundler.Builder.Assigner.{
  State, OpSummary, Pool, Config, assigned, confirmed, initial, assign_loop, assign_operations,
  confirm_senders_drop_unused, confirm_loop, unconfirmed, remove_loop, release_all,
}
use rundler.Builder.Assigner.Locks.{
  lock_of, senders_of, held_by, IsConsistent, initial-IsConsistent,
}
use rundler.Builder.Assigner.Assign.{Kept, assign_loop_exclusive, assign_operations-IsConsistent}
use rundler.Builder.Assigner.Confirm.{confirmed_lock, confirm_senders_drop_unused_lem}
use rundler.Builder.Assigner.Release.{release_all_lem}

abbrev ops : List OpSummary
ops = record { hash = 100; sender = 1 } ∷ record { hash = 101; sender = 2 } ∷ []

-- A pool that gives back the hashes as its operations.
abbrev pool : Pool ℕ
pool = record { get_ops_summaries = λ e n f. some ops; get_ops_by_hashes = λ e hs. some hs }

abbrev config : Config
config = record { max_pool_ops_per_request = 10; max_bundle_size = 5 }

-- Builder 7 holds the senders 1 and 2.
abbrev held : State
held = record {
  uo_sender_to_builder_state = (1, (7, assigned)) ∷ (2, (7, assigned)) ∷ [];
  builder_to_uo_senders = (7, 2 ∷ 1 ∷ []) ∷ [];
}

assign_test : assign_operations pool config initial 7 0 none ≡ (held, some (100 ∷ 101 ∷ []))
unfolding assign_operations assign_loop get insert HashSet.insert
assign_test = refl

other_builder_test : assign_operations pool config held 8 0 none ≡ (held, some [])
unfolding assign_operations assign_loop get
other_builder_test = refl

confirm_test :
    confirm_senders_drop_unused held 7 (1 ∷ [])
    ≡ some (record {
      uo_sender_to_builder_state = (1, (7, confirmed)) ∷ [];
      builder_to_uo_senders = (7, 1 ∷ []) ∷ [];
    })
unfolding confirm_senders_drop_unused confirm_loop unconfirmed remove_loop get insert remove
    HashSet.remove
confirm_test = refl

held-IsConsistent : IsConsistent held
unfolding assign_operations assign_loop get insert HashSet.insert
held-IsConsistent =
    (assign_operations-IsConsistent pool config initial 7 0 none initial-IsConsistent).0

assign_loop_exclusive_example :
    All
      (λ op.
        (held_by 7 (lock_of (assign_loop 5 7 initial [] ops).0 op.sender) ≡ true)
        × ((c : ℕ)
            → contains op.sender (senders_of (assign_loop 5 7 initial [] ops).0 c) ≡ nat_beq 7 c))
      (assign_loop 5 7 initial [] ops).1
    × (length (assign_loop 5 7 initial [] ops).1 ≤ 5)
assign_loop_exclusive_example = assign_loop_exclusive 5 7 initial ops initial-IsConsistent

assign_operations-IsConsistent_example :
    IsConsistent (assign_operations pool config held 8 0 none).0
    × ((y : ℕ)
        → Kept 8 (lock_of held y) (lock_of (assign_operations pool config held 8 0 none).0 y))
assign_operations-IsConsistent_example =
    assign_operations-IsConsistent pool config held 8 0 none held-IsConsistent

confirm_senders_drop_unused_example :
    (t : State) × (confirm_senders_drop_unused held 7 (1 ∷ []) ≡ some t)
    × IsConsistent t
    × ((y : ℕ) → lock_of t y ≡ confirmed_lock 7 (1 ∷ []) held y)
unfolding get
confirm_senders_drop_unused_example =
    confirm_senders_drop_unused_lem held 7 (1 ∷ []) (2 ∷ 1 ∷ []) held-IsConsistent refl (refl, tt)

release_all_example :
    ((y : ℕ)
      → lock_of (release_all held 7) y
        ≡ (if held_by 7 (lock_of held y) then none else lock_of held y))
    × ((c : ℕ)
        → senders_of (release_all held 7) c ≡ (if nat_beq 7 c then [] else senders_of held c))
release_all_example = release_all_lem held 7 held-IsConsistent
