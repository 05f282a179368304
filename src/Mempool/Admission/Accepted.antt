-- ===== src/Mempool/Admission/Accepted.antt =====
-- crates/pool/src/mempool/pool.rs: what the pool holds once it has accepted an operation.
use rundler.Common.{
  ℕ, zero, suc, ◌≡◌, refl, sym, ◌∙◌, ap, ◌⊎◌, inl, inr, Bool, true, false, ◌||◌, Option, none, some,
  List, [], ◌∷◌, ◌++◌, nat_beq, nat_eq, arith, Bool-cases, Option-cases, length, if◌then◌else◌,
}
use rundler.Common.Results.{ok, Result-cases}
use rundler.Common.HashMap.{get, get-remove, get-insert}
use rundler.Common.HashSet.{contains}
use rundler.Types.{id_eq}
use rundler.Types.Operation.{PoolOperation}
use rundler.Mempool.EntityTracker.{exceeds}
use rundler.Mempool.Pool.{
  PoolInner, OrderedPoolOperation, hash_of, pop_last, drop_operation, remember_mined,
  remove_operation_internal, remove_operation_by_hash, get_operation_by_hash,
}
use rundler.Mempool.Admission.{
  check_replacement, insert_operation, enforce_size, replaced, resized, after_resize,
  add_operation_internal, with_cell, ordered, add_operation,
}

get-remove_operation_internal :
    (s : PoolInner) (k h : ℕ)
    → get h (remove_operation_internal s k none).0.by_hash
      ≡ (if nat_beq k h then none else get h s.by_hash)
unfolding remove_operation_internal remember_mined drop_operation
get-remove_operation_internal s k h = elim (Option-cases (get k s.by_hash)) [
  | inl q ↦ rw (remove_operation_internal, q) ground arith
  | inr (o, q) ↦ rw (remove_operation_internal, q) (get-remove k h s.by_hash)
]

contains-append :
    (h k : ℕ) (xs : List ℕ) → contains h (xs ++ k ∷ []) ≡ (contains h xs || nat_beq k h)
unfolding contains
contains-append h k [] = ground arith
contains-append h k (x ∷ xs) = ground (arith, contains-append h k xs)

-- What `enforce_size` removed is gone, and the rest is there.
get-enforce_size :
    (fuel : ℕ) (s t : PoolInner) (removed r : List ℕ) (h : ℕ)
    → enforce_size fuel s removed ≡ some (t, some r)
    → (contains h removed ≡ true → get h s.by_hash ≡ none)
    → (get h t.by_hash ≡ (if contains h r then none else get h s.by_hash))
      × (contains h removed ≡ true → contains h r ≡ true)
unfolding enforce_size
get-enforce_size zero s t removed r h e gone = absurd (ground arith)
get-enforce_size (suc fuel) s t removed r h e gone =
    elim (Bool-cases (exceeds s.pool_size s.config.max_size_of_pool_bytes)) [
      | inr fits ↦
          let same : s ≡ t = ground arith in
          let all : removed ≡ r = ground arith in
          let here : get h s.by_hash ≡ (if contains h removed then none else get h s.by_hash) =
            ground (arith, gone) in
          (
            sym (ap (λ (u : PoolInner). get h u.by_hash) same)
                ∙ here
                ∙ ap (λ (x : List ℕ). if contains h x then none else get h s.by_hash) all,
            λ c. sym (ap (λ (x : List ℕ). contains h x) all) ∙ c,
          )
      | inl over ↦ elim (Option-cases (pop_last s.best)) [
        | inl q ↦
            let e1 : enforce_size fuel s removed ≡ some (t, some r) = ground arith in
            get-enforce_size fuel s t removed r h e1 gone
        | inr ((others, worst), q) ↦
            let u : PoolInner × Option PoolOperation =
              remove_operation_internal (record s { best = others }) (hash_of worst) none in
            elim (Option-cases u.1) [
              | inl lost ↦ absurd (ground arith)
              | inr (po, found) ↦
                  let rest = removed ++ hash_of worst ∷ [] in
                  let e1 : enforce_size fuel u.0 rest ≡ some (t, some r) = ground arith in
                  let step =
                    get-remove_operation_internal (record s { best = others }) (hash_of worst) h in
                  let more = contains-append h (hash_of worst) removed in
                  let later =
                    get-enforce_size fuel u.0 t rest r h e1 (ground (arith, step, more)) in
                  (ground (arith, later.0, later.1, step, more), ground (arith, later.1, more))
            ]
      ]
    ]

-- A lookup once the operation is inserted: it is found, and what was found stays or is the replaced one.
get-inserted_state :
    (s : PoolInner) (old : Option ℕ) (o : OrderedPoolOperation) (k : ℕ)
    → (get k (insert_operation (replaced s old) o).by_hash
        ≡ (if nat_beq (hash_of o) k then some o else get k (replaced s old).by_hash))
      × ((get k (replaced s old).by_hash ≡ none)
          ⊎ (get k (replaced s old).by_hash ≡ get k s.by_hash))
unfolding insert_operation remove_operation_by_hash
get-inserted_state s none o k = (get-insert (hash_of o) k o s.by_hash, inr refl)
get-inserted_state s (some hash) o k = (
  get-insert (hash_of o) k o (replaced s (some hash)).by_hash,
  ground (arith, get-remove_operation_internal s hash k),
)

accepted_result :
    (hash : ℕ) (s t : PoolInner) (removed : List ℕ) (h : ℕ)
    → after_resize hash (some (s, some removed)) ≡ some (t, ok h)
    → (s ≡ t) × (contains hash removed ≡ false) × (hash ≡ h)
accepted_result hash s t removed h e = ground arith

get-resized :
    (s t : PoolInner) (r : List ℕ)
    → resized s ≡ some (t, some r)
    → (k : ℕ) → get k t.by_hash ≡ (if contains k r then none else get k s.by_hash)
unfolding contains
get-resized s t r p k =
    (get-enforce_size (suc (length s.best)) s t [] r k p (λ c. absurd (ground arith))).0

-- Where lookups agree, so do those that return the operation.
same_lookup :
    (s t : PoolInner) (k : ℕ)
    → get k t.by_hash ≡ get k s.by_hash
    → get_operation_by_hash t k ≡ get_operation_by_hash s k
unfolding get_operation_by_hash
same_lookup s t k e =
    ap (λ (x : Option OrderedPoolOperation). elim x [ none ↦ none | some o ↦ some o.po ]) e

lost_lookup : (t : PoolInner) (k : ℕ) → get k t.by_hash ≡ none → get_operation_by_hash t k ≡ none
unfolding get_operation_by_hash
lost_lookup t k e = rw (get_operation_by_hash, e) refl

-- What is found under a hash that may be another one.
others :
    (s t : PoolInner) (o : OrderedPoolOperation) (h k : ℕ) (evicted : Bool)
    (between before : Option OrderedPoolOperation)
    → get k t.by_hash ≡ (if evicted then none else before)
    → before ≡ (if nat_beq (hash_of o) k then some o else between)
    → (between ≡ none) ⊎ (between ≡ get k s.by_hash)
    → hash_of o ≡ h
    → (k ≡ h)
      ⊎ ((get_operation_by_hash t k ≡ none)
          ⊎ (get_operation_by_hash t k ≡ get_operation_by_hash s k))
others s t o h k true between before e f g own = inr (inl (lost_lookup t k e))
others s t o h k false between before e f (inl g) own = elim (Bool-cases (nat_beq (hash_of o) k)) [
  | inl hit ↦ inl (ground arith)
  | inr miss ↦ inr (inl (lost_lookup t k (ground arith)))
]
others s t o h k false between before e f (inr g) own = elim (Bool-cases (nat_beq (hash_of o) k)) [
  | inl hit ↦ inl (ground arith)
  | inr miss ↦ inr (inr (same_lookup s t k (ground arith)))
]

-- An operation that is accepted is in the pool under its hash; every other operation is found as before,
-- unless it left the pool.
pub add_operation-Found :
    (s t : PoolInner) (op : PoolOperation) (base_fee required_pvg now h : ℕ)
    → add_operation s op base_fee required_pvg now ≡ some (t, ok h)
    → (h ≡ op.uo.hash)
      × (get_operation_by_hash t h ≡ some op)
      × ((k : ℕ)
          → (k ≡ h)
            ⊎ ((get_operation_by_hash t k ≡ none)
                ⊎ (get_operation_by_hash t k ≡ get_operation_by_hash s k)))
unfolding add_operation add_operation_internal get_operation_by_hash with_cell ordered
add_operation-Found s t op base_fee required_pvg now h e =
    let w = with_cell s op base_fee required_pvg in
    let o = ordered s op now in
    elim (Result-cases (check_replacement w op.uo)) [
      | inr (x, q) ↦ absurd (ground arith)
      | inl (old, q) ↦
          let u = insert_operation (replaced w old) o in
          elim (Option-cases (resized u)) [
            | inl p ↦ absurd (ground arith)
            | inr ((v, none), p) ↦ absurd (ground arith)
            | inr ((v, some r), p) ↦
                let (same, kept, own) = accepted_result (hash_of o) v t r h (ground arith) in
                let at : (k : ℕ)
                    → get k t.by_hash ≡ (if contains k r then none else get k u.by_hash) =
                  λ k. sym (ap (λ (x : PoolInner). get k x.by_hash) same) ∙ get-resized u v r p k in
                let new : get h t.by_hash ≡ some o =
                  ground (arith, at h, (get-inserted_state w old o h).0, kept, own) in
                (
                  sym own,
                  rw (get_operation_by_hash, new) refl,
                  λ k.
                      let (i, j) = get-inserted_state w old o k in
                      others s t o h k (contains k r) (get k (replaced w old).by_hash)
                        (get k u.by_hash) (at k) i j own,
                )
          ]
    ]
