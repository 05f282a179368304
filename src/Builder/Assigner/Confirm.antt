-- ===== src/Builder/Assigner/Confirm.antt =====
-- `confirm_senders_drop_unused` of crates/builder/src/assigner.rs.
use rundler.Common.{
  ℕ, ◌≡◌, ◌≢◌, refl, sym, subst, inl, inr, Bool, true, false, not, ◌&&◌, Option, none, some, List,
  [], ◌∷◌, nat_beq, nat_eq, if◌then◌else◌, arith, Option-cases, Bool-cases, All, All-map, is_empty,
  nat_beq_iff,
}
use rundler.Common.HashMap.{HashMap, get, insert, remove, get-insert, get-remove}
use rundler.Common.HashSet
use rundler.Common.HashSet.{HashSet, contains, Distinct, contains-remove, remove-Distinct}
use rundler.Builder.Assigner.{
  LockState, confirmed, State, confirm_loop, unconfirmed, remove_loop, is_confirmed,
  confirm_senders_drop_unused,
}
use rundler.Builder.Assigner.Locks.{lock_of, senders_of, held_by, IsConsistent}

abbrev Locks : Type 0
Locks = HashMap ℕ (ℕ × LockState)

confirm_step-held :
    (b c x : ℕ) (m : Locks)
    → held_by b (get x m) ≡ true
    → held_by b (get x (insert c (b, confirmed) m)) ≡ true
confirm_step-held b c x m h = ground (arith, get-insert c x (b, confirmed) m)

confirm_loop_total :
    (b : ℕ) (m : Locks) (cs : List ℕ)
    → All (λ x. held_by b (get x m) ≡ true) cs
    → (n : Locks) × (confirm_loop b m cs ≡ some n)
      × ((y : ℕ) → get y n ≡ (if contains y cs then some (b, confirmed) else get y m))
unfolding confirm_loop contains
confirm_loop_total b m [] h = (m, refl, λ y. refl)
confirm_loop_total b m (c ∷ cs) h =
    let still = All-map (λ x held. confirm_step-held b c x m held) cs h.1 in
    let (n, done, got) = confirm_loop_total b (insert c (b, confirmed) m) cs still in
    (n, ground arith, λ y. ground (arith, got y, get-insert c y (b, confirmed) m))

abbrev is_assigned : Option (ℕ × LockState) → Bool
is_assigned none = false
is_assigned (some (_, l)) = not (is_confirmed l)

unconfirmed_total :
    (b : ℕ) (m : Locks) (xs : List ℕ)
    → All (λ x. held_by b (get x m) ≡ true) xs
    → (rs : List ℕ) × (unconfirmed m xs ≡ some rs)
      × ((y : ℕ) → contains y rs ≡ (contains y xs && is_assigned (get y m)))
      × (Distinct xs → Distinct rs)
unfolding unconfirmed contains
unconfirmed_total b m [] h = ([], refl, λ y. refl, λ d. tt)
unconfirmed_total b m (x ∷ xs) h =
    let (rs, done, got, keep) = unconfirmed_total b m xs h.1 in
    elim (Bool-cases (is_assigned (get x m))) [
      | inl drop ↦
          (x ∷ rs, ground arith, λ y. ground (arith, got y), λ d. ground (arith, got x, keep d.1))
      | inr stay ↦ (rs, ground arith, λ y. ground (arith, got y), λ d. keep d.1)
    ]

members-remove :
    (x : ℕ) (s : HashSet ℕ) (xs : List ℕ)
    → contains x xs ≡ false
    → All (λ y. contains y s ≡ true) xs
    → All (λ y. contains y (HashSet.remove x s) ≡ true) xs
unfolding contains
members-remove x s [] h a = tt
members-remove x s (y ∷ xs) h a =
    (ground (arith, contains-remove x y s), members-remove x s xs (ground arith) a.1)

-- One round of `remove_loop`, on the set `s` of the builder.
abbrev dropped : ℕ → ℕ → HashSet ℕ → State → State
dropped b x own s = record {
  uo_sender_to_builder_state = remove x s.uo_sender_to_builder_state;
  builder_to_uo_senders =
      if is_empty (HashSet.remove x own)
      then remove b s.builder_to_uo_senders
      else insert b (HashSet.remove x own) s.builder_to_uo_senders;
}

is_empty_iff : (xs : List ℕ) → is_empty xs ≡ true → xs ≡ []
is_empty_iff [] h = refl
is_empty_iff (x ∷ xs) h = absurd (ground arith)

module _ (b x : ℕ) (own : HashSet ℕ) (s : State)
    (e : get b s.builder_to_uo_senders ≡ some own) where
  senders_of-dropped :
      (c : ℕ)
      → senders_of (dropped b x own s) c
        ≡ (if nat_beq b c then HashSet.remove x own else senders_of s c)
  senders_of-dropped c = ground (
    arith,
    is_empty_iff (HashSet.remove x own),
    get-remove b c s.builder_to_uo_senders,
    get-insert b c (HashSet.remove x own) s.builder_to_uo_senders,
  )

  nonempty-dropped :
      (c : ℕ)
      → get c s.builder_to_uo_senders ≢ some []
      → get c (dropped b x own s).builder_to_uo_senders ≢ some []
  nonempty-dropped c h q = absurd (
      ground (
        arith,
        get-remove b c s.builder_to_uo_senders,
        get-insert b c (HashSet.remove x own) s.builder_to_uo_senders,
      ))

-- What the third loop does to the state `s` with the senders `xs`.
record Dropped (b : ℕ) (xs : List ℕ) (s t : State) : Type 0 where
  locks : (y : ℕ) → lock_of t y ≡ (if contains y xs then none else lock_of s y)
  senders :
      (c y : ℕ)
      → contains y (senders_of t c)
        ≡ (if nat_beq b c && contains y xs then false else contains y (senders_of s c))
  distinct : ((c : ℕ) → Distinct (senders_of s c)) → (c : ℕ) → Distinct (senders_of t c)
  nonempty :
      ((c : ℕ) → get c s.builder_to_uo_senders ≢ some [])
      → (c : ℕ) → get c t.builder_to_uo_senders ≢ some []

Dropped-step :
    (b x : ℕ) (xs : List ℕ) (own : HashSet ℕ) (s t : State)
    → get b s.builder_to_uo_senders ≡ some own
    → Dropped b xs (dropped b x own s) t
    → Dropped b (x ∷ xs) s t
unfolding contains
Dropped-step b x xs own s t e d = record {
  locks = λ y. ground (arith, d.locks y, get-remove x y s.uo_sender_to_builder_state);
  senders = λ c y.
      ground (arith, d.senders c y, senders_of-dropped b x own s e c, contains-remove x y own);
  distinct = λ ds.
      d.distinct
        (λ c. ground (arith, senders_of-dropped b x own s e c, remove-Distinct x own, ds b, ds c));
  nonempty = λ ne. d.nonempty (λ c. nonempty-dropped b x own s e c (ne c));
}

abbrev Members : List ℕ → HashSet ℕ → Type 0
Members xs s = All (λ y. contains y s ≡ true) xs

Members-dropped :
    (b x : ℕ) (own : HashSet ℕ) (s : State) (xs : List ℕ)
    → get b s.builder_to_uo_senders ≡ some own
    → contains x xs ≡ false
    → Members xs (senders_of s b)
    → Members xs (senders_of (dropped b x own s) b)
Members-dropped b x own s xs e h a =
    let before : senders_of s b ≡ own = rw e in
    let after : senders_of (dropped b x own s) b ≡ HashSet.remove x own =
      ground (arith, senders_of-dropped b x own s e b) in
    subst (Members xs) (sym after) (members-remove x own xs h (subst (Members xs) before a))

remove_loop_total :
    (b : ℕ) (s : State) (xs : List ℕ)
    → All (λ y. contains y (senders_of s b) ≡ true) xs
    → Distinct xs
    → (t : State) × (remove_loop b s xs ≡ some t) × Dropped b xs s t
unfolding remove_loop contains
remove_loop_total b s [] a d = (
  s,
  refl,
  record {
    locks = λ y. refl;
    senders = λ c y. ground arith;
    distinct = λ ds. ds;
    nonempty = λ ne. ne;
  },
)
remove_loop_total b s (x ∷ xs) a d = elim (Option-cases (get b s.builder_to_uo_senders)) [
  | inl e ↦ absurd (ground (arith, a.0))
  | inr (own, e) ↦
      let (t, done, post) =
        remove_loop_total b (dropped b x own s) xs (Members-dropped b x own s xs e d.0 a.1) d.1 in
      (t, rw (e, remove_loop) done, Dropped-step b x xs own s t e post)
]

abbrev confirm_lock : ℕ → List ℕ → State → ℕ → Option (ℕ × LockState)
confirm_lock b cs s y = if contains y cs then some (b, confirmed) else lock_of s y

-- The lock on a sender after a builder confirms `cs`: senders in `cs` are confirmed, other senders of
-- the builder keep a confirmed lock and lose an assigned one.
abbrev pub confirmed_lock : ℕ → List ℕ → State → ℕ → Option (ℕ × LockState)
confirmed_lock b cs s y =
    let v = confirm_lock b cs s y in if held_by b (lock_of s y) && is_assigned v then none else v

pub All-contains : (P : ℕ → Type 0) (xs : List ℕ) (y : ℕ) → All P xs → contains y xs ≡ true → P y
unfolding contains
All-contains P [] y a c = absurd (ground arith)
All-contains P (x ∷ xs) y a c = elim (Bool-cases (nat_beq x y)) [
  | inl same ↦ subst P ((nat_beq_iff x y).0 same) a.0
  | inr other ↦ All-contains P xs y a.1 (ground arith)
]

self-Members :
    (xs ys : List ℕ) → ((y : ℕ) → contains y xs ≡ true → contains y ys ≡ true) → Members xs ys
unfolding contains
self-Members [] ys h = tt
self-Members (x ∷ xs) ys h = (h x (ground arith), self-Members xs ys (λ y c. h y (ground arith)))

-- The three loops together: `n` are the locks after the first, `rs` the senders that the second finds.
module _ (s t : State) (b : ℕ) (cs own rs : List ℕ) (n : Locks) (v : IsConsistent s)
    (mine : senders_of s b ≡ own)
    (held : (y : ℕ) → contains y cs ≡ true → held_by b (lock_of s y) ≡ true)
    (got : (y : ℕ) → get y n ≡ confirm_lock b cs s y)
    (listed : (y : ℕ) → contains y rs ≡ (contains y own && is_assigned (get y n)))
    (post : Dropped b rs (record s { uo_sender_to_builder_state = n }) t) where
  own_agree : (y : ℕ) → contains y own ≡ held_by b (lock_of s y)
  own_agree y = rw (← mine) (v.agree b y)

  after_confirm-locks : (y : ℕ) → lock_of t y ≡ confirmed_lock b cs s y
  after_confirm-locks y = ground (arith, post.locks y, got y, listed y, own_agree y)

  after_confirm-agree : (c y : ℕ) → contains y (senders_of t c) ≡ held_by c (lock_of t y)
  after_confirm-agree c y =
      ground
        (arith, post.locks y, post.senders c y, got y, listed y, own_agree y, held y, v.agree c y)

  after_confirm-IsConsistent : IsConsistent t
  after_confirm-IsConsistent = record {
    agree = after_confirm-agree;
    distinct = post.distinct v.distinct;
    nonempty = post.nonempty v.nonempty;
  }

held_after :
    (b y : ℕ) (cs : List ℕ) (s : State) (n : Locks) (own : List ℕ)
    → get y n ≡ confirm_lock b cs s y
    → contains y own ≡ held_by b (lock_of s y)
    → contains y own ≡ true
    → held_by b (get y n) ≡ true
held_after b y cs s n own g a c = ground arith

listed_own :
    (y : ℕ) (own rs : List ℕ) (f : Bool)
    → contains y rs ≡ (contains y own && f)
    → contains y rs ≡ true
    → contains y own ≡ true
listed_own y own rs f l c = ground arith

-- Where the builder has an entry and holds the lock of every confirmed sender, the call does not panic,
-- keeps the maps consistent, confirms those senders, keeps the senders confirmed before, frees the
-- builder's other senders, and changes the lock of no other builder's sender.
pub confirm_senders_drop_unused_lem :
    (s : State) (b : ℕ) (cs : List ℕ) (own : HashSet ℕ)
    → IsConsistent s
    → get b s.builder_to_uo_senders ≡ some own
    → All (λ x. held_by b (lock_of s x) ≡ true) cs
    → (t : State) × (confirm_senders_drop_unused s b cs ≡ some t)
      × IsConsistent t
      × ((y : ℕ) → lock_of t y ≡ confirmed_lock b cs s y)
unfolding confirm_senders_drop_unused
confirm_senders_drop_unused_lem s b cs own v e held =
    let mine : senders_of s b ≡ own = rw e in
    let agree : (y : ℕ) → contains y own ≡ held_by b (lock_of s y) =
      λ y. rw (← mine) (v.agree b y) in
    let (n, locked, got) = confirm_loop_total b s.uo_sender_to_builder_state cs held in
    let (rs, found, listed, once) = unconfirmed_total b n own (
      All-map (λ y c. held_after b y cs s n own (got y) (agree y) c) own
        (self-Members own own (λ y c. c))) in
    let (t, done, post) =
      remove_loop_total b (record s { uo_sender_to_builder_state = n }) rs
        (subst (Members rs) (sym mine)
          (self-Members rs own (λ y c. listed_own y own rs (is_assigned (get y n)) (listed y) c)))
        (once (subst (λ q. Distinct q) mine (v.distinct b))) in
    let holds : (y : ℕ) → contains y cs ≡ true → held_by b (lock_of s y) ≡ true =
      λ y c. All-contains (λ x. held_by b (lock_of s x) ≡ true) cs y held c in
    (
      t,
      rw (locked, e, found) done,
      after_confirm-IsConsistent s t b cs own rs n v mine holds got listed post,
      after_confirm-locks s t b cs own rs n v mine holds got listed post,
    )
