-- ===== src/Mempool/Paymaster/Cache.antt =====
-- A bounded cache that meets the assumptions on the LRU cache of
-- crates/pool/src/mempool/paymaster.rs.
use rundler.Common.{
  ℕ, zero, suc, ◌≤◌, ◌≡◌, refl, ap, Bool, true, none, some, [], ◌∷◌, ltb, nat_beq, nat_eq,
  if◌then◌else◌, length, arith,
}
use rundler.Common.HashMap.{HashMap, get, remove, get-remove}
use rundler.Mempool.Paymaster.{PaymasterBalance, LruMap}

pub record Bounded : Type 0 where
  pub capacity : ℕ
  pub entries : HashMap ℕ PaymasterBalance

abbrev take_entries : ℕ → HashMap ℕ PaymasterBalance → HashMap ℕ PaymasterBalance
take_entries zero xs = []
take_entries (suc n) [] = []
take_entries (suc n) (x ∷ xs) = x ∷ take_entries n xs

abbrev update_entry :
    ℕ
    → (PaymasterBalance → PaymasterBalance)
    → HashMap ℕ PaymasterBalance
    → HashMap ℕ PaymasterBalance
update_entry k f [] = []
update_entry k f ((j, b) ∷ m) =
    let rest = update_entry k f m in if nat_beq j k then (j, f b) ∷ rest else (j, b) ∷ rest

-- The newest entry stands first; the last ones are evicted.
abbrev insert_entry : ℕ → PaymasterBalance → Bounded → Bounded
insert_entry k b m = record m { entries = take_entries m.capacity ((k, b) ∷ remove k m.entries) }

abbrev bounded_room : Bounded → Bool
bounded_room m = ltb (length m.entries) m.capacity

length-remove-le : (k : ℕ) (m : HashMap ℕ PaymasterBalance) → length (remove k m) ≤ length m
unfolding remove
length-remove-le k [] = omega arith
length-remove-le k (x ∷ m) = ground (arith, length-remove-le k m)

take_entries_all : (n : ℕ) (m : HashMap ℕ PaymasterBalance) → length m ≤ n → take_entries n m ≡ m
take_entries_all zero [] h = refl
take_entries_all zero (x ∷ m) h = absurd (omega arith)
take_entries_all (suc n) [] h = refl
take_entries_all (suc n) (x ∷ m) h = ap (◌∷◌ x) (take_entries_all n m (omega arith))

pub bounded_update_entry :
    (k j : ℕ) (f : PaymasterBalance → PaymasterBalance) (m : HashMap ℕ PaymasterBalance)
    → get j (update_entry k f m)
      ≡ (if nat_beq k j then elim (get j m) [ none ↦ none | some b ↦ some (f b) ] else get j m)
unfolding get
bounded_update_entry k j f [] = ground arith
bounded_update_entry k j f ((i, b) ∷ m) = ground (arith, bounded_update_entry k j f m)

length-update_entry :
    (k : ℕ) (f : PaymasterBalance → PaymasterBalance) (m : HashMap ℕ PaymasterBalance)
    → length (update_entry k f m) ≡ length m
length-update_entry k f [] = refl
length-update_entry k f (x ∷ m) = ground (arith, length-update_entry k f m)

pub bounded_room_update :
    (k : ℕ) (f : PaymasterBalance → PaymasterBalance) (m : Bounded)
    → bounded_room (record m { entries = update_entry k f m.entries }) ≡ bounded_room m
bounded_room_update k f m = rw (length-update_entry k f m.entries)

pub bounded_peek_insert :
    (k j : ℕ) (b : PaymasterBalance) (m : Bounded)
    → bounded_room m ≡ true
    → get j (insert_entry k b m).entries ≡ (if nat_beq k j then some b else get j m.entries)
unfolding get
bounded_peek_insert k j b m h =
    rw
      (take_entries_all m.capacity ((k, b) ∷ remove k m.entries)
        (ground (arith, length-remove-le k m.entries)))
      (ground (arith, get-remove k j m.entries))

pub get_empty : (k : ℕ) → get {V = PaymasterBalance} k [] ≡ none
unfolding get
get_empty k = refl

abbrev pub bounded : LruMap Bounded
bounded = record {
  new = λ c. record { capacity = c; entries = [] };
  peek = λ k m. get k m.entries;
  update = λ k f m. record m { entries = update_entry k f m.entries };
  insert = insert_entry;
  clear = λ m. record m { entries = [] };
  iter = λ m. m.entries;
  has_room = bounded_room;
  peek-new = λ c k. get_empty k;
  peek-clear = λ k m. get_empty k;
  peek-update = λ k j f m. bounded_update_entry k j f m.entries;
  has_room-update = bounded_room_update;
  peek-insert = bounded_peek_insert;
}
