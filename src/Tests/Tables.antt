-- ===== src/Tests/Tables.antt =====
-- Collection.c, HashTable.c and IDM.c.
use hotwired.Prelude.{ℕ, ◌+◌, ◌*◌, ◌≤◌, ◌≡◌, refl, Bool, none, List, [], ◌∷◌, length, get_or}
use hotwired.Collection.Bucket.{Chain, find, take_out, times}
use hotwired.Collection.Keys.{collection_key}
use hotwired.Collection.Load.{to_float, above_three, above_one}
use hotwired.Collection.Operations.{
  Writes, InsertResult, create-IsWellFormed, insert_lem, insert-IsWellFormed,
}
use hotwired.Collection.Removal.{remove_lem, lookup_lem}
use hotwired.Collection.Rebuild.{Keeps}
use hotwired.HashTable.{hash, text_key}
use hotwired.Collection.View.{IsWellFormed, view}
use hotwired.Collection.Walk.{iterate_lem}
use hotwired.Collection.{
  Collection, slot, next_prime, create, size, relink, drain, drain_all, rebuild, grow, shrink,
  insert_at, insert, remove_at, remove, lookup, iterate, iterate_chain,
}

program : Unit {0}
unfolding find take_out to_float above_three above_one slot next_prime create size relink drain
    drain_all rebuild grow shrink insert_at insert remove_at remove lookup iterate iterate_chain
    view
program = tt

abbrev empty : Collection ℕ ℕ
empty = create

abbrev one_entry : Collection ℕ ℕ
one_entry = (insert empty 5 50).0

one_entry-IsWellFormed : IsWellFormed one_entry
one_entry-IsWellFormed = insert-IsWellFormed empty 5 50 create-IsWellFormed.0

abbrev two_entries : Collection ℕ ℕ
two_entries = (insert one_entry 24 240).0

two_entries-IsWellFormed : IsWellFormed two_entries
two_entries-IsWellFormed = insert-IsWellFormed one_entry 24 240 one_entry-IsWellFormed

-- 5 and 24 share bucket 5 of 19.
bucket_of_both : get_or two_entries.buckets 5 [] ≡ (24, 240) ∷ (5, 50) ∷ []
unfolding program
bucket_of_both = refl

insert_lem_example : InsertResult two_entries 24 7 (view two_entries 24) (insert two_entries 24 7)
insert_lem_example = insert_lem two_entries 24 7 two_entries-IsWellFormed

remove_lem_example :
    ((remove two_entries 5).1 ≡ view two_entries 5)
    × Writes two_entries 5 none (remove two_entries 5).0
remove_lem_example = remove_lem two_entries 5 two_entries-IsWellFormed

lookup_lem_example :
    ((lookup two_entries 5).1 ≡ view two_entries 5) × Keeps two_entries (lookup two_entries 5).0
lookup_lem_example = lookup_lem two_entries 5 two_entries-IsWellFormed

lookup_moves : get_or (lookup two_entries 5).0.buckets 5 [] ≡ (5, 50) ∷ (24, 240) ∷ []
unfolding program
lookup_moves = refl

iterate_lem_example :
    (nodes : Chain ℕ ℕ) × ((q : ℕ) → (find q nodes ≡ view two_entries q) × (times q nodes ≤ 1))
    × (length nodes ≡ size two_entries)
    × ((S : Type 0) (iterator : ℕ → ℕ → S → S × Bool) (s : S)
        → iterate two_entries iterator s ≡ (iterate_chain iterator nodes s).0)
iterate_lem_example = iterate_lem two_entries two_entries-IsWellFormed

abbrev crowded : Collection ℕ ℕ
crowded = record { n_nodes = 32; n_buckets = 31; buckets = [] }

-- 32 nodes in 31 buckets are moved into 19 buckets by a removal.
shrinks_when_crowded : (shrink crowded).n_buckets ≡ 19
unfolding program
shrinks_when_crowded = refl

-- HashTable.c

abbrev admin : List ℕ
admin = b'a' ∷ b'd' ∷ b'm' ∷ []

hash_of_admin : hash admin ≡ (97 * 31 + 100) * 31 + 109
unfolding hash
hash_of_admin = refl
