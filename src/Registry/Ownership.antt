-- ===== src/Registry/Ownership.antt =====
-- registry.py: what the lookups and the ownership edges guarantee.
use pcomirror.Prelude.{
  ◌≡◌, refl, map, List, [], ◌∷◌, String, Bool, true, some, ◌==◌, ◌&&◌, not, arith, eq_iff,
}
use pcomirror.Registry.{Resource, resources, find_by, by_table, owned_children}

abbrev pub all {ℓ} : {A : Type ℓ} → (A → Bool) → List A → Bool
all p [] = true
all p (x ∷ xs) = p x && all p xs

-- A test that every declaration passes is passed by what a lookup finds.
pub find_by-test :
    (test : Resource → Bool) (key : Resource → String) (k : String) (rs : List Resource)
    (r : Resource)
    → all test rs ≡ true
    → find_by key k rs ≡ some r
    → test r ≡ true
unfolding find_by
find_by-test test key k [] r h e = cc
find_by-test test key k (x ∷ xs) r h e = ground (arith, find_by-test test key k xs r)

-- A lookup finds a declaration with the key that was asked for.
pub find_by-key :
    (key : Resource → String) (k : String) (rs : List Resource) (r : Resource)
    → find_by key k rs ≡ some r
    → key r ≡ k
unfolding find_by
find_by-key key k [] r e = cc
find_by-key key k (x ∷ xs) r e = ground (arith, eq_iff (key x) k, find_by-key key k xs r)

pub by_table-table : (t : String) {r : Resource} → by_table t ≡ some r → r.table ≡ t
unfolding by_table
by_table-table t {r} e = find_by-key (λ r. r.table) t resources r e

abbrev pub owns_no_twin : Resource → Bool
owns_no_twin r = all (λ e. not (e.0.table == r.table)) (owned_children r.name)

-- No record is its own kind's owner.
pub by_table-owns_no_twin :
    (t : String) {r : Resource} → by_table t ≡ some r → owns_no_twin r ≡ true
unfolding by_table owned_children
by_table-owns_no_twin t {r} e = find_by-test owns_no_twin (λ r. r.table) t resources r refl e

person_owns :
    map {B = String} (λ e. e.0.name) (owned_children "person")
    ≡ "email" ∷ "phone_number" ∷ "social_profile" ∷ "address" ∷ "field_datum" ∷ "note" ∷ []
unfolding owned_children
person_owns = refl
