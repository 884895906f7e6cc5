-- ===== src/ApiKeys/Access.antt =====
-- apikeys.py: which credentials get in, before and after a key is revoked.
use mathlib.Core.Path.{subst}
use pcomirror.Prelude.{
  String, Bool, true, false, Option, none, some, List, [], ◌∷◌, ◌==◌, ◌&&◌, not, ◌≡◌, refl, inl,
  inr, Bool-cases, ◌∙◌, ap, sym, arith, is_some, eq_iff, All,
}
use pcomirror.ApiKeys.Keys.{
  Services, Key, bearer_token, public_half, find_key, accepted, with_half, with_key, authenticate,
  has_enabled, disable_all, revoke,
}

pub data Among (k : Key) : List Key → Type 0 where
  first : {ks : List Key} → Among k (k ∷ ks)
  later : {j : Key} {ks : List Key} → Among k ks → Among k (j ∷ ks)

Among-All : (P : Key → Type 0) (k : Key) (ks : List Key) → Among k ks → All P ks → P k
Among-All P k [] m ps = elim m [ ]
Among-All P k (_ ∷ ks) first (p, ps) = p
Among-All P k (j ∷ ks) (later m) (p, ps) = Among-All P k ks m ps

-- The statement's test of a row.
abbrev pub fits : String → String → Key → Bool
fits p digest k = k.prefix == p && not (is_some k.disabled_at) && k.key_hash == digest

find_key-fits :
    (p digest : String) (ks : List Key) (k : Key)
    → find_key p digest ks ≡ some k
    → Among k ks × (fits p digest k ≡ true)
unfolding find_key
find_key-fits p digest [] k e = cc
find_key-fits p digest (j ∷ ks) k e = elim (Bool-cases (fits p digest j)) [
  | inl f ↦
      let found : some j ≡ some k = rw (f) at e in
      let same : j ≡ k = cc in
      subst (λ x. Among x (j ∷ ks) × (fits p digest x ≡ true)) same (first, f)
  | inr f ↦ let (m, g) = find_key-fits p digest ks k (rw (f) at e) in (later m, g)
]

-- What a credential that gets in has: the digest of the key in it, and its public half.
abbrev pub IsKeyOf : Services → Option String → Key → Type 0
IsKeyOf w h k =
    (key : String) × (bearer_token w h ≡ some key)
    × (public_half key ≡ some k.prefix)
    × (k.key_hash ≡ w.hash key)
    × (k.disabled_at ≡ none)

not_disabled : (o : Option String) → is_some o ≡ false → o ≡ none
not_disabled none e = refl
not_disabled (some t) e = cc

accepted-same : (w : Services) (o : Option Key) (ks : List Key) → (accepted w o ks).1 ≡ o
unfolding accepted
accepted-same w none ks = refl
accepted-same w (some k) ks = refl

with_half-find_key :
    (w : Services) (key : String) (o : Option String) (ks : List Key) (k : Key)
    → (with_half w key o ks).1 ≡ some k
    → (p : String) × (o ≡ some p) × (find_key p (w.hash key) ks ≡ some k)
unfolding with_half
with_half-find_key w key none ks k e = cc
with_half-find_key w key (some p) ks k e =
    (p, refl, sym (accepted-same w (find_key p (w.hash key) ks) ks) ∙ e)

with_key-with_half :
    (w : Services) (o : Option String) (ks : List Key) (k : Key)
    → (with_key w o ks).1 ≡ some k
    → (key : String) × (o ≡ some key) × ((with_half w key (public_half key) ks).1 ≡ some k)
unfolding with_key
with_key-with_half w none ks k e = cc
with_key-with_half w (some key) ks k e = elim (Bool-cases (key == "")) [
  | inl f ↦ let bad : none ≡ some k = rw (f) at e in cc
  | inr f ↦ (key, refl, rw (f) at e)
]

-- Where a credential gets in, the row that is returned is one of the table's, enabled, with the
-- digest of the key that the credential carries and with its public half.
pub authenticate-IsKeyOf :
    (w : Services) (h : Option String) (ks : List Key) (k : Key)
    → (authenticate w h ks).1 ≡ some k
    → Among k ks × IsKeyOf w h k
unfolding authenticate
authenticate-IsKeyOf w h ks k e =
    let (key, b, f) = with_key-with_half w (bearer_token w h) ks k e in
    let (p, q, g) = with_half-find_key w key (public_half key) ks k f in
    let (m, t) = find_key-fits p (w.hash key) ks k g in
    let same : k.prefix ≡ p = ground (arith, eq_iff k.prefix p) in
    let digest : k.key_hash ≡ w.hash key = ground (arith, eq_iff k.key_hash (w.hash key)) in
    let enabled : is_some k.disabled_at ≡ false = ground arith in
    (m, (key, b, q ∙ ap some (sym same), digest, not_disabled k.disabled_at enabled))

-- No row of the prefix is enabled.
abbrev pub IsShut : String → Key → Type 0
IsShut p k = (k.prefix == p && not (is_some k.disabled_at)) ≡ false

disable_all-IsShut : (now p : String) (ks : List Key) → All (IsShut p) (disable_all now p ks)
unfolding disable_all
disable_all-IsShut now p [] = tt
disable_all-IsShut now p (k ∷ ks) = elim (Bool-cases (k.prefix == p)) [
  | inl e ↦ rw (e) (rw (e) refl, disable_all-IsShut now p ks)
  | inr e ↦ rw (e) (rw (e) refl, disable_all-IsShut now p ks)
]

has_enabled-IsShut : (p : String) (ks : List Key) → has_enabled p ks ≡ false → All (IsShut p) ks
unfolding has_enabled
has_enabled-IsShut p [] e = tt
has_enabled-IsShut p (k ∷ ks) e = elim (Bool-cases (k.prefix == p && not (is_some k.disabled_at))) [
  | inl f ↦ let bad : true ≡ false = rw (f) at e in cc
  | inr f ↦ (f, has_enabled-IsShut p ks (rw (f) at e))
]

revoke-IsShut : (now p : String) (ks : List Key) → All (IsShut p) (revoke now p ks).0
unfolding revoke
revoke-IsShut now p ks = elim (Bool-cases (has_enabled p ks)) [
  | inl e ↦ rw (e) (disable_all-IsShut now p ks)
  | inr e ↦ rw (e) (has_enabled-IsShut p ks e)
]

-- After `revoke`, whatever it returned, no credential gets in under a row of that prefix.
pub revoke-authenticate :
    (w : Services) (now p : String) (h : Option String) (ks : List Key) (k : Key)
    → (authenticate w h (revoke now p ks).0).1 ≡ some k
    → (k.prefix == p) ≡ false
revoke-authenticate w now p h ks k e =
    let (m, (_, _, _, _, d)) = authenticate-IsKeyOf w h (revoke now p ks).0 k e in
    let shut : IsShut p k = Among-All (IsShut p) k (revoke now p ks).0 m (revoke-IsShut now p ks) in
    let enabled : not (is_some k.disabled_at) ≡ true = ap (λ o. not (is_some o)) d in ground arith
