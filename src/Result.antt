-- ===== src/Result.antt =====
-- Python's exceptions as values: the ones that the modelled code raises or lets through.
use pcomirror.Prelude.{String, ◌≡◌, ◌⊎◌, inl, inr, refl}

pub data Exn : Type 0 where
  -- `d[k]` on a missing key
  key_error : String → Exn
  -- `.get` of a value that is no dict, `for` over one that is no list
  attribute_error : Exn
  type_error : Exn
  -- `s[n]` beyond the end
  index_error : Exn
  value_error : String → Exn
  -- the database refuses a statement
  db_error : Exn
  -- what `ingest.py` raises where a step could not be completed
  ingest_error : String → Exn
  -- the transport or the limiter failed
  io_error : String → Exn

pub data Result {ℓ} (A : Type ℓ) : Type ℓ where
  ok : A → Result A
  err : Exn → Result A

infixl 5 ◌>>=◌
abbrev pub ◌>>=◌ {ℓ κ} : {A : Type ℓ} {B : Type κ} → Result A → (A → Result B) → Result B
ok a >>= f = f a
err e >>= f = err e

pub Result-cases {ℓ} :
    {A : Type ℓ} (r : Result A) → ((a : A) × (r ≡ ok a)) ⊎ ((e : Exn) × (r ≡ err e))
Result-cases (ok a) = inl (a, refl)
Result-cases (err e) = inr (e, refl)

-- A chain that went through went through its first step.
pub ok_of_bind {ℓ κ} :
    {A : Type ℓ} {B : Type κ} (step : A → Result B) (first : Result A) {out : B}
    → (first >>= step) ≡ ok out
    → (x : A) × (first ≡ ok x) × (step x ≡ ok out)
ok_of_bind step (err x) went = cc
ok_of_bind step (ok x) went = (x, refl, went)

-- What holds of a result if there is one.
abbrev pub Holds {ℓ} : {A : Type ℓ} → (A → Type 0) → Result A → Type 0
Holds P (ok a) = P a
Holds P (err e) = Unit

pub bind-Holds {ℓ κ} :
    {A : Type ℓ} {B : Type κ} (P : B → Type 0) (m : Result A) (f : A → Result B)
    → ((a : A) → m ≡ ok a → Holds P (f a))
    → Holds P (m >>= f)
bind-Holds P (ok a) f h = h a refl
bind-Holds P (err e) f h = tt
