-- ===== src/Ingest/Escalation.antt =====
-- ingest.py: a request for an audit only ever escalates.
use Prim.Native.Char.{Char}
use Prim.Native.String.{◌++◌}
use pcomirror.Prelude.{
  String, ◌≡◌, refl, Bool, true, false, Option, none, some, List, [], ◌∷◌, ◌==◌, if◌then◌else◌,
  is_text, arith, eq_iff, eq_refl, Bool-cases, inl, inr, ap, ◌∙◌, first_word-append, append-cancel,
  append-not_empty, is_word,
}
use pcomirror.Result.{Result, ok, err}
use pcomirror.Webhooks.State.{World, Db, Run, get_key, set_key, delete_key}
use pcomirror.Ingest.Buried.{if_both}
use pcomirror.Ingest.Requests.{
  ◌with_state◌, put_request, Asker, drift, operator, audit_request_key, audit_request,
  request_audit, request_all, source_in, source_of, request_text,
}

-- What is held under a key after it, or another, was set.
pub get_key-set_key :
    (k j v : String) (m : List (String × String))
    → get_key k (set_key j v m) ≡ (if j == k then some v else get_key k m)
unfolding get_key set_key
get_key-set_key k j v [] = ground arith
get_key-set_key k j v ((i, x) ∷ m) =
    ground (arith, eq_iff i j, eq_iff j k, eq_iff i k, eq_refl j, get_key-set_key k j v m)

pub get_key-delete_key :
    (k j : String) (m : List (String × String))
    → get_key k (delete_key j m) ≡ (if j == k then none else get_key k m)
unfolding get_key delete_key
get_key-delete_key k j [] = ground arith
get_key-delete_key k j ((i, x) ∷ m) =
    ground (arith, eq_iff i j, eq_iff j k, eq_iff i k, get_key-delete_key k j m)

source_in-word :
    (c : Char) (s t : String)
    → is_word (String.◌∷◌ c s) ≡ true
    → (String.◌∷◌ c s == "") ≡ false
    → source_in (some (String.◌∷◌ c s ++ (" " ++ t))) ≡ ok (some (String.◌∷◌ c s))
unfolding source_in
source_in-word c s t h ne =
    rw (append-not_empty c s (" " ++ t)) (rw (first_word-append c s t h) (rw (ne) refl))

-- The request that a text stands for.
said : (w : World) (who : Asker) → source_in (some (request_text w who)) ≡ ok (some (source_of who))
unfolding is_word
said w drift = source_in-word _ "rift" w.env.now refl refl
said w operator = source_in-word _ "perator" w.env.now refl refl

other_key : (a b : String) → (a == b) ≡ false → (audit_request_key a == audit_request_key b) ≡ false
other_key a b e = elim (Bool-cases (audit_request_key a == audit_request_key b)) [
  | inr f ↦ f
  | inl t ↦
      let same : a ≡ b =
        append-cancel "audit_requested:" a b
          (ground (arith, eq_iff (audit_request_key a) (audit_request_key b))) in
      ground (arith, eq_iff a b)
]

audit_request-put_request :
    (w : World) (n name : String) (who : Asker) (db : Db)
    → audit_request name (put_request w n who db) ≡ (
        if audit_request_key n == audit_request_key name
        then ok (some (source_of who))
        else audit_request name db)
unfolding audit_request
audit_request-put_request w n name who db =
    ap source_in
      (get_key-set_key (audit_request_key name) (audit_request_key n) (request_text w who) db.meta)
    ∙ chosen (audit_request_key n == audit_request_key name)
  where
    chosen :
        (b : Bool)
        → source_in
            (if b then some (request_text w who) else get_key (audit_request_key name) db.meta)
          ≡ (if b
              then ok (some (source_of who))
              else source_in (get_key (audit_request_key name) db.meta))
    chosen true = said w who
    chosen false = refl

-- A drift request for another resource, whatever is pending there.
elsewhere :
    (w : World) (n name : String) (db : Db) (held : Result (Option String))
    → (n == name) ≡ false
    → audit_request name db ≡ ok (some "operator")
    → audit_request name
        ((db, held) with_state (λ h db'.
          if is_text h "operator" then (db', ok tt) else (put_request w n drift db', ok tt))).0
      ≡ ok (some "operator")
elsewhere w n name db (err e) f h = h
elsewhere w n name db (ok held) f h =
    if_both (λ (d : Run (Unit {0})). audit_request name d.0 ≡ ok (some "operator"))
      (is_text held "operator") _ _ h
      (audit_request-put_request w n name drift db ∙ rw (other_key n name f) h)

requested :
    (w : World) (n name : String) (who : Asker) (db : Db)
    → audit_request name db ≡ ok (some "operator")
    → audit_request name (request_audit w n who db).0 ≡ ok (some "operator")
unfolding request_audit
requested w n name operator db h =
    audit_request-put_request w n name operator db ∙ ground (arith, h)
requested w n name drift db h = elim (Bool-cases (n == name)) [
  | inl y ↦
      let same : n ≡ name = ground (arith, eq_iff n name) in
      let held : audit_request n db ≡ ok (some "operator") =
        ap (λ x. audit_request x db) same ∙ h in
      rw (held) h
  | inr f ↦ elsewhere w n name db (audit_request n db) f h
]

-- A request only ever escalates: while a person's request for an audit is pending it stays pending
-- as that person's, whoever asks again, how often, and for whichever resources, also where one of
-- these requests raises.
pub request_all-operator :
    (asks : List (World × (String × Asker))) (name : String) (db : Db)
    → audit_request name db ≡ ok (some "operator")
    → audit_request name (request_all asks db).0 ≡ ok (some "operator")
unfolding request_all
request_all-operator [] name db h = h
request_all-operator ((w, (n, who)) ∷ rest) name db h =
    after_one name rest (request_audit w n who db) (requested w n name who db h)
      (λ db'. request_all-operator rest name db')
  where
    after_one :
        (name : String) (rest : List (World × (String × Asker))) (ran : Run (Unit {0}))
        → audit_request name ran.0 ≡ ok (some "operator")
        → ((db' : Db)
            → audit_request name db' ≡ ok (some "operator")
            → audit_request name (request_all rest db').0 ≡ ok (some "operator"))
        → audit_request name (ran with_state (λ u db'. request_all rest db')).0
          ≡ ok (some "operator")
    after_one name rest (db, ok u) h g = g db h
    after_one name rest (db, err e) h g = h
