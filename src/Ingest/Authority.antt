-- ===== src/Ingest/Authority.antt =====
-- ingest.py: a listing is authoritative: what it does not name is not live afterwards.
use mathlib.Core.Path.{subst}
use pcomirror.Prelude.{
  String, ◌≡◌, Bool, true, false, none, List, [], ◌∷◌, ◌&&◌, ◌||◌, if◌then◌else◌, contains, arith,
  eq_iff, All, Bool-cases, inl, inr, ap,
}
use pcomirror.Result.{ok}
use pcomirror.Json.{Json, null}
use pcomirror.Store.{Row, is_at}
use pcomirror.Webhooks.State.{World}
use pcomirror.Writer.Ops.{bury}
use pcomirror.Writer.Tombstone.{may_bury, tombstone, tombstone_change, stable_ts}
use pcomirror.Ingest.Remote.{Remote, writing, and_ok, writing_ok}
use pcomirror.Ingest.Buried.{
  may_bury-none, tombstone-All, All-map, ids_where-All, either, either_false,
}
use pcomirror.Ingest.Walk.{live_in, ids_where, bury_where, bury_unseen}

module _ (w : World) (t reason : String) (test : Json → Bool) (spared : String → Bool) where
  -- A live row that passes the test is spared, or is among those that are still looked at.
  abbrev pub Named : List String → Row → Type 0
  Named todo row =
      live_in t test row ≡ true → (spared row.pco_id || contains todo row.pco_id) ≡ true

  abbrev pub Spared : Row → Type 0
  Spared row = live_in t test row ≡ true → spared row.pco_id ≡ true

  marked-Named :
      (h : String) (todo : List String) (row : Row)
      → spared h ≡ false
      → Named (h ∷ todo) row
      → Named todo (
          if is_at t h row && may_bury none reason row
          then tombstone_change w.env none reason none row
          else row)
  unfolding tombstone_change
  marked-Named h todo row unseen n =
      ground (arith, may_bury-none reason row, eq_iff h row.pco_id, eq_iff row.pco_id h, n)

  buried-Named : (todo : List String) (row : Row) → Named todo row → Named todo (bury w.env row)
  buried-Named todo row n = ground (arith, n)

  already :
      (h : String) (todo : List String) (row : Row)
      → spared h ≡ true
      → Named (h ∷ todo) row
      → Named todo row
  already h todo row s n = ground (arith, eq_iff h row.pco_id, n)

  bury_unseen-Named :
      (todo : List String) (rs : List Row) {rs' : List Row} {u : Unit {0}}
      → All (Named todo) rs
      → bury_unseen w t reason spared todo rs ≡ (rs', ok u)
      → All (Named []) rs'
  unfolding bury_unseen stable_ts
  bury_unseen-Named [] rs a e = subst (All (Named [])) (ap (λ p. p.0) e) a
  bury_unseen-Named (h ∷ todo) rs a e = elim (Bool-cases (spared h)) [
    | inl s ↦
        bury_unseen-Named todo rs
          (All-map (Named (h ∷ todo)) (Named todo) rs (λ row n. already h todo row s n) a)
          (let e' = rw (s) at e in e')
    | inr s ↦
        let e' = rw (s) at e in
        let (u, rs1, m, f) = and_ok (writing (tombstone w.env t h null reason none rs) rs) _ e' in
        bury_unseen-Named todo rs1
          (tombstone-All (Named (h ∷ todo)) (Named todo) w.env t h null reason none rs
            (λ row n. marked-Named h todo row s n) (λ row n. buried-Named todo row n)
            (writing_ok _ rs m) a)
          f
  ]

  -- After the pass over the rows that the query found, each of those that are live is spared.
  pub bury_where-Spared :
      (rs : List Row) {rs' : List Row} {u : Unit {0}}
      → bury_where w t reason test spared rs ≡ (rs', ok u)
      → All Spared rs'
  unfolding bury_where
  bury_where-Spared rs {rs'} e =
      All-map (Named []) Spared rs' (λ row n c. either_false (spared row.pco_id) (n c))
        (bury_unseen-Named (ids_where (live_in t test) rs) rs
          (All-map
            (λ row.
              live_in t test row ≡ true
              → contains (ids_where (live_in t test) rs) row.pco_id ≡ true)
            (Named (ids_where (live_in t test) rs)) rs (λ row n c. either (spared row.pco_id) (n c))
            (ids_where-All (live_in t test) rs))
          e)
