-- ===== src/Writer/Steps.antt =====
-- writer.py: the operations as steps of the tables, for what holds after any run of them.
use pcomirror.Store.{SyncSource}
use pcomirror.Prelude.{String, ◌≡◌, Option, List, false, ◌⊎◌, ◌==◌, ◌&&◌}
use pcomirror.Result.{ok}
use pcomirror.Json.{Json}
use pcomirror.Store.{Row}
use pcomirror.Writer.Ops.{Env}
use pcomirror.Writer.Project.{reproject_field_data}
use pcomirror.Writer.Upsert.{upsert, upsert_untimed, confirm_live}
use pcomirror.Writer.Tombstone.{tombstone}
use pcomirror.Writer.Route.{route_page}

-- One call of the writer that goes through; a page may also have stopped at an exception.
pub data Write (rs : List Row) : List Row → Type 0 where
  upserts :
      {rs' : List Row} (env : Env) (t i : String) (raw : Json) (source : SyncSource)
      → upsert env t i raw source rs ≡ ok rs'
      → Write rs rs'
  untimed :
      {rs' : List Row} (env : Env) (t i : String) (raw : Json) (source : SyncSource)
      → upsert_untimed env t i raw source rs ≡ ok rs'
      → Write rs rs'
  confirms :
      {rs' : List Row} (env : Env) (t i : String) (raw : Json) (source : SyncSource)
      → confirm_live env t i raw source rs ≡ ok rs'
      → Write rs rs'
  buries :
      {rs' : List Row} (env : Env) (t i : String) (at : Json) (reason : String)
      (into : Option String)
      → tombstone env t i at reason into rs ≡ ok rs'
      → Write rs rs'
  pages :
      {rs' : List Row} (env : Env) (source : SyncSource) (synthesized : List String)
      (hint : Option Json) (body : Json)
      → (route_page env source synthesized hint body rs).0 ≡ rs'
      → Write rs rs'
  reprojects :
      {rs' : List Row} (env : Env) (definition : String)
      → reproject_field_data env definition rs ≡ rs'
      → Write rs rs'

pub data Writes (rs : List Row) : List Row → Type 0 where
  here : Writes rs rs
  next : {rs' rs'' : List Row} → Writes rs rs' → Write rs' rs'' → Writes rs rs''

-- A step that neither confirms the record live nor tombstones it for another reason than a merge.
abbrev pub Spares : (t i : String) {rs rs' : List Row} → Write rs rs' → Type 0
Spares t i (upserts env t' i' raw source e) = Unit
Spares t i (untimed env t' i' raw source e) = Unit
Spares t i (confirms env t' i' raw source e) = (t' == t && i' == i) ≡ false
Spares t i (buries env t' i' at reason into e) =
    ((t' == t && i' == i) ≡ false) ⊎ (reason ≡ "merged")
Spares t i (pages env source synthesized hint body e) = Unit
Spares t i (reprojects env definition e) = Unit

abbrev pub AllSpare : (t i : String) {rs rs' : List Row} → Writes rs rs' → Type 0
AllSpare t i here = Unit
AllSpare t i (next ws w) = AllSpare t i ws × Spares t i w
