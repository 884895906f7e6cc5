-- ===== src/Ingest/Latest.antt =====
-- ingest.py: the watermark of the merger poll, and the order of its times.

use pcomirror.Prelude.{String, ◌≡◌, refl, true, false, text_lt, Bool-cases, inl, inr}
use pcomirror.Prelude.Order.{lt_irrefl, lt_trans, lt_total}
use pcomirror.Ingest.Mergers.{later_of}

pub not_before_trans :
    (a b c : String) → text_lt b a ≡ false → text_lt a c ≡ false → text_lt b c ≡ false
not_before_trans a b c p q = elim (Bool-cases (text_lt b c)) [
  | inr n ↦ n
  | inl y ↦ elim (Bool-cases (text_lt a b)) [
    | inl z ↦ (let bad = lt_trans a b c z y in cc)
    | inr z ↦ (let same = lt_total a b z p in cc)
  ]
]

pub later-grows : (wm at : String) → text_lt (later_of wm at) wm ≡ false
unfolding later_of
later-grows wm at = elim (Bool-cases (text_lt wm at)) [
  | inl y ↦ rw (y) (asym wm at y)
  | inr n ↦ rw (n) (lt_irrefl wm)
]
  where
    asym : (a b : String) → text_lt a b ≡ true → text_lt b a ≡ false
    asym a b y = elim (Bool-cases (text_lt b a)) [
      | inr n ↦ n
      | inl z ↦ (let bad = lt_trans a b a y z in let no_loop = lt_irrefl a in cc)
    ]

pub later-covers : (wm at : String) → text_lt (later_of wm at) at ≡ false
unfolding later_of
later-covers wm at = elim (Bool-cases (text_lt wm at)) [
  | inl y ↦ rw (y) (lt_irrefl at)
  | inr n ↦ rw (n) n
]

pub later-settled : (wm at : String) → text_lt wm at ≡ false → later_of wm at ≡ wm
unfolding later_of
later-settled wm at n = rw (n) refl
