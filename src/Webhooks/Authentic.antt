-- ===== src/Webhooks/Authentic.antt =====
-- webhooks.py: nothing is captured that no signature and no open receiver vouches for.
use pcomirror.Prelude.{
  String, true, false, Option, none, List, [], ◌∷◌, ◌==◌, ◌&&◌, ◌≡◌, refl, inl, inr, All,
  Bool-cases, ◌⊎◌,
}
use pcomirror.Result.{ok, Result}
use pcomirror.Webhooks.State.{World, Subscription, Db}
use pcomirror.Webhooks.Subscriptions.{is_unverified}
use pcomirror.Webhooks.Sender.{verify, candidates, matched, open_subs, insert_sub, sub_before}
use pcomirror.Webhooks.Receive.{receive, is_authentic, Answer, answer}

-- A subscription with a secret that did not sign the body.
abbrev pub Rejects : World → String → Option String → Subscription → Type 0
Rejects w raw signature s =
    (is_unverified s ≡ false) × (verify w s.authenticity_secret raw signature ≡ false)

-- The same, if the subscription is active and has the token.
abbrev pub Refuses : World → String → String → Option String → Subscription → Type 0
Refuses w token raw signature s =
    (s.url_token == token && s.active) ≡ true → Rejects w raw signature s

insert_sub-All :
    (P : Subscription → Type 0) (s : Subscription) (ss : List Subscription)
    → P s
    → All P ss
    → All P (insert_sub s ss)
unfolding insert_sub
insert_sub-All P s [] p ps = (p, tt)
insert_sub-All P s (t ∷ ts) p (q, qs) = elim (Bool-cases (sub_before t s)) [
  | inl e ↦ rw (e) (q, insert_sub-All P s ts p qs)
  | inr e ↦ rw (e) (p, (q, qs))
]

candidates-Rejects :
    (w : World) (token raw : String) (signature : Option String) (ss : List Subscription)
    → All (Refuses w token raw signature) ss
    → All (Rejects w raw signature) (candidates token ss)
unfolding candidates
candidates-Rejects w token raw signature [] h = tt
candidates-Rejects w token raw signature (s ∷ ss) (h, hs) =
    elim (Bool-cases (s.url_token == token && s.active)) [
      | inl e ↦ rw (e) (
          insert_sub-All (Rejects w raw signature) s (candidates token ss) (h e)
            (candidates-Rejects w token raw signature ss hs))
      | inr e ↦ rw (e) (candidates-Rejects w token raw signature ss hs)
    ]

matched-Rejects :
    (w : World) (raw : String) (signature : Option String) (ss : List Subscription)
    → All (Rejects w raw signature) ss
    → matched w raw signature ss ≡ none
unfolding matched
matched-Rejects w raw signature [] h = refl
matched-Rejects w raw signature (s ∷ ss) ((u, v), hs) =
    rw (u, v) (matched-Rejects w raw signature ss hs)

open_subs-Rejects :
    (w : World) (raw : String) (signature : Option String) (ss : List Subscription)
    → All (Rejects w raw signature) ss
    → open_subs ss ≡ []
unfolding open_subs
open_subs-Rejects w raw signature [] h = refl
open_subs-Rejects w raw signature (s ∷ ss) ((u, v), hs) =
    rw (u) (open_subs-Rejects w raw signature ss hs)

-- The two answers to a delivery that is not accepted.
abbrev pub IsRefusal : Result Answer → Type 0
IsRefusal r = (r ≡ ok (404, "unknown token")) ⊎ (r ≡ ok (401, "bad signature"))

refuse :
    (w : World) (raw : String) (signature delivery_id attempt : Option String)
    (ss : List Subscription) (db : Db)
    → All (Rejects w raw signature) ss
    → ((answer w raw signature delivery_id attempt ss db).0 ≡ db)
      × IsRefusal (answer w raw signature delivery_id attempt ss db).1
unfolding answer is_authentic
refuse w raw signature delivery_id attempt [] db h = (refl, inl refl)
refuse w raw signature delivery_id attempt (s ∷ ss) db h =
    rw (matched-Rejects w raw signature (s ∷ ss) h, open_subs-Rejects w raw signature (s ∷ ss) h)
      (refl, inr refl)

-- A delivery is refused, with 404 or 401 and with no change of the database, if every active
-- subscription of the token has a secret and no such secret signed the body.
pub receive-unauthenticated :
    (w : World) (token raw : String) (signature delivery_id attempt : Option String) (db : Db)
    → All (Refuses w token raw signature) db.subscriptions
    → ((receive w token raw signature delivery_id attempt db).0 ≡ db)
      × IsRefusal (receive w token raw signature delivery_id attempt db).1
unfolding receive
receive-unauthenticated w token raw signature delivery_id attempt db h =
    refuse w raw signature delivery_id attempt (candidates token db.subscriptions) db
      (candidates-Rejects w token raw signature db.subscriptions h)
