-- ===== src/Webhooks/Tokens.antt =====
-- webhooks.py: a registration keeps the receiver URL that Planning Center has.
use pcomirror.Prelude.{
  String, false, none, some, List, [], ◌∷◌, ◌==◌, ◌≡◌, refl, inl, inr, Bool-cases, ap, strip,
  eq_refl, eq_iff, arith,
}
use pcomirror.Result.{ok}
use pcomirror.Webhooks.State.{Subscription}
use pcomirror.Webhooks.Subscriptions.{
  upsert_subscription, find_sub, put_sub, new_sub, choose_token, bad_token,
}

-- The row after a registration: the new event, secret and manager, on, and with the time of the
-- last event that the old one had.
abbrev pub renewed : String → String → String → String → Subscription → Subscription
renewed i event secret managed s = record (new_sub i event secret s.url_token managed) {
  last_event_at = s.last_event_at;
}

find_sub-put_sub :
    (new : Subscription) (ss : List Subscription) (s : Subscription)
    → find_sub new.subscription_pco_id ss ≡ some s
    → find_sub new.subscription_pco_id (put_sub new ss)
      ≡ some (record new { last_event_at = s.last_event_at })
unfolding find_sub put_sub
find_sub-put_sub new [] s p = cc
find_sub-put_sub new (t ∷ ts) s p =
    elim (Bool-cases (t.subscription_pco_id == new.subscription_pco_id)) [
      | inl e ↦
          let found : some t ≡ some s = rw (e) at p in
          let same : t ≡ s = cc in
          rw (e, eq_refl new.subscription_pco_id)
            (ap (λ x. some (record new { last_event_at = x.last_event_at })) same)
      | inr e ↦ rw (e, e) (find_sub-put_sub new ts s (rw (e) at p))
    ]

find_sub-put_sub_ne :
    (j : String) (new : Subscription) (ss : List Subscription)
    → (new.subscription_pco_id == j) ≡ false
    → find_sub j (put_sub new ss) ≡ find_sub j ss
unfolding find_sub put_sub
find_sub-put_sub_ne j new [] n = rw (n) refl
find_sub-put_sub_ne j new (t ∷ ts) n =
    elim (Bool-cases (t.subscription_pco_id == new.subscription_pco_id)) [
      | inl e ↦
          let other : (t.subscription_pco_id == j) ≡ false =
            ground (arith, eq_iff t.subscription_pco_id new.subscription_pco_id) in
          rw (e, n, other) refl
      | inr e ↦ elim (Bool-cases (t.subscription_pco_id == j)) [
        | inl f ↦ rw (e, f) refl
        | inr f ↦ rw (e, f) (find_sub-put_sub_ne j new ts n)
      ]
    ]

-- Registering a subscription again without a token goes through for any event name and manager: it
-- returns the token that the row has, whatever token would have been minted, and says that the row
-- is not new; the row has the new event and secret and the old token, is switched on, and keeps the
-- time of its last event; and every other row stays as it is.
pub upsert_subscription-keeps_token :
    (minted i event secret managed : String) (ss : List Subscription) (s : Subscription)
    → (strip i == "") ≡ false
    → (strip event == "") ≡ false
    → find_sub i ss ≡ some s
    → (ss' : List Subscription) × (upsert_subscription minted i event secret none managed ss
        ≡ ok (ss', (s.url_token, false)))
      × (find_sub i ss' ≡ some (renewed i event secret managed s))
      × ((j : String) → (i == j) ≡ false → find_sub j ss' ≡ find_sub j ss)
unfolding upsert_subscription choose_token bad_token new_sub
upsert_subscription-keeps_token minted i event secret managed ss s p q r = (
  put_sub (new_sub i event secret s.url_token managed) ss,
  rw (p, q, r) refl,
  find_sub-put_sub (new_sub i event secret s.url_token managed) ss s r,
  λ j n. find_sub-put_sub_ne j (new_sub i event secret s.url_token managed) ss n,
)
