-- ===== src/Client/Retry/Bounds.antt =====
-- The calls and the sleeps of one retried request.
use cluster_api_provider_ovh.Prelude.{
  ℕ, zero, suc, ◌+◌, ◌≤◌, ◌≡◌, refl, inl, inr, List, [], ◌∷◌, Text, ap, ◌∙◌, arith,
}
use cluster_api_provider_ovh.Cloud.{Method, Kind, Body, Event, sent, slept, World}
use cluster_api_provider_ovh.Client.Retry.{Client, backoff, sleep, request, retry_with_backoff}
use cluster_api_provider_ovh.Client.Retry.Settled.{before, retry_settles}

abbrev pub sent_count : List Event → ℕ
sent_count [] = 0
sent_count (sent m p b ∷ es) = suc (sent_count es)
sent_count (slept s ∷ es) = sent_count es

abbrev pub slept_total : List Event → ℕ
slept_total [] = 0
slept_total (sent m p b ∷ es) = slept_total es
slept_total (slept s ∷ es) = s + slept_total es

module _ (method : Method) (path : Text) (body : Body) where
  -- What `k` failed attempts, a sleep after each, and one more attempt add to the record.
  abbrev pub trail : ℕ → ℕ → List Event → List Event
  trail zero attempt es = sent method path body ∷ es
  trail (suc k) attempt es =
      trail k (attempt + 1) (slept (backoff attempt) ∷ sent method path body ∷ es)

  sent_count-trail :
      (k attempt : ℕ) (es : List Event) → sent_count (trail k attempt es) ≡ sent_count es + k + 1
  sent_count-trail zero attempt es = omega arith
  sent_count-trail (suc k) attempt es = omega (
    arith,
    sent_count-trail k (attempt + 1) (slept (backoff attempt) ∷ sent method path body ∷ es),
  )

-- The first `k` sleeps from attempt `attempt` on.
abbrev pub waits : ℕ → ℕ → ℕ
waits zero attempt = 0
waits (suc k) attempt = backoff attempt + waits k (attempt + 1)

slept_total-trail :
    (m : Method) (p : Text) (b : Body) (k attempt : ℕ) (es : List Event)
    → slept_total (trail m p b k attempt es) ≡ slept_total es + waits k attempt
slept_total-trail m p b zero attempt es = omega arith
slept_total-trail m p b (suc k) attempt es =
    omega
      (arith, slept_total-trail m p b k (attempt + 1) (slept (backoff attempt) ∷ sent m p b ∷ es))

-- 2, 4, 8, 16 and 32 seconds.
waits_bounded : (k : ℕ) → k ≤ 5 → waits k 0 ≤ 62
unfolding backoff
waits_bounded zero h = omega arith
waits_bounded (suc zero) h = omega arith
waits_bounded (suc (suc zero)) h = omega arith
waits_bounded (suc (suc (suc zero))) h = omega arith
waits_bounded (suc (suc (suc (suc zero)))) h = omega arith
waits_bounded (suc (suc (suc (suc (suc zero))))) h = omega arith
waits_bounded (suc (suc (suc (suc (suc (suc k)))))) h = absurd (omega arith)

module _ {W : Type 0} (c : Client W) (kind : Kind) (m : Method) (p : Text) (b : Body) where
  events-before :
      (k attempt : ℕ) (w : World W)
      → (request c kind m p b (before (request c kind m p b) k attempt w)).1.events
        ≡ trail m p b k attempt w.events
  unfolding request
  events-before zero attempt w = refl
  events-before (suc k) attempt w =
      events-before k (attempt + 1) (sleep (backoff attempt) (request c kind m p b w).1)

  abbrev pub Trailed : List Event → List Event → Type 0
  Trailed es es' =
      (k : ℕ) × (k ≤ 5)
      × (es' ≡ trail m p b k 0 es)
      × (sent_count es' ≡ sent_count es + k + 1)
      × (slept_total es' ≡ slept_total es + waits k 0)
      × (slept_total es' ≤ slept_total es + 62)

  trailed : (k : ℕ) (es es' : List Event) → k ≤ 5 → es' ≡ trail m p b k 0 es → Trailed es es'
  trailed k es es' h e = (
    k,
    h,
    e,
    rw e (sent_count-trail m p b k 0 es),
    rw e (slept_total-trail m p b k 0 es),
    rw e (omega (arith, slept_total-trail m p b k 0 es, waits_bounded k h)),
  )

  -- A retried request sends the same method, path and body between one and six times, sleeps the
  -- prescribed backoff between two attempts and at no other time, and sleeps 62 seconds at most.
  pub retry_trail :
      (operation : Text) (w : World W)
      → Trailed w.events (retry_with_backoff operation (request c kind m p b) w).1.events
  retry_trail operation w = elim (retry_settles operation (request c kind m p b) w) [
    | inl (k, within, _, _, same) ↦
        trailed k _ _ within (ap (λ r. r.1.events) same ∙ events-before k 0 w)
    | inr (e, _, _, _, same) ↦
        trailed 5 _ _ (omega arith) (ap (λ r. r.1.events) same ∙ events-before 5 0 w)
  ]
