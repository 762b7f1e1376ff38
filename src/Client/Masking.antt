-- ===== src/Client/Masking.antt =====
-- What a deletion reports when every answer is the same error.
use cluster_api_provider_ovh.Prelude.{
  ◌≡◌, refl, sym, inl, inr, Bool-cases, true, false, if◌then◌else◌, none, Text, codes, ok, err,
  GoError, wrap, ap, ◌∙◌,
}
use cluster_api_provider_ovh.Errors.{as_api, says, is_retryable}
use cluster_api_provider_ovh.Errors.Classes.{plain_not_found, wrap_not_found}
use cluster_api_provider_ovh.Cloud.{Method, Kind, Body, World}
use cluster_api_provider_ovh.Client.Retry.{Client, request, retry_with_backoff, retries_text}
use cluster_api_provider_ovh.Client.Retry.Settled.{before, retry_settles}
use cluster_api_provider_ovh.Client.Instances.{delete_instance}

module _ {W : Type 0} (c : Client W) (e : GoError) where
  -- Every call ends in that error.
  abbrev pub AlwaysFails : Type 0
  AlwaysFails =
      (k : Kind) (m : Method) (p : Text) (b : Body) (cloud : W)
      → (c.api.call k m p b cloud).0 ≡ err e

  request_fails :
      AlwaysFails
      → (k : Kind) (m : Method) (p : Text) (b : Body) (w : World W)
      → (request c k m p b w).0 ≡ err e
  unfolding request
  request_fails always k m p b w = always k m p b w.cloud

  fails :
      AlwaysFails
      → (op : Text) (k : Kind) (m : Method) (p : Text) (b : Body) (w : World W)
      → (retry_with_backoff op (request c k m p b) w).0
        ≡ err (if is_retryable e then wrap (retries_text op) e else e)
  fails always op k m p b w = elim (retry_settles op (request c k m p b) w) [
    | inl (n, _, _, final, same) ↦
        let last = request_fails always k m p b (before (request c k m p b) n 0 w) in
        let stops : is_retryable e ≡ false = rw last at final in
        ap (λ r. r.0) same ∙ last ∙ rw stops refl
    | inr (e', _, last, transient, same) ↦
        let is_e : e' ≡ e = (let h = sym last ∙ request_fails always k m p b _ in cc) in
        let goes : is_retryable e ≡ true = rw is_e at transient in
        ap (λ r. r.0) same ∙ rw (is_e, goes) refl
  ]

  -- If every call ends in one error that carries no API status code and whose text holds "404", a
  -- network failure that quotes such an identifier say, then DeleteInstance reports success.
  pub delete_masks :
      AlwaysFails
      → as_api e ≡ none
      → says e (codes "404") ≡ true
      → (instance_id : Text) (w : World W) → (delete_instance c instance_id w).0 ≡ ok tt
  unfolding delete_instance
  delete_masks always network text instance_id w =
      rw (fails always _ _ _ _ _ w) (elim (Bool-cases (is_retryable e)) [
        | inl transient ↦
            let kept = wrap_not_found (retries_text (codes "DeleteInstance")) e in
            rw (transient, kept (plain_not_found e network text)) refl
        | inr final ↦ rw (final, plain_not_found e network text) refl
      ])
