-- ===== src/InterbankPayment/Requests.antt =====
-- What the checks of `createPayment` establish (exchange-service/internal/handler/
-- interbank_payment_http_handler.go).
use exbanka_3_backend.Prelude.{◌≡◌, sym, ap, ◌∙◌, Bool, true, not, some, ◌||◌, ◌==◌, arith}
use exbanka_3_backend.Prelude.Int.{ℤ, pos, ◌<ℤ◌, leb_ℤ}
use exbanka_3_backend.Prelude.Text.{Text, codes, text_eq}
use exbanka_3_backend.Prelude.Except.{Except, ok, err, or_fail, >>=-eq-ok, fail_if-eq-ok}
use exbanka_3_backend.Interbank.Steps.{or_fail-eq-ok}
use exbanka_3_backend.InterbankPayment.Shape.{routing_number_from_account}
use exbanka_3_backend.InterbankPayment.Sender.{
  Request, Registry, BadRequest, is_registered, resolve_bank_from_account, is_known_currency,
  trimmed, is_empty, check_routing, check_request,
}

-- What a request that passes the checks says.
pub record Checked (registry : Registry) (q : Request) (partner : ℤ) : Type 0 where
  pub positive : pos 0 <ℤ q.amount
  pub from_here :
      routing_number_from_account q.sender_account_number ≡ some (pos registry.own_routing)
  pub to_partner : routing_number_from_account q.recipient_account_number ≡ some partner

abbrev value_or : {E A : Type 0} → A → Except E A → A
value_or a (ok x) = x
value_or a (err e) = a

module _ (registry : Registry) where
  resolve-local :
      (n : Text) (code : ℤ)
      → resolve_bank_from_account registry n ≡ some (code, true)
      → routing_number_from_account n ≡ some (pos registry.own_routing)
  unfolding resolve_bank_from_account
  resolve-local n code h = ground arith

  resolve-code :
      (n : Text) (code : ℤ) (here : Bool)
      → resolve_bank_from_account registry n ≡ some (code, here)
      → routing_number_from_account n ≡ some code
  unfolding resolve_bank_from_account
  resolve-code n code here h = ground arith

  check_routing-Checked :
      (q : Request) (partner : ℤ)
      → check_routing registry q ≡ ok partner
      → (routing_number_from_account q.sender_account_number ≡ some (pos registry.own_routing))
        × (routing_number_from_account q.recipient_account_number ≡ some partner)
  unfolding check_routing
  check_routing-Checked q partner h =
      let sends = resolve_bank_from_account registry q.sender_account_number in
      let (sent, e₁, h₁) = >>=-eq-ok (or_fail sends BadRequest.no_sender_routing) _ h in
      let (local, h₂) = fail_if-eq-ok (not sent.1) BadRequest.foreign_sender _ h₁ in
      let receives = resolve_bank_from_account registry q.recipient_account_number in
      let (received, e₂, h₃) = >>=-eq-ok (or_fail receives BadRequest.no_recipient_routing) _ h₂ in
      let (away, h₄) = fail_if-eq-ok received.1 BadRequest.local_recipient _ h₃ in
      let (known, h₅) =
        fail_if-eq-ok (not (is_registered received.0 registry.by_code)) BadRequest.no_partner _
          h₄ in
      let here : sent.1 ≡ true = ground arith in
      (
        resolve-local q.sender_account_number sent.0
            (or_fail-eq-ok _ _ e₁ ∙ ap (λ b. some (sent.0, b)) here),
        resolve-code q.recipient_account_number received.0 received.1 (or_fail-eq-ok _ _ e₂)
            ∙ ap (λ x. some (value_or partner x)) h₅,
      )

  pub check_request-Checked :
      (given q : Request) (partner : ℤ)
      → check_request registry given ≡ ok (q, partner)
      → (q ≡ trimmed given) × Checked registry q partner
  unfolding check_request
  check_request-Checked given q partner h =
      let r = trimmed given in
      let (a, h₁) =
        fail_if-eq-ok (not (text_eq given.token_source (codes "client")) || given.client_id == 0)
          BadRequest.only_clients _ h in
      let (b, h₂) =
        fail_if-eq-ok (is_empty r.sender_account_number || is_empty r.recipient_account_number)
          BadRequest.accounts_required _ h₁ in
      let (c, h₃) = fail_if-eq-ok (is_empty r.currency) BadRequest.currency_required _ h₂ in
      let (d, h₄) =
        fail_if-eq-ok (not (is_known_currency r.currency)) BadRequest.unknown_currency _ h₃ in
      let (e, h₅) = fail_if-eq-ok (leb_ℤ r.amount (pos 0)) BadRequest.amount_not_positive _ h₄ in
      let (f, h₆) =
        fail_if-eq-ok (text_eq r.sender_account_number r.recipient_account_number)
          BadRequest.same_accounts _ h₅ in
      let (code, g, h₇) = >>=-eq-ok (check_routing registry r) _ h₆ in
      let is_code = ap (λ (x : Except BadRequest (Request × ℤ)). (value_or (q, partner) x).1) h₇ in
      let is_q = ap (λ (x : Except BadRequest (Request × ℤ)). (value_or (q, partner) x).0) h₇ in
      let (sender, recipient) = check_routing-Checked r code g in
      (
        sym is_q,
        record {
          positive = rw (sym is_q) (ground arith);
          from_here =
              ap (λ x. routing_number_from_account x.sender_account_number) (sym is_q) ∙ sender;
          to_partner =
              ap (λ x. routing_number_from_account x.recipient_account_number) (sym is_q)
              ∙ recipient
              ∙ ap some is_code;
        },
      )
