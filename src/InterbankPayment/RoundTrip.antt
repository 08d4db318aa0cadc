-- ===== src/InterbankPayment/RoundTrip.antt =====
-- The transaction that the sender's bank builds is the payment that the recipient's bank reads
-- (BuildPaymentTx, parsePaymentTx, IsPaymentShape of exchange-service/internal/interbank/
-- payment_tx_processor.go, checkBalanced of tx_processor.go).
use exbanka_3_backend.Prelude.{
  ℕ, ◌+◌, ◌==◌, ==_refl, ◌≡◌, refl, ap, true, false, Option, none, some, [], arith, length, ltb,
  take, if◌then◌else◌, Bool-cases, inl, inr,
}
use exbanka_3_backend.Prelude.Int.{ℤ, pos, ◌+ℤ◌, ◌<ℤ◌, leb_ℤ, int_laws}
use exbanka_3_backend.Prelude.Text.{Text, text_eq, text_eq-eq, text_eq_refl, trim_space}
use exbanka_3_backend.Prelude.Except.{ok}
use exbanka_3_backend.Interbank.Messages.{ForeignBankId}
use exbanka_3_backend.Interbank.Acceptance.{
  check_balanced, negated, asset_sums, add_amount, all_zero, asset_group_key, nearly_equal,
  is_negative,
}
use exbanka_3_backend.InterbankPayment.Shape.{
  atoi, routing_number_from_account, place_leg, place_legs, check_pair, MonasLeg, PaymentTx,
  parse_payment_tx, build_payment_tx, posting_of, is_payment_shape, monas_of, all_monas_accounts,
}
use exbanka_3_backend.InterbankPayment.Receiver.{new_tx_checks}

routing-not_blank :
    (n : Text) (r : ℤ) → routing_number_from_account n ≡ some r → text_eq (trim_space n) [] ≡ false
unfolding routing_number_from_account
routing-not_blank n r h = elim (Bool-cases (text_eq (trim_space n) [])) [
  | inr fine ↦ fine
  | inl blank ↦
      let e = text_eq-eq (trim_space n) [] blank in
      absurd (let q = ap (λ s. if ltb (length s) 3 then none else atoi (take 3 s)) e in cc)
]

-- The payment of a transaction that was built.
abbrev pub payment_of : Text → Text → Text → ℤ → ℤ → ℤ → PaymentTx
payment_of sender recipient currency amount send_routing recv_routing = record {
  sender_posting = posting_of sender (negated amount) currency;
  recipient_posting = posting_of recipient amount currency;
  sender_account = sender;
  recipient_account = recipient;
  sender_routing = send_routing;
  recipient_routing = recv_routing;
  currency = currency;
  amount = amount;
}

module _ (key : ForeignBankId) (sender recipient currency : Text) (amount : ℤ)
    (message code purpose : Text) where
  abbrev sender_leg : MonasLeg
  sender_leg = record {
    posting = posting_of sender (negated amount) currency;
    monas = record { currency = currency };
  }

  abbrev recipient_leg : MonasLeg
  recipient_leg = record {
    posting = posting_of recipient amount currency;
    monas = record { currency = currency };
  }

  place-sender :
      pos 0 <ℤ amount
      → text_eq (trim_space sender) [] ≡ false
      → place_leg (record { sender = none; recipient = none }) sender_leg.posting
        ≡ ok (record { sender = some sender_leg; recipient = none })
  unfolding place_leg
  place-sender positive h =
      let negative : is_negative (negated amount) ≡ true = grind int_laws in rw (h, negative) refl

  place-recipient :
      (l : Option MonasLeg)
      → pos 0 <ℤ amount
      → text_eq (trim_space recipient) [] ≡ false
      → place_leg (record { sender = l; recipient = none }) recipient_leg.posting
        ≡ ok (record { sender = l; recipient = some recipient_leg })
  unfolding place_leg
  place-recipient l positive h =
      let credit : is_negative amount ≡ false = ground arith in rw (h, credit) refl

  check-built :
      (s r : ℤ)
      → pos 0 <ℤ amount
      → routing_number_from_account sender ≡ some s
      → routing_number_from_account recipient ≡ some r
      → check_pair sender_leg recipient_leg ≡ ok (payment_of sender recipient currency amount s r)
  unfolding check_pair
  check-built s r positive hs hr =
      let twice : negated (negated amount) ≡ amount = grind int_laws in
      let same : nearly_equal (negated amount) (negated amount) ≡ true = ground arith in
      let enough : leb_ℤ amount (pos 0) ≡ false = ground arith in
      rw (same, text_eq_refl currency, twice, enough, hs, hr) refl

  balanced-built :
      check_balanced (build_payment_tx key sender recipient currency amount message code purpose)
      ≡ none
  unfolding check_balanced build_payment_tx asset_sums add_amount all_zero
  balanced-built =
      let zero_sum : nearly_equal (negated amount +ℤ amount) (pos 0) ≡ true = grind int_laws in
      rw (text_eq_refl (asset_group_key (monas_of currency)), zero_sum) refl

  shape-built :
      is_payment_shape (build_payment_tx key sender recipient currency amount message code purpose)
      ≡ true
  unfolding is_payment_shape build_payment_tx all_monas_accounts
  shape-built = refl

  -- For a positive amount and two account numbers that each name a bank, the transaction that
  -- BuildPaymentTx makes has the shape of a payment, is balanced, and is read back by parsePaymentTx
  -- as the payment of the same accounts, banks, currency and amount.
  pub parse-build :
      (send_routing recv_routing : ℤ)
      → pos 0 <ℤ amount
      → routing_number_from_account sender ≡ some send_routing
      → routing_number_from_account recipient ≡ some recv_routing
      → let tx = build_payment_tx key sender recipient currency amount message code purpose in
        (is_payment_shape tx ≡ true)
        × (check_balanced tx ≡ none)
        × (parse_payment_tx tx
            ≡ ok (payment_of sender recipient currency amount send_routing recv_routing))
  unfolding parse_payment_tx build_payment_tx place_legs
  parse-build s r positive hs hr =
      let e₁ = place-sender positive (routing-not_blank sender s hs) in
      let e₂ = place-recipient (some sender_leg) positive (routing-not_blank recipient r hr) in
      (shape-built, balanced-built, rw (e₁, e₂, check-built s r positive hs hr) refl)

  -- The recipient's bank admits it when the accounts name the two banks.
  pub checks-build :
      (own partner : ℕ)
      → pos 0 <ℤ amount
      → routing_number_from_account sender ≡ some (pos partner)
      → routing_number_from_account recipient ≡ some (pos own)
      → new_tx_checks own partner
          (build_payment_tx key sender recipient currency amount message code purpose)
        ≡ ok (payment_of sender recipient currency amount (pos partner) (pos own))
  unfolding new_tx_checks
  checks-build own partner positive hs hr =
      let (shape, balanced, parsed) = parse-build (pos partner) (pos own) positive hs hr in
      let at_home : (own + 0 == own + 0) ≡ true = ==_refl (own + 0) in
      let from : (partner + 0 == partner + 0) ≡ true = ==_refl (partner + 0) in
      rw (balanced, parsed, at_home, from) refl
