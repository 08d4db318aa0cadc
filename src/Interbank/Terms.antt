-- ===== src/Interbank/Terms.antt =====
-- The second half of parseOtcAcceptance, and matchAcceptanceTerms (exchange-service/internal/
-- interbank/tx_processor.go), with the comparison of settlement dates (exercise_tx_processor.go).
use exbanka_3_backend.Prelude.{
  ℕ, ◌==◌, Bool, false, not, ◌&&◌, ◌||◌, Option, none, some, [], length, if◌then◌else◌,
}
use exbanka_3_backend.Prelude.Int.{pos, negsuc}
use exbanka_3_backend.Prelude.Text.{Text, text_eq, trim_space}
use exbanka_3_backend.Prelude.Except.{Except, ok, ◌>>=◌, ◌>>◌, fail_if}
use exbanka_3_backend.Interbank.Messages.{
  same_foreign_bank_id, OptionDescription, Transaction, unbalanced_tx, no_such_account,
  unacceptable_asset, insufficient_asset, option_amount_incorrect, option_negotiation_not_found,
  NoVoteReason, bare, about,
}
use exbanka_3_backend.Interbank.Models.{InterbankOtcNegotiation}
use exbanka_3_backend.Interbank.Acceptance.{
  nearly_equal, negated, TimeLayouts, Legs, OtcAcceptance, place_postings, all_legs,
}

abbrev pub no_legs : Legs
no_legs = record {
  cash_leg_buyer = none;
  cash_leg_seller = none;
  option_leg_seller = none;
  option_leg_buyer = none;
}

module _ (time : TimeLayouts) where
  abbrev pub or_else : Option ℕ → Option ℕ → Option ℕ
  or_else none o = o
  or_else (some t) o = some t

  unfoldable pub parse_settlement : Text → Option ℕ
  parse_settlement s =
      if text_eq (trim_space s) []
      then none
      else or_else (time.parse_rfc3339 (trim_space s)) (time.parse_date (trim_space s))

  abbrev pub same_instant : Option ℕ → Option ℕ → Bool
  same_instant none b = false
  same_instant (some s) none = false
  same_instant (some s) (some t) = s == t

  unfoldable pub same_settlement_date : Text → Text → Bool
  same_settlement_date a b = text_eq a b || same_instant (parse_settlement a) (parse_settlement b)

  unfoldable pub same_option : OptionDescription → OptionDescription → Bool
  same_option a b =
      (a.negotiation_id.routing_number == b.negotiation_id.routing_number)
      && text_eq a.negotiation_id.id b.negotiation_id.id
      && text_eq a.stock.ticker b.stock.ticker
      && text_eq a.price_per_unit.currency b.price_per_unit.currency
      && nearly_equal a.price_per_unit.amount b.price_per_unit.amount
      && same_settlement_date a.settlement_date b.settlement_date
      && nearly_equal a.amount b.amount

  -- One option is 100 hundredths.
  unfoldable pub check_legs : OtcAcceptance → Except NoVoteReason OtcAcceptance
  check_legs a = do
    fail_if
        (not (nearly_equal a.option_leg_seller.posting.amount (negsuc 99))
          || not (nearly_equal a.option_leg_buyer.posting.amount (pos 100)))
        (about option_amount_incorrect a.option_leg_buyer.posting)
    fail_if
        (not
          (nearly_equal a.cash_leg_buyer.posting.amount (negated a.cash_leg_seller.posting.amount)))
        (bare unbalanced_tx)
    fail_if (not (same_option a.option_leg_seller.option a.option_leg_buyer.option))
        (about unacceptable_asset a.option_leg_buyer.posting)
    fail_if (not (same_foreign_bank_id a.cash_leg_buyer.person a.option_leg_buyer.person))
        (about unacceptable_asset a.option_leg_buyer.posting)
    fail_if (not (same_foreign_bank_id a.cash_leg_seller.person a.option_leg_seller.person))
        (about unacceptable_asset a.option_leg_seller.posting)
    ok a

  unfoldable pub parse_otc_acceptance : Transaction → Except NoVoteReason OtcAcceptance
  parse_otc_acceptance tx = do
    fail_if (not (length tx.postings == 4)) (bare unacceptable_asset)
    l ← place_postings no_legs tx.postings
    a ← all_legs l
    check_legs a

  unfoldable pub match_acceptance_terms :
      OtcAcceptance → InterbankOtcNegotiation → Except NoVoteReason (Unit {0})
  match_acceptance_terms a n =
      let option = a.option_leg_seller.option in
      let buyer = a.cash_leg_buyer in
      let at_option = a.option_leg_buyer.posting in
      do
        fail_if
            (not (buyer.person.routing_number == n.buyer_routing_number)
              || not (text_eq buyer.person.id n.buyer_id))
            (about no_such_account buyer.posting)
        fail_if
            (not (a.cash_leg_seller.person.routing_number == n.seller_routing_number)
              || not (text_eq a.cash_leg_seller.person.id n.seller_id))
            (about no_such_account a.cash_leg_seller.posting)
        fail_if (not (text_eq buyer.monas.currency n.premium_currency))
            (about unacceptable_asset buyer.posting)
        fail_if (not (nearly_equal (negated buyer.posting.amount) n.premium_amount))
            (about insufficient_asset buyer.posting)
        fail_if (not (text_eq option.stock.ticker n.stock_ticker))
            (about unacceptable_asset at_option)
        fail_if
            (not (text_eq option.price_per_unit.currency n.price_per_unit_currency)
              || not (nearly_equal option.price_per_unit.amount n.price_per_unit_amount))
            (about unacceptable_asset at_option)
        fail_if (not (same_settlement_date option.settlement_date n.settlement_date))
            (about unacceptable_asset at_option)
        fail_if (not (nearly_equal option.amount n.amount))
            (about option_amount_incorrect at_option)
        fail_if
            (not (option.negotiation_id.routing_number == n.negotiation_routing_number)
              || not (text_eq option.negotiation_id.id n.negotiation_id))
            (about option_negotiation_not_found at_option)
