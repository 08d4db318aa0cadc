-- ===== src/Interbank/Agreement.antt =====
-- What a NEW_TX that passes the checks agrees on (OnNewTx with parseOtcAcceptance and
-- matchAcceptanceTerms of exchange-service/internal/interbank/tx_processor.go).
use exbanka_3_backend.Prelude.{
  ℕ, ◌==◌, ◌≡◌, ==_iff, Bool, true, false, not, ◌||◌, ◌&&◌, arith, ap, sym, refl, Option, none,
  some, length,
}
use exbanka_3_backend.Prelude.Int.{ℤ, pos, negsuc, eqb_ℤ, eq_of_parts}
use exbanka_3_backend.Prelude.Text.{text_eq-eq}
use exbanka_3_backend.Prelude.Except.{Except, ok, err, fail_if, fail_if-eq-ok, >>=-eq-ok, or_fail}
use exbanka_3_backend.Interbank.Messages.{
  Transaction, about, option_negotiation_not_found, NoVoteReason, same_foreign_bank_id,
}
use exbanka_3_backend.Interbank.Models.{InterbankOtcNegotiation, Tables, Env, get_negotiation, Stmt}
use exbanka_3_backend.Interbank.Acceptance.{
  place_postings, all_legs, OtcAcceptance, TimeLayouts, negated, nearly_equal, check_balanced,
}
use exbanka_3_backend.Interbank.Steps.{or_fail-eq-ok}
use exbanka_3_backend.Interbank.Terms.{
  no_legs, same_option, check_legs, match_acceptance_terms, same_settlement_date,
  parse_otc_acceptance,
}
use exbanka_3_backend.Interbank.Processor.{refused, new_tx_checks, voting, unless}

pub not-eq-false : (b : Bool) → not b ≡ false → b ≡ true
not-eq-false b h = ground arith

both-eq-true : (b c : Bool) → (not b || not c) ≡ false → (b ≡ true) × (c ≡ true)
both-eq-true b c h = ground arith

eqb_ℤ-eq : (a b : ℤ) → eqb_ℤ a b ≡ true → a ≡ b
eqb_ℤ-eq a b h = eq_of_parts a b ((==_iff _ _).0 h)

-- The postings name the negotiation's parties and terms.
pub record Agreed (time : TimeLayouts) (a : OtcAcceptance) (n : InterbankOtcNegotiation)
    : Type 0 where
  pub buyer_bank : a.cash_leg_buyer.person.routing_number ≡ n.buyer_routing_number
  pub buyer_id : a.cash_leg_buyer.person.id ≡ n.buyer_id
  pub seller_bank : a.cash_leg_seller.person.routing_number ≡ n.seller_routing_number
  pub seller_id : a.cash_leg_seller.person.id ≡ n.seller_id
  pub premium_currency : a.cash_leg_buyer.monas.currency ≡ n.premium_currency
  pub premium : negated a.cash_leg_buyer.posting.amount ≡ n.premium_amount
  pub ticker : a.option_leg_seller.option.stock.ticker ≡ n.stock_ticker
  pub price_currency :
      a.option_leg_seller.option.price_per_unit.currency ≡ n.price_per_unit_currency
  pub price : a.option_leg_seller.option.price_per_unit.amount ≡ n.price_per_unit_amount
  pub date :
      same_settlement_date time a.option_leg_seller.option.settlement_date n.settlement_date ≡ true
  pub amount : a.option_leg_seller.option.amount ≡ n.amount
  pub named_bank :
      a.option_leg_seller.option.negotiation_id.routing_number ≡ n.negotiation_routing_number
  pub named_id : a.option_leg_seller.option.negotiation_id.id ≡ n.negotiation_id

check_passes : {E : Type 0} (c : Bool) (e : E) → fail_if c e ≡ ok tt → c ≡ false
check_passes true e h = cc
check_passes false e h = refl

match_acceptance_terms-Agreed :
    (time : TimeLayouts) (a : OtcAcceptance) (n : InterbankOtcNegotiation)
    → match_acceptance_terms time a n ≡ ok tt
    → Agreed time a n
unfolding match_acceptance_terms
match_acceptance_terms-Agreed time a n h =
    let (c₁, h₁) = fail_if-eq-ok _ _ _ h in
    let (c₂, h₂) = fail_if-eq-ok _ _ _ h₁ in
    let (c₃, h₃) = fail_if-eq-ok _ _ _ h₂ in
    let (c₄, h₄) = fail_if-eq-ok _ _ _ h₃ in
    let (c₅, h₅) = fail_if-eq-ok _ _ _ h₄ in
    let (c₆, h₆) = fail_if-eq-ok _ _ _ h₅ in
    let (c₇, h₇) = fail_if-eq-ok _ _ _ h₆ in
    let (c₈, h₈) = fail_if-eq-ok _ _ _ h₇ in
    let c₉ = check_passes _ _ h₈ in
    record {
      buyer_bank = (==_iff _ _).0 (both-eq-true _ _ c₁).0;
      buyer_id = text_eq-eq _ _ (both-eq-true _ _ c₁).1;
      seller_bank = (==_iff _ _).0 (both-eq-true _ _ c₂).0;
      seller_id = text_eq-eq _ _ (both-eq-true _ _ c₂).1;
      premium_currency = text_eq-eq _ _ (not-eq-false _ c₃);
      premium = eqb_ℤ-eq _ _ (not-eq-false _ c₄);
      ticker = text_eq-eq _ _ (not-eq-false _ c₅);
      price_currency = text_eq-eq _ _ (both-eq-true _ _ c₆).0;
      price = eqb_ℤ-eq _ _ (both-eq-true _ _ c₆).1;
      date = not-eq-false _ c₇;
      amount = eqb_ℤ-eq _ _ (not-eq-false _ c₈);
      named_bank = (==_iff _ _).0 (both-eq-true _ _ c₉).0;
      named_id = text_eq-eq _ _ (both-eq-true _ _ c₉).1;
    }

-- One option changes hands against one amount of cash, between the same two persons.
pub record Coherent (a : OtcAcceptance) : Type 0 where
  pub sold : a.option_leg_seller.posting.amount ≡ negsuc 99
  pub bought : a.option_leg_buyer.posting.amount ≡ pos 100
  pub paid : a.cash_leg_buyer.posting.amount ≡ negated a.cash_leg_seller.posting.amount
  pub buyer_bank : a.cash_leg_buyer.person.routing_number ≡ a.option_leg_buyer.person.routing_number
  pub buyer_id : a.cash_leg_buyer.person.id ≡ a.option_leg_buyer.person.id
  pub seller_bank :
      a.cash_leg_seller.person.routing_number ≡ a.option_leg_seller.person.routing_number
  pub seller_id : a.cash_leg_seller.person.id ≡ a.option_leg_seller.person.id

and-eq-true : (b c : Bool) → (b && c) ≡ true → (b ≡ true) × (c ≡ true)
and-eq-true b c h = ground arith

pub ok-eq : {E A : Type 0} (a b : A) → ◌≡◌ {A = Except E A} (ok a) (ok b) → a ≡ b
ok-eq a b h = cc

check_legs-Coherent :
    (time : TimeLayouts) (a b : OtcAcceptance) → check_legs time a ≡ ok b → (a ≡ b) × Coherent a
unfolding check_legs
check_legs-Coherent time a b h =
    let (c₁, h₁) =
      fail_if-eq-ok
        (not (nearly_equal a.option_leg_seller.posting.amount (negsuc 99))
          || not (nearly_equal a.option_leg_buyer.posting.amount (pos 100)))
        _ _ h in
    let (c₂, h₂) =
      fail_if-eq-ok
        (not
          (nearly_equal a.cash_leg_buyer.posting.amount (negated a.cash_leg_seller.posting.amount)))
        _ _ h₁ in
    let (c₃, h₃) =
      fail_if-eq-ok (not (same_option time a.option_leg_seller.option a.option_leg_buyer.option)) _
        _ h₂ in
    let (c₄, h₄) =
      fail_if-eq-ok (not (same_foreign_bank_id a.cash_leg_buyer.person a.option_leg_buyer.person)) _
        _ h₃ in
    let (c₅, h₅) =
      fail_if-eq-ok (not (same_foreign_bank_id a.cash_leg_seller.person a.option_leg_seller.person))
        _ _ h₄ in
    let buyer = and-eq-true _ _ (not-eq-false _ c₄) in
    let seller = and-eq-true _ _ (not-eq-false _ c₅) in
    (
      ok-eq a b h₅,
      record {
        sold = eqb_ℤ-eq _ _ (both-eq-true _ _ c₁).0;
        bought = eqb_ℤ-eq _ _ (both-eq-true _ _ c₁).1;
        paid = eqb_ℤ-eq _ _ (not-eq-false _ c₂);
        buyer_bank = (==_iff _ _).0 buyer.0;
        buyer_id = text_eq-eq _ _ buyer.1;
        seller_bank = (==_iff _ _).0 seller.0;
        seller_id = text_eq-eq _ _ seller.1;
      },
    )

parse_otc_acceptance-Coherent :
    (time : TimeLayouts) (tx : Transaction) (a : OtcAcceptance)
    → parse_otc_acceptance time tx ≡ ok a
    → Coherent a
unfolding parse_otc_acceptance
parse_otc_acceptance-Coherent time tx a h =
    let (four, h₁) = fail_if-eq-ok (not (length tx.postings == 4)) _ _ h in
    let (l, placed, h₂) = >>=-eq-ok (place_postings no_legs tx.postings) _ h₁ in
    let (b, all, h₃) = >>=-eq-ok (all_legs l) (check_legs time) h₂ in
    let (same, fits) = check_legs-Coherent time b a h₃ in rw⁻¹ same fits

voting-eq-ok : {A : Type 0} (r : Except NoVoteReason A) {a : A} → voting r ≡ ok a → r ≡ ok a
voting-eq-ok (ok x) h = cc
voting-eq-ok (err e) h = cc

unless-passes : (o : Option NoVoteReason) → unless o ≡ ok tt → o ≡ none
unless-passes none h = refl
unless-passes (some r) h = cc

-- What a NEW_TX that passes the checks has been found to say, on the tables `t`.
pub record Checked (time : TimeLayouts) (own_routing partner : ℕ) (tx : Transaction) (t : Tables)
    (a : OtcAcceptance) (n : InterbankOtcNegotiation) : Type 0 where
  pub balanced : check_balanced tx ≡ none
  pub parsed : parse_otc_acceptance time tx ≡ ok a
  pub coherent : Coherent a
  pub found :
      get_negotiation a.option_leg_seller.option.negotiation_id.routing_number
        a.option_leg_seller.option.negotiation_id.id t.negotiations
      ≡ some n
  pub from_seller : partner ≡ n.seller_routing_number
  pub to_buyer : n.buyer_routing_number ≡ own_routing
  pub agreed : Agreed time a n
  pub ongoing : n.is_ongoing ≡ true

pub new_tx_checks-Checked :
    (time : TimeLayouts) (own_routing : ℕ) (env : Env) (partner : ℕ) (tx : Transaction) (t : Tables)
    (a : OtcAcceptance) (n : InterbankOtcNegotiation)
    → new_tx_checks time own_routing env partner tx t ≡ ok (a, n)
    → Checked time own_routing partner tx t a n
unfolding new_tx_checks
new_tx_checks-Checked time own_routing env partner tx t a n h =
    let (u, balanced, h₁) = >>=-eq-ok (unless (check_balanced tx)) _ h in
    let (b, parsed, h₂) = >>=-eq-ok (voting (parse_otc_acceptance time tx)) _ h₁ in
    let (read, h₃) = fail_if-eq-ok (env.fails Stmt.load_negotiation) _ _ h₂ in
    let key = b.option_leg_seller.option.negotiation_id in
    let (m, got, h₄) =
      >>=-eq-ok
        (or_fail (get_negotiation key.routing_number key.id t.negotiations)
          (refused (about option_negotiation_not_found b.option_leg_buyer.posting)))
        _ h₃ in
    let (seller, h₅) = fail_if-eq-ok (not (partner == m.seller_routing_number)) _ _ h₄ in
    let (buyer, h₆) = fail_if-eq-ok (not (m.buyer_routing_number == own_routing)) _ _ h₅ in
    let (v, matched, h₇) = >>=-eq-ok (voting (match_acceptance_terms time b m)) _ h₆ in
    let (ongoing, h₈) = fail_if-eq-ok (not m.is_ongoing) _ _ h₇ in
    let both = ok-eq (b, m) (a, n) h₈ in
    let same = ap (λ p. p.0) both in
    let same' = ap (λ p. p.1) both in
    let parsed' = voting-eq-ok (parse_otc_acceptance time tx) parsed in
    let agreed = match_acceptance_terms-Agreed time b m (voting-eq-ok _ matched) in
    rw (sym same, sym same')
      (record {
        balanced = unless-passes (check_balanced tx) balanced;
        parsed = parsed';
        coherent = parse_otc_acceptance-Coherent time tx b parsed';
        found = or_fail-eq-ok _ _ got;
        from_seller = (==_iff _ _).0 (not-eq-false _ seller);
        to_buyer = (==_iff _ _).0 (not-eq-false _ buyer);
        agreed = agreed;
        ongoing = not-eq-false _ ongoing;
      })
