-- ===== src/Interbank/Acceptance.antt =====
-- The shape and the terms of an option's acceptance (parseOtcAcceptance, matchAcceptanceTerms,
-- checkBalanced of exchange-service/internal/interbank/tx_processor.go). `nearlyEqual` of two
-- amounts is equality on hundredths.
use exbanka_3_backend.Prelude.{
  ℕ, zero, suc, ◌/◌, ◌%◌, ltb, Bool, true, false, not, Option, none, some, List, [], ◌∷◌, ◌++◌,
  if◌then◌else◌,
}
use exbanka_3_backend.Prelude.Int.{ℤ, pos, ◌+ℤ◌, ◌-ℤ◌, eqb_ℤ, ltb_ℤ}
use exbanka_3_backend.Prelude.Text.{Text, codes, text_eq}
use exbanka_3_backend.Prelude.Except.{Except, ok, err, ◌>>=◌, ◌>>◌, fail_if, or_fail}
use exbanka_3_backend.Numbers.Digits.{digit_code}
use exbanka_3_backend.Interbank.Messages.{
  ForeignBankId, TxAccountType, tx_account_person, AssetType, asset_monas, asset_stock,
  asset_option, asset_other, MonetaryAsset, OptionDescription, Asset, Posting, Transaction,
  unbalanced_tx, unacceptable_asset, NoVoteReason, bare, about,
}

abbrev pub nearly_equal : ℤ → ℤ → Bool
nearly_equal = eqb_ℤ

abbrev pub negated : ℤ → ℤ
negated x = pos 0 -ℤ x

-- `time.Parse` with its two layouts: the instant, for a text of that layout.
pub record TimeLayouts : Type 0 where
  pub parse_rfc3339 : Text → Option ℕ
  pub parse_date : Text → Option ℕ

-- `%d`, for a number: `fuel` bounds the digits, and the number itself is enough.
abbrev pub decimal_from : ℕ → ℕ → Text
decimal_from zero n = digit_code (n % 10) ∷ []
decimal_from (suc fuel) n =
    let front = decimal_from fuel (n / 10) in
    if ltb n 10 then digit_code n ∷ [] else front ++ digit_code (n % 10) ∷ []

unfoldable pub decimal : ℕ → Text
decimal n = decimal_from n n

-- `assetGroupKey`.
unfoldable pub asset_group_key : Asset → Text
asset_group_key a = elim (a.kind) [
  | asset_monas ↦ elim (a.monas) [ none ↦ codes "monas:?" | some m ↦ codes "monas:" ++ m.currency ]
  | asset_stock ↦ elim (a.stock) [ none ↦ codes "stock:?" | some s ↦ codes "stock:" ++ s.ticker ]
  | asset_option ↦ elim (a.option) [
    | none ↦ codes "option:?"
    | some o ↦
        codes "option:"
        ++ decimal o.negotiation_id.routing_number
        ++ codes "/"
        ++ o.negotiation_id.id
  ]
  | asset_other s ↦ codes "?"
]

-- `sums[key] += amount`, for the map as an association list.
unfoldable pub add_amount : Text → ℤ → List (Text × ℤ) → List (Text × ℤ)
add_amount key x [] = (key, x) ∷ []
add_amount key x ((k, v) ∷ sums) =
    let rest = add_amount key x sums in if text_eq k key then (k, v +ℤ x) ∷ sums else (k, v) ∷ rest

unfoldable pub asset_sums : List (Text × ℤ) → List Posting → List (Text × ℤ)
asset_sums sums [] = sums
asset_sums sums (p ∷ ps) = asset_sums (add_amount (asset_group_key p.asset) p.amount sums) ps

unfoldable pub all_zero : List (Text × ℤ) → Bool
all_zero [] = true
all_zero ((k, v) ∷ sums) =
    let rest = all_zero sums in if nearly_equal v (pos 0) then rest else false

unfoldable pub check_balanced : Transaction → Option NoVoteReason
check_balanced tx = if all_zero (asset_sums [] tx.postings) then none else some (bare unbalanced_tx)

-- The postings that are found, each with the parts its pointers lead to.
pub record CashLeg : Type 0 where
  pub posting : Posting
  pub person : ForeignBankId
  pub monas : MonetaryAsset

pub record OptionLeg : Type 0 where
  pub posting : Posting
  pub person : ForeignBankId
  pub option : OptionDescription

pub record Legs : Type 0 where
  pub cash_leg_buyer : Option CashLeg
  pub cash_leg_seller : Option CashLeg
  pub option_leg_seller : Option OptionLeg
  pub option_leg_buyer : Option OptionLeg

-- `otcAcceptanceTx`, once all four are there.
pub record OtcAcceptance : Type 0 where
  pub cash_leg_buyer : CashLeg
  pub cash_leg_seller : CashLeg
  pub option_leg_seller : OptionLeg
  pub option_leg_buyer : OptionLeg

abbrev pub is_set : {A : Type 0} → Option A → Bool
is_set none = false
is_set (some a) = true

abbrev pub is_person : TxAccountType → Bool
is_person tx_account_person = true
is_person _ = false

abbrev pub is_negative : ℤ → Bool
is_negative x = ltb_ℤ x (pos 0)

unfoldable pub place_cash : Posting → ForeignBankId → Legs → Except NoVoteReason Legs
place_cash p id l = do
  m ← or_fail p.asset.monas (about unacceptable_asset p)
  fail_if (is_set (if is_negative p.amount then l.cash_leg_buyer else l.cash_leg_seller))
      (about unacceptable_asset p)
  let leg = some (record { posting = p; person = id; monas = m })
  ok (
      if is_negative p.amount
      then record l { cash_leg_buyer = leg }
      else record l { cash_leg_seller = leg })

unfoldable pub place_option : Posting → ForeignBankId → Legs → Except NoVoteReason Legs
place_option p id l = do
  o ← or_fail p.asset.option (about unacceptable_asset p)
  fail_if (is_set (if is_negative p.amount then l.option_leg_seller else l.option_leg_buyer))
      (about unacceptable_asset p)
  let leg = some (record { posting = p; person = id; option = o })
  ok (
      if is_negative p.amount
      then record l { option_leg_seller = leg }
      else record l { option_leg_buyer = leg })

unfoldable pub place_by_asset :
    AssetType → Posting → ForeignBankId → Legs → Except NoVoteReason Legs
place_by_asset asset_monas p id l = place_cash p id l
place_by_asset asset_option p id l = place_option p id l
place_by_asset asset_stock p id l = err (about unacceptable_asset p)
place_by_asset (asset_other s) p id l = err (about unacceptable_asset p)

-- One round of the loop.
unfoldable pub place_posting : Legs → Posting → Except NoVoteReason Legs
place_posting l p = do
  fail_if (not (is_person p.account.kind)) (about unacceptable_asset p)
  id ← or_fail p.account.id (about unacceptable_asset p)
  place_by_asset p.asset.kind p id l

unfoldable pub place_postings : Legs → List Posting → Except NoVoteReason Legs
place_postings l [] = ok l
place_postings l (p ∷ ps) = place_posting l p >>= λ l'. place_postings l' ps

unfoldable pub all_legs : Legs → Except NoVoteReason OtcAcceptance
all_legs l = do
  cb ← or_fail l.cash_leg_buyer (bare unacceptable_asset)
  cs ← or_fail l.cash_leg_seller (bare unacceptable_asset)
  os ← or_fail l.option_leg_seller (bare unacceptable_asset)
  ob ← or_fail l.option_leg_buyer (bare unacceptable_asset)
  ok record {
    cash_leg_buyer = cb;
    cash_leg_seller = cs;
    option_leg_seller = os;
    option_leg_buyer = ob;
  }
