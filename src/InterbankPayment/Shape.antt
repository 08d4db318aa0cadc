-- ===== src/InterbankPayment/Shape.antt =====
-- The two postings of a direct payment (parsePaymentTx, BuildPaymentTx and IsPaymentShape of
-- exchange-service/internal/interbank/payment_tx_processor.go) and the bank that an account number
-- names (RoutingNumberFromAccount of registry.go).
use exbanka_3_backend.Prelude.{
  ℕ, ◌==◌, ltb, Bool, true, false, not, ◌&&◌, Option, none, some, List, [], ◌∷◌, length, take,
  if◌then◌else◌,
}
use exbanka_3_backend.Prelude.Int.{ℤ, pos, leb_ℤ}
use exbanka_3_backend.Prelude.Text.{Text, text_eq, trim_space}
use exbanka_3_backend.Prelude.Except.{Except, ok, ◌>>=◌, ◌>>◌, fail_if, or_fail}
use exbanka_3_backend.Interbank.Messages.{
  ForeignBankId, TxAccountType, tx_account_account, AssetType, asset_monas, MonetaryAsset, Asset,
  Posting, Transaction, unbalanced_tx, no_such_account, unacceptable_asset, NoVoteReason, bare,
  about,
}
use exbanka_3_backend.Interbank.Wallet.{uint_from, option_bind}
use exbanka_3_backend.Interbank.Acceptance.{nearly_equal, negated, is_set, is_negative}

abbrev pub is_account : TxAccountType → Bool
is_account tx_account_account = true
is_account _ = false

abbrev pub is_monas : AssetType → Bool
is_monas asset_monas = true
is_monas _ = false

-- `strconv.Atoi` of a few characters: decimal digits, at least one, after an optional sign.
abbrev pub digits : Text → Option ℕ
digits [] = none
digits (c ∷ cs) = uint_from 0 (c ∷ cs)

unfoldable pub atoi : Text → Option ℤ
atoi [] = none
atoi (c ∷ cs) =
    if c == b'-'
    then option_bind (digits cs) (λ n. some (negated (pos n)))
    else if c == b'+'
    then option_bind (digits cs) (λ n. some (pos n))
    else option_bind (digits (c ∷ cs)) (λ n. some (pos n))

-- `RoutingNumberFromAccount`, `none` for an error. Go cuts after three bytes: where a character of
-- the first three is longer than a byte, the result is an error either way.
unfoldable pub routing_number_from_account : Text → Option ℤ
routing_number_from_account account_number =
    let s = trim_space account_number in if ltb (length s) 3 then none else atoi (take 3 s)

-- A posting with the part that its pointer leads to.
pub record MonasLeg : Type 0 where
  pub posting : Posting
  pub monas : MonetaryAsset

pub record PaymentLegs : Type 0 where
  pub sender : Option MonasLeg
  pub recipient : Option MonasLeg

-- `paymentTx`.
pub record PaymentTx : Type 0 where
  pub sender_posting : Posting
  pub recipient_posting : Posting
  pub sender_account : Text
  pub recipient_account : Text
  pub sender_routing : ℤ
  pub recipient_routing : ℤ
  pub currency : Text
  pub amount : ℤ

-- One round of the loop.
unfoldable pub place_leg : PaymentLegs → Posting → Except NoVoteReason PaymentLegs
place_leg l p = do
  fail_if (not (is_account p.account.kind)) (about unacceptable_asset p)
  fail_if (text_eq (trim_space p.account.num) []) (about no_such_account p)
  fail_if (not (is_monas p.asset.kind)) (about unacceptable_asset p)
  m ← or_fail p.asset.monas (about unacceptable_asset p)
  fail_if (is_set (if is_negative p.amount then l.sender else l.recipient))
      (about unacceptable_asset p)
  let leg = some (record { posting = p; monas = m })
  ok (if is_negative p.amount then record l { sender = leg } else record l { recipient = leg })

unfoldable pub place_legs : PaymentLegs → List Posting → Except NoVoteReason PaymentLegs
place_legs l [] = ok l
place_legs l (p ∷ ps) = place_leg l p >>= λ l'. place_legs l' ps

-- The checks after the loop.
unfoldable pub check_pair : MonasLeg → MonasLeg → Except NoVoteReason PaymentTx
check_pair s r = do
  fail_if (not (nearly_equal s.posting.amount (negated r.posting.amount))) (bare unbalanced_tx)
  fail_if (not (text_eq s.monas.currency r.monas.currency)) (about unacceptable_asset r.posting)
  fail_if (leb_ℤ (negated s.posting.amount) (pos 0)) (about unacceptable_asset s.posting)
  send_routing ←
      or_fail (routing_number_from_account s.posting.account.num) (about no_such_account s.posting)
  recv_routing ←
      or_fail (routing_number_from_account r.posting.account.num) (about no_such_account r.posting)
  ok record {
    sender_posting = s.posting;
    recipient_posting = r.posting;
    sender_account = s.posting.account.num;
    recipient_account = r.posting.account.num;
    sender_routing = send_routing;
    recipient_routing = recv_routing;
    currency = s.monas.currency;
    amount = negated s.posting.amount;
  }

-- `parsePaymentTx`.
unfoldable pub parse_payment_tx : Transaction → Except NoVoteReason PaymentTx
parse_payment_tx tx = do
  fail_if (not (length tx.postings == 2)) (bare unacceptable_asset)
  l ← place_legs (record { sender = none; recipient = none }) tx.postings
  s ← or_fail l.sender (bare unacceptable_asset)
  r ← or_fail l.recipient (bare unacceptable_asset)
  check_pair s r

abbrev pub monas_of : Text → Asset
monas_of currency = record {
  kind = asset_monas;
  monas = some (record { currency = currency });
  stock = none;
  option = none;
}

abbrev pub posting_of : Text → ℤ → Text → Posting
posting_of account_number amount currency = record {
  account = record { kind = tx_account_account; id = none; num = account_number };
  amount = amount;
  asset = monas_of currency;
}

-- `BuildPaymentTx`.
unfoldable pub build_payment_tx :
    ForeignBankId → Text → Text → Text → ℤ → Text → Text → Text → Transaction
build_payment_tx key sender recipient currency amount message code purpose = record {
  postings =
      posting_of sender (negated amount) currency ∷ posting_of recipient amount currency ∷ [];
  transaction_id = key;
  message = message;
  call_number = [];
  payment_code = code;
  payment_purpose = purpose;
}

unfoldable pub all_monas_accounts : List Posting → Bool
all_monas_accounts [] = true
all_monas_accounts (p ∷ ps) =
    let rest = all_monas_accounts ps in is_account p.account.kind && is_monas p.asset.kind && rest

-- `IsPaymentShape`.
unfoldable pub is_payment_shape : Transaction → Bool
is_payment_shape tx = (length tx.postings == 2) && all_monas_accounts tx.postings
