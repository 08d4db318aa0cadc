-- ===== src/InterbankPayment/Tests.antt =====
-- Tests of the payments between banks, and the properties at concrete inputs.
use exbanka_3_backend.Prelude.{◌≡◌, refl, none, some, List, [], ◌∷◌, arith, Bool, true, false}
use exbanka_3_backend.Prelude.Int.{pos}
use exbanka_3_backend.Prelude.Text.{Text, codes, text_eq, is_space, trim_left, trim_space}
use exbanka_3_backend.Prelude.Db.{Transactions, reliable}
use exbanka_3_backend.Prelude.Except.{ok}
use exbanka_3_backend.Payment.{Account, find_account, find_by_broj_racuna, update_fields}
use exbanka_3_backend.Interbank.Messages.{ForeignBankId, Transaction}
use exbanka_3_backend.InterbankPayment.Models.{
  Tables, Error, Env, InterbankPayment, get_by_tx_id, is_tx,
}
use exbanka_3_backend.InterbankPayment.Shape.{
  atoi, routing_number_from_account, parse_payment_tx, build_payment_tx, is_payment_shape,
}
use exbanka_3_backend.Interbank.Wallet.{uint_from}
use exbanka_3_backend.Interbank.Acceptance.{check_balanced}
use exbanka_3_backend.InterbankPayment.RoundTrip.{parse-build, payment_of}
use exbanka_3_backend.Prelude.Int.{◌+ℤ◌, ◌-ℤ◌}
use exbanka_3_backend.Interbank.Wallet.{covers, taken}
use exbanka_3_backend.Interbank.Acceptance.{asset_sums, add_amount, all_zero, asset_group_key}
use exbanka_3_backend.InterbankPayment.Models.{create_tx}
use exbanka_3_backend.InterbankPayment.Wallet.{lock_by_number, reserve}
use exbanka_3_backend.InterbankPayment.Shape.{place_leg, place_legs, check_pair}
use exbanka_3_backend.InterbankPayment.Receiver.{inbound_row, record_body, new_tx_checks, on_new_tx}
use exbanka_3_backend.InterbankPayment.Sender.{
  Request, outbound_row, prepare_body, prepare, finalise_commit_body, finalise_commit,
}
use exbanka_3_backend.InterbankPayment.Keeps.{IsKept, Keeps}
use exbanka_3_backend.InterbankPayment.Sequences.{
  Operation, new_tx, commit_tx, prepares, commits, CanRunAll, InMemory, perform_all,
  perform_all-Keeps,
}
use exbanka_3_backend.InterbankPayment.Protocol.{run_protocol}
use exbanka_3_backend.InterbankPayment.Views.{view}
use exbanka_3_backend.InterbankPayment.Refinement.{picked, perform_all-refines}
use exbanka_3_backend.Prelude.Db.{keeps}
use exbanka_3_backend.InterbankPayment.Sender.{
  Registry, check_request, check_routing, resolve_bank_from_account, to_upper, is_known_currency,
  is_one_of, is_registered,
}
use exbanka_3_backend.InterbankPayment.Initiator.{created, create_payment}
use exbanka_3_backend.InterbankPayment.Network.{Link, delivered, answer_lost, client_of}
use exbanka_3_backend.InterbankPayment.Paid.{
  IsFair, sender_tables, recipient_tables, received, create_payment-pays,
}
use exbanka_3_backend.InterbankPayment.Models.{
  inbound, committed, mark_cas, has_pending, update_pending, as_committed,
}
use exbanka_3_backend.InterbankPayment.Initiator.{new_tx_of}
use exbanka_3_backend.InterbankPayment.Wallet.{debit, change_account, credit, credited}
use exbanka_3_backend.Interbank.Wallet.{spent}
use exbanka_3_backend.InterbankPayment.Receiver.{on_commit_tx, commit_body}
mod TwoBanks

abbrev at_111 : Text
at_111 = codes "111000000000000111"

abbrev at_222 : Text
at_222 = codes "222000000000000222"

abbrev key : ForeignBankId
key = record { routing_number = 111; id = codes "p-1" }

routing_111 : routing_number_from_account at_111 ≡ some (pos 111)
unfolding routing_number_from_account trim_space trim_left is_space atoi uint_from
routing_111 = refl

routing_222 : routing_number_from_account at_222 ≡ some (pos 222)
unfolding routing_number_from_account trim_space trim_left is_space atoi uint_from
routing_222 = refl

abbrev the_tx : Transaction
the_tx = build_payment_tx key at_111 at_222 (codes "RSD") (pos 500) (codes "rent") [] []

parse-build_example :
    (is_payment_shape the_tx ≡ true)
    × (check_balanced the_tx ≡ none)
    × (parse_payment_tx the_tx
        ≡ ok (payment_of at_111 at_222 (codes "RSD") (pos 500) (pos 111) (pos 222)))
parse-build_example =
    parse-build key at_111 at_222 (codes "RSD") (pos 500) (codes "rent") [] [] (pos 111) (pos 222)
      (omega arith) routing_111 routing_222

-- Bank 111 pays 500 to bank 222, which commits, and is paid 500 by it.
abbrev alice : Account
alice = record {
  id = 1;
  broj_racuna = at_111;
  client_id = some 7;
  currency_id = 1;
  currency_kod = codes "RSD";
  raspolozivo_stanje = pos 800;
  stanje = pos 1000;
  dnevni_limit = pos 0;
  mesecni_limit = pos 0;
  dnevna_potrosnja = pos 0;
  mesecna_potrosnja = pos 0;
  status = codes "aktivan";
}

abbrev bank_111 : Tables
bank_111 = record { accounts = alice ∷ []; payments = [] }

abbrev no_faults : Env
no_faults = record { fails = λ s. false }

abbrev db : Transactions Tables Error
db = reliable (Error.connection 1)

abbrev request : Request
request = record {
  token_source = codes "client";
  client_id = 7;
  sender_account_number = at_111;
  recipient_account_number = at_222;
  currency = codes "RSD";
  amount = pos 500;
  message = codes "rent";
  payment_code = [];
  payment_purpose = [];
}

abbrev paid : InterbankPayment
paid = outbound_row key (pos 222) request 1

abbrev refund_key : ForeignBankId
refund_key = record { routing_number = 222; id = codes "p-2" }

abbrev refund_tx : Transaction
refund_tx = build_payment_tx refund_key at_222 at_111 (codes "RSD") (pos 500) (codes "back") [] []

abbrev paying : List (Env × Operation)
paying = (no_faults, prepares key (pos 222) request) ∷ (no_faults, new_tx 222 refund_tx) ∷ []

abbrev ops : List (Env × Operation)
ops =
    (no_faults, prepares key (pos 222) request)
    ∷ (no_faults, new_tx 222 refund_tx)
    ∷ (no_faults, commits paid)
    ∷ (no_faults, commit_tx refund_key)
    ∷ []

bank_111-IsKept : IsKept bank_111
unfolding find_account
bank_111-IsKept = ((refl, tt), tt, tt)

ops-CanRunAll : CanRunAll 111 db ops bank_111
unfolding perform_all get_by_tx_id prepare prepare_body lock_by_number find_by_broj_racuna text_eq
    reserve covers taken update_fields create_tx outbound_row on_new_tx new_tx_checks check_balanced
    build_payment_tx parse_payment_tx place_legs place_leg check_pair routing_number_from_account
    trim_space trim_left is_space atoi uint_from ◌-ℤ◌ ◌+ℤ◌ is_tx asset_sums add_amount all_zero
    asset_group_key record_body inbound_row finalise_commit finalise_commit_body
ops-CanRunAll =
    let here : InMemory paid (perform_all 111 db paying bank_111) = record {
      row = paid;
      found = refl;
      same_direction = refl;
      same_amount = refl;
      same_account = refl;
    } in
    (refl, (tt, (here, (tt, tt))))

perform_all-Keeps_example : Keeps bank_111 (perform_all 111 db ops bank_111)
perform_all-Keeps_example = perform_all-Keeps 111 db ops bank_111 bank_111-IsKept ops-CanRunAll

perform_all-refines_example :
    (marks : List Bool) × ((k : ForeignBankId)
      → view k (perform_all 111 db ops bank_111).payments
        ≡ run_protocol (picked marks ops) k (view k bank_111.payments))
perform_all-refines_example = perform_all-refines 111 db ops bank_111 ops-CanRunAll
