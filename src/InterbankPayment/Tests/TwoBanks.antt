-- ===== src/InterbankPayment/Tests/TwoBanks.antt =====
-- Tests of a payment between two banks, over messages that arrive and that are lost.
use exbanka_3_backend.Prelude.{◌≡◌, refl, none, some, [], ◌∷◌}
use exbanka_3_backend.Prelude.Int.{pos}
use exbanka_3_backend.Prelude.Text.{codes, text_eq, is_space, trim_left, trim_space}
use exbanka_3_backend.Prelude.Except.{ok}
use exbanka_3_backend.Payment.{Account, find_account, find_by_broj_racuna, update_fields}
use exbanka_3_backend.InterbankPayment.Models.{Tables, get_by_tx_id, is_tx}
use exbanka_3_backend.InterbankPayment.Shape.{
  atoi, routing_number_from_account, parse_payment_tx, build_payment_tx, is_payment_shape,
}
use exbanka_3_backend.Interbank.Wallet.{uint_from}
use exbanka_3_backend.Interbank.Acceptance.{check_balanced}
use exbanka_3_backend.Prelude.Int.{◌+ℤ◌, ◌-ℤ◌}
use exbanka_3_backend.Interbank.Wallet.{covers, taken}
use exbanka_3_backend.Interbank.Acceptance.{asset_sums, add_amount, all_zero, asset_group_key}
use exbanka_3_backend.InterbankPayment.Models.{create_tx}
use exbanka_3_backend.InterbankPayment.Wallet.{lock_by_number, reserve}
use exbanka_3_backend.InterbankPayment.Shape.{place_leg, place_legs, check_pair}
use exbanka_3_backend.InterbankPayment.Receiver.{inbound_row, record_body, new_tx_checks, on_new_tx}
use exbanka_3_backend.InterbankPayment.Sender.{
  outbound_row, prepare_body, prepare, finalise_commit_body, finalise_commit,
}
use exbanka_3_backend.InterbankPayment.Views.{view}
use exbanka_3_backend.Prelude.Db.{keeps}
use exbanka_3_backend.InterbankPayment.Sender.{
  Registry, check_request, check_routing, resolve_bank_from_account, to_upper, is_known_currency,
  is_one_of, is_registered,
}
use exbanka_3_backend.InterbankPayment.Initiator.{created, create_payment}
use exbanka_3_backend.InterbankPayment.Network.{Link, delivered, answer_lost, client_of}
use exbanka_3_backend.InterbankPayment.Paid.{
  IsFair, sender_tables, recipient_tables, received, create_payment-pays,
}
use exbanka_3_backend.InterbankPayment.Models.{
  inbound, committed, mark_cas, has_pending, update_pending, as_committed,
}
use exbanka_3_backend.InterbankPayment.Initiator.{new_tx_of}
use exbanka_3_backend.InterbankPayment.Wallet.{debit, change_account, credit, credited}
use exbanka_3_backend.Interbank.Wallet.{spent}
use exbanka_3_backend.InterbankPayment.Receiver.{on_commit_tx, commit_body}
use exbanka_3_backend.InterbankPayment.Agreement.{create_payment-Agrees}
use exbanka_3_backend.InterbankPayment.Models.{outbound}
use exbanka_3_backend.InterbankPayment.Tests.{
  at_111, at_222, key, alice, bank_111, bank_111-IsKept, request, db, no_faults, paid,
}

-- Bank 222, which is to be paid.
abbrev bob : Account
bob = record alice { id = 4; broj_racuna = at_222; client_id = some 9 }

abbrev bank_222 : Tables
bank_222 = record { accounts = bob ∷ []; payments = [] }

abbrev registry : Registry
registry = record { own_routing = 111; by_code = pos 222 ∷ [] }

abbrev link : Link
link = record {
  own_routing = 222;
  from = 111;
  db = db;
  env = no_faults;
  new_tx = delivered;
  commit_tx = delivered;
  rollback_tx = delivered;
}

fair :
    IsFair registry
      (codes "p-1")
      request
      request
      db
      (λ p. no_faults)
      link
      bank_111
      bank_222
      alice
      bob
fair = record {
  commits = λ body s h. keeps (body s) s h;
  partner_commits = λ body s h. keeps (body s) s h;
  faultless = λ p s. refl;
  partner_faultless = λ s. refl;
  new_tx = refl;
  commit_tx = refl;
  same_bank = refl;
}

request-checked : check_request registry request ≡ ok (request, pos 222)
unfolding check_request check_routing resolve_bank_from_account routing_number_from_account
    trim_space trim_left is_space atoi uint_from to_upper is_known_currency is_one_of is_registered
    text_eq
request-checked = refl

found_at_111 : lock_by_number no_faults at_111 (codes "RSD") bank_111 ≡ ok alice
unfolding lock_by_number find_by_broj_racuna text_eq
found_at_111 = refl

found_at_222 : lock_by_number no_faults at_222 (codes "RSD") bank_222 ≡ ok bob
unfolding lock_by_number find_by_broj_racuna text_eq
found_at_222 = refl

no_row : get_by_tx_id key [] ≡ none
unfolding get_by_tx_id
no_row = refl

create_payment-pays_example :
    create_payment
      (client_of link)
      db
      (λ p. no_faults)
      registry
      (codes "p-1")
      request
      bank_111
      bank_222
    ≡ (
      created,
      sender_tables paid 1 bank_111,
      recipient_tables
          (received registry
            (codes "p-1")
            request
            request
            db
            (λ p. no_faults)
            link
            bank_111
            bank_222
            alice
            bob)
          4
          bank_222,
    )
create_payment-pays_example =
    create_payment-pays registry (codes "p-1") request request db (λ p. no_faults) link bank_111
      bank_222 alice bob fair bank_111-IsKept.0 request-checked no_row no_row found_at_111 refl refl
      found_at_222

-- The partner's answer to COMMIT_TX does not arrive.
abbrev quiet_link : Link
quiet_link = record link { commit_tx = answer_lost }

committed_there :
    view key
      (create_payment
        (client_of quiet_link)
        db
        (λ p. no_faults)
        registry
        (codes "p-1")
        request
        bank_111
        bank_222).2.payments
    ≡ some (inbound, committed)
unfolding create_payment check_request check_routing resolve_bank_from_account
    routing_number_from_account trim_space trim_left is_space atoi uint_from to_upper
    is_known_currency is_one_of is_registered text_eq prepare prepare_body lock_by_number
    find_by_broj_racuna reserve create_tx covers find_account update_fields taken outbound_row
    client_of on_new_tx new_tx_checks record_body build_payment_tx new_tx_of parse_payment_tx
    is_payment_shape place_leg place_legs check_pair check_balanced asset_sums add_amount all_zero
    asset_group_key inbound_row get_by_tx_id is_tx finalise_commit finalise_commit_body mark_cas
    has_pending update_pending as_committed debit change_account spent on_commit_tx commit_body
    credit credited ◌+ℤ◌ ◌-ℤ◌
committed_there = refl

create_payment-Agrees_example :
    view key
      (create_payment
        (client_of quiet_link)
        db
        (λ p. no_faults)
        registry
        (codes "p-1")
        request
        bank_111
        bank_222).1.payments
    ≡ some (outbound, committed)
create_payment-Agrees_example =
    create_payment-Agrees quiet_link db (λ p. no_faults) registry (codes "p-1") request bank_111
      bank_222 no_row no_row committed_there
