-- ===== src/InterbankPayment/Settles.antt =====
-- What each transaction of a payment does when no statement and no commit fails (exchange-service/
-- internal/interbank/payment_tx_processor.go, internal/handler/interbank_payment_http_handler.go).
use exbanka_3_backend.Prelude.{
  ℕ, ◌≡◌, refl, ap, ◌∙◌, true, false, Option, none, some, List, [], ◌∷◌, arith,
}
use exbanka_3_backend.Prelude.Int.{ℤ, leb_ℤ}
use exbanka_3_backend.Prelude.Db.{Transactions, AlwaysCommits}
use exbanka_3_backend.Prelude.Except.{ok}
use exbanka_3_backend.Payment.{Account, find_account, update_fields}
use exbanka_3_backend.Interbank.Messages.{ForeignBankId, Transaction, voting_yes}
use exbanka_3_backend.Interbank.Wallet.{covers, taken, spent, owned_by}
use exbanka_3_backend.InterbankPayment.Models.{
  inbound, pending, InterbankPayment, Tables, Stmt, Error, Env, is_pending, key_of, get_by_tx_id,
  update_pending, has_pending, stamped, create_tx, is_inbound, as_committed, mark_cas,
  mark_partner_finalised,
}
use exbanka_3_backend.InterbankPayment.Wallet.{
  lock_by_number, change_account, reserve, debit, credit, credited,
}
use exbanka_3_backend.InterbankPayment.Shape.{PaymentTx}
use exbanka_3_backend.InterbankPayment.Receiver.{
  inbound_row, record_body, commit_body, tolerant, credit_at, commit_status, new_tx_checks,
  on_new_tx, on_commit_tx,
}
use exbanka_3_backend.InterbankPayment.Sender.{
  at_account, Request, outbound_row, prepare_body, prepare, finalise_commit_body, finalise_commit,
  mark_dispatched,
}

abbrev pub IsFaultless : Env → Type 0
IsFaultless env = (s : Stmt) → env.fails s ≡ false

covers-true :
    (k : ℕ) (x : ℤ) (rows : List Account) (a : Account)
    → find_account k rows ≡ some a
    → leb_ℤ x a.raspolozivo_stanje ≡ true
    → covers k x rows ≡ true
unfolding covers find_account
covers-true k x [] a h enough = cc
covers-true k x (b ∷ rows) a h enough = ground (arith, covers-true k x rows a)

pub has_pending-true :
    (key : ForeignBankId) (rows : List InterbankPayment) (p : InterbankPayment)
    → get_by_tx_id key rows ≡ some p
    → is_pending p.status ≡ true
    → has_pending key rows ≡ true
unfolding has_pending get_by_tx_id
has_pending-true key [] p h pend = cc
has_pending-true key (r ∷ rows) p h pend = ground (arith, has_pending-true key rows p)

module _ (db : Transactions Tables Error) (all : AlwaysCommits db) (env : Env)
    (go : IsFaultless env) (t : Tables) where
  goes_through :
      (body : Tables → Option Error × Tables) (t' : Tables)
      → body t ≡ (none, t')
      → db.transaction body t ≡ (none, t')
  goes_through body t' e = all body t (ap (λ r. r.0) e) ∙ ap (λ r. (none, r.1)) e

  prepare_body-settles :
      (key : ForeignBankId) (partner : ℤ) (q : Request) (a : Account)
      → lock_by_number env q.sender_account_number q.currency t ≡ ok a
      → find_account a.id t.accounts ≡ some a
      → owned_by q.client_id a.client_id ≡ true
      → leb_ℤ q.amount a.raspolozivo_stanje ≡ true
      → prepare_body env key partner q t ≡ (
        none,
        record {
          accounts = update_fields a.id (taken q.amount) t.accounts;
          payments = outbound_row key partner q a.id ∷ t.payments;
        },
      )
  unfolding prepare_body reserve create_tx
  prepare_body-settles key partner q a locked found own enough =
      rw
        (
          locked,
          own,
          go Stmt.reserve_funds,
          covers-true a.id q.amount t.accounts a found enough,
          go Stmt.create_payment,
        )
        refl

  pub prepare-settles :
      (key : ForeignBankId) (partner : ℤ) (q : Request) (a : Account)
      → lock_by_number env q.sender_account_number q.currency t ≡ ok a
      → find_account a.id t.accounts ≡ some a
      → owned_by q.client_id a.client_id ≡ true
      → leb_ℤ q.amount a.raspolozivo_stanje ≡ true
      → prepare db env key partner q t ≡ (
        ok (outbound_row key partner q a.id),
        record {
          accounts = update_fields a.id (taken q.amount) t.accounts;
          payments = outbound_row key partner q a.id ∷ t.payments;
        },
      )
  unfolding prepare
  prepare-settles key partner q a locked found own enough =
      rw
        (
          locked,
          goes_through (prepare_body env key partner q) _
              (prepare_body-settles key partner q a locked found own enough),
        )
        refl

  record_body-settles :
      (own_routing partner : ℕ) (tx : Transaction) (parsed : PaymentTx) (b : Account)
      → new_tx_checks own_routing partner tx ≡ ok parsed
      → get_by_tx_id tx.transaction_id t.payments ≡ none
      → lock_by_number env parsed.recipient_account parsed.currency t ≡ ok b
      → record_body env partner tx parsed t
        ≡ (none, record t { payments = inbound_row partner tx parsed b.id ∷ t.payments })
  unfolding record_body create_tx
  record_body-settles own_routing partner tx parsed b checked fresh locked =
      rw (locked, go Stmt.create_payment) refl

  pub on_new_tx-settles :
      (own_routing partner : ℕ) (tx : Transaction) (parsed : PaymentTx) (b : Account)
      → new_tx_checks own_routing partner tx ≡ ok parsed
      → get_by_tx_id tx.transaction_id t.payments ≡ none
      → lock_by_number env parsed.recipient_account parsed.currency t ≡ ok b
      → on_new_tx own_routing db env partner tx t
        ≡ (ok voting_yes, record t { payments = inbound_row partner tx parsed b.id ∷ t.payments })
  unfolding on_new_tx
  on_new_tx-settles own_routing partner tx parsed b checked fresh locked =
      rw
        (
          checked,
          go Stmt.load_payment,
          fresh,
          goes_through (record_body env partner tx parsed) _
              (record_body-settles own_routing partner tx parsed b checked fresh locked),
        )
        refl

  finalise_commit_body-settles :
      (row p : InterbankPayment) (k : ℕ)
      → row.local_account_id ≡ some k
      → get_by_tx_id (key_of row) t.payments ≡ some p
      → is_pending p.status ≡ true
      → finalise_commit_body env row k t ≡ (
        none,
        record {
          accounts = update_fields k (spent row.amount) t.accounts;
          payments = update_pending (key_of row) as_committed t.payments;
        },
      )
  unfolding finalise_commit_body mark_cas debit change_account
  finalise_commit_body-settles row p k at found pend =
      rw
        (
          go Stmt.mark_payment,
          go Stmt.debit_funds,
          has_pending-true (key_of row) t.payments p found pend,
        )
        refl

  pub finalise_commit-settles :
      (row p : InterbankPayment) (k : ℕ)
      → row.local_account_id ≡ some k
      → get_by_tx_id (key_of row) t.payments ≡ some p
      → is_pending p.status ≡ true
      → finalise_commit db env row t ≡ (
        none,
        record {
          accounts = update_fields k (spent row.amount) t.accounts;
          payments = update_pending (key_of row) as_committed t.payments;
        },
      )
  unfolding finalise_commit
  finalise_commit-settles row p k at found pend =
      ap (λ o. at_account o (λ j. db.transaction (finalise_commit_body env row j)) t) at
      ∙ goes_through (finalise_commit_body env row k) _
          (finalise_commit_body-settles row p k at found pend)

  commit_body-settles :
      (key : ForeignBankId) (p : InterbankPayment) (k : ℕ)
      → get_by_tx_id key t.payments ≡ some p
      → p.direction ≡ inbound
      → p.status ≡ pending
      → p.local_account_id ≡ some k
      → commit_body env key k p t ≡ (
        none,
        record {
          accounts = update_fields k (credited p.amount) t.accounts;
          payments = update_pending key as_committed t.payments;
        },
      )
  unfolding commit_body mark_cas credit change_account
  commit_body-settles key p k found inward pend at =
      rw
        (
          go Stmt.mark_payment,
          go Stmt.credit_funds,
          has_pending-true key t.payments p found (ap is_pending pend),
        )
        refl

  pub on_commit_tx-settles :
      (key : ForeignBankId) (p : InterbankPayment) (k : ℕ)
      → get_by_tx_id key t.payments ≡ some p
      → p.direction ≡ inbound
      → p.status ≡ pending
      → p.local_account_id ≡ some k
      → on_commit_tx db env key t ≡ (
        none,
        record {
          accounts = update_fields k (credited p.amount) t.accounts;
          payments = update_pending key as_committed t.payments;
        },
      )
  unfolding on_commit_tx
  on_commit_tx-settles key p k found inward pend at =
      rw (go Stmt.load_payment, found, ap is_inbound inward)
        (ap (λ s. commit_status db env key p s t) pend
          ∙ ap (λ o. credit_at db env key p o t) at
          ∙ ap tolerant (
              goes_through (commit_body env key k p) _
                (commit_body-settles key p k found inward pend at)))

  mark_partner_finalised-settles :
      (row : InterbankPayment)
      → mark_partner_finalised env (key_of row) t
        ≡ (none, record t { payments = stamped (key_of row) t.payments })
  unfolding mark_partner_finalised
  mark_partner_finalised-settles row = rw (go Stmt.stamp_payment) refl

  pub mark_dispatched-settles :
      (row : InterbankPayment)
      → mark_dispatched db env row t
        ≡ (none, record t { payments = stamped (key_of row) t.payments })
  unfolding mark_dispatched
  mark_dispatched-settles row =
      goes_through (mark_partner_finalised env (key_of row)) _ (mark_partner_finalised-settles row)
