-- ===== src/InterbankPayment/Paid.antt =====
-- A payment between two banks, end to end (createPayment of exchange-service/internal/handler/
-- interbank_payment_http_handler.go against PaymentTxProcessor of internal/interbank/
-- payment_tx_processor.go).
use exbanka_3_backend.Prelude.{
  ℕ, ◌+◌, ==_refl, ◌≡◌, refl, sym, ap, ◌∙◌, true, none, some, List, ◌∷◌,
}
use exbanka_3_backend.Prelude.Int.{pos, leb_ℤ}
use exbanka_3_backend.Prelude.Text.{Text, text_eq_refl}
use exbanka_3_backend.Prelude.Db.{Transactions, AlwaysCommits}
use exbanka_3_backend.Prelude.Except.{ok}
use exbanka_3_backend.Payment.{Account, update_fields}
use exbanka_3_backend.Payment.Accounts.{UniqueIds}
use exbanka_3_backend.Interbank.Messages.{ForeignBankId, voting_yes}
use exbanka_3_backend.Interbank.Wallet.{taken, spent, owned_by}
use exbanka_3_backend.InterbankPayment.Models.{
  is_tx, InterbankPayment, Tables, Error, Env, key_of, get_by_tx_id, update_pending, stamped,
  as_committed,
}
use exbanka_3_backend.InterbankPayment.Wallet.{lock_by_number, credited}
use exbanka_3_backend.InterbankPayment.Receiver.{inbound_row, new_tx_checks, on_new_tx}
use exbanka_3_backend.InterbankPayment.Shape.{build_payment_tx}
use exbanka_3_backend.InterbankPayment.Sender.{Request, Registry, check_request, outbound_row}
use exbanka_3_backend.InterbankPayment.Initiator.{Phase, created, create_payment, new_tx_of}
use exbanka_3_backend.InterbankPayment.Network.{Link, delivered, client_of}
use exbanka_3_backend.InterbankPayment.RoundTrip.{payment_of, checks-build}
use exbanka_3_backend.InterbankPayment.Requests.{Checked, check_request-Checked}
use exbanka_3_backend.InterbankPayment.Recorded.{lock_by_number-found}
use exbanka_3_backend.InterbankPayment.Settles.{
  IsFaultless, prepare-settles, on_new_tx-settles, finalise_commit-settles, on_commit_tx-settles,
  mark_dispatched-settles,
}

-- The tables of the two banks after a payment.
abbrev pub sender_tables : InterbankPayment → ℕ → Tables → Tables
sender_tables row k t = record {
  accounts = update_fields k (spent row.amount) (update_fields k (taken row.amount) t.accounts);
  payments = stamped (key_of row) (update_pending (key_of row) as_committed (row ∷ t.payments));
}

abbrev pub recipient_tables : InterbankPayment → ℕ → Tables → Tables
recipient_tables row k t = record {
  accounts = update_fields k (credited row.amount) t.accounts;
  payments = update_pending (key_of row) as_committed (row ∷ t.payments);
}

get_head :
    (r : InterbankPayment) (rows : List InterbankPayment)
    → get_by_tx_id (key_of r) (r ∷ rows) ≡ some r
unfolding get_by_tx_id is_tx
get_head r rows = rw (==_refl r.tx_routing_number, text_eq_refl r.tx_id) refl

module _ (registry : Registry) (uuid : Text) (given q : Request) (db : Transactions Tables Error)
    (envs : Phase → Env) (link : Link) (t w : Tables) (a b : Account) where
  abbrev key : ForeignBankId
  key = record { routing_number = registry.own_routing; id = uuid }

  abbrev pub sent : InterbankPayment
  sent = outbound_row key (pos link.own_routing) q a.id

  abbrev pub received : InterbankPayment
  received =
      inbound_row link.from (new_tx_of sent)
        (payment_of q.sender_account_number q.recipient_account_number q.currency q.amount
          (pos link.from) (pos link.own_routing))
        b.id

  -- Nothing fails, and every message and answer arrives.
  pub record IsFair : Type 0 where
    pub commits : AlwaysCommits db
    pub partner_commits : AlwaysCommits link.db
    pub faultless : (p : Phase) → IsFaultless (envs p)
    pub partner_faultless : IsFaultless link.env
    pub new_tx : link.new_tx ≡ delivered
    pub commit_tx : link.commit_tx ≡ delivered
    pub same_bank : link.from ≡ registry.own_routing

  checks-pass :
      IsFair
      → Checked registry q (pos link.own_routing)
      → new_tx_checks link.own_routing link.from (new_tx_of sent)
        ≡ ok (
            payment_of q.sender_account_number q.recipient_account_number q.currency q.amount
              (pos link.from)
              (pos link.own_routing))
  unfolding new_tx_of outbound_row
  checks-pass fair c =
      checks-build key q.sender_account_number q.recipient_account_number q.currency q.amount
        q.message q.payment_code q.payment_purpose link.own_routing link.from c.positive
        (c.from_here ∙ ap (λ n. some (pos n)) (sym fair.same_bank)) c.to_partner

  voted :
      IsFair
      → Checked registry q (pos link.own_routing)
      → get_by_tx_id key w.payments ≡ none
      → lock_by_number link.env q.recipient_account_number q.currency w ≡ ok b
      → on_new_tx link.own_routing link.db link.env link.from (new_tx_of sent) w
        ≡ (ok voting_yes, record w { payments = received ∷ w.payments })
  unfolding new_tx_of outbound_row build_payment_tx
  voted fair c fresh there =
      on_new_tx-settles link.db fair.partner_commits link.env fair.partner_faultless w
        link.own_routing link.from (new_tx_of sent) _ b (checks-pass fair c) fresh there

  votes :
      IsFair
      → Checked registry q (pos link.own_routing)
      → get_by_tx_id key w.payments ≡ none
      → lock_by_number link.env q.recipient_account_number q.currency w ≡ ok b
      → (client_of link).send_new_tx (pos link.own_routing) (new_tx_of sent) w
        ≡ (ok voting_yes, record w { payments = received ∷ w.payments })
  unfolding client_of
  votes fair c fresh there =
      rw (==_refl (link.own_routing + 0), fair.new_tx, voted fair c fresh there) refl

  acknowledged :
      IsFair
      → (client_of link).send_commit_tx
          (pos link.own_routing)
          (key_of sent)
          (record w { payments = received ∷ w.payments })
        ≡ (none, recipient_tables received b.id w)
  unfolding client_of outbound_row inbound_row new_tx_of build_payment_tx
  acknowledged fair =
      let w₁ : Tables = record w { payments = received ∷ w.payments } in
      let done =
        on_commit_tx-settles link.db fair.partner_commits link.env fair.partner_faultless w₁ key
          received b.id (get_head received w.payments) refl refl refl in
      rw (==_refl (link.own_routing + 0), fair.commit_tx, done) refl

  -- A payment that is asked for with a valid request, from an account of the client that covers it
  -- and to an account of the partner bank, both active and in its currency, under an id that neither
  -- bank has seen, when no statement and no commit fails and every message arrives: the answer is
  -- 201, the sender's account has paid the amount on the books and what was available, the
  -- recipient's has gained it in both, the row is committed in both banks, and nothing else has
  -- changed but the stamp of the sender's row.
  pub create_payment-pays :
      IsFair
      → UniqueIds t.accounts
      → check_request registry given ≡ ok (q, pos link.own_routing)
      → get_by_tx_id key t.payments ≡ none
      → get_by_tx_id key w.payments ≡ none
      → lock_by_number (envs Phase.preparing) q.sender_account_number q.currency t ≡ ok a
      → owned_by q.client_id a.client_id ≡ true
      → leb_ℤ q.amount a.raspolozivo_stanje ≡ true
      → lock_by_number link.env q.recipient_account_number q.currency w ≡ ok b
      → create_payment (client_of link) db envs registry uuid given t w
        ≡ (created, sender_tables sent a.id t, recipient_tables received b.id w)
  unfolding create_payment outbound_row
  create_payment-pays fair ids checked fresh fresh_there locked own enough there =
      let c = (check_request-Checked registry given q (pos link.own_routing) checked).1 in
      let at =
        lock_by_number-found (envs Phase.preparing) q.sender_account_number q.currency t a ids
          locked in
      let prepared =
        prepare-settles db fair.commits (envs Phase.preparing) (fair.faultless Phase.preparing) t
          key (pos link.own_routing) q a locked at own enough in
      let t₁ : Tables = record {
        accounts = update_fields a.id (taken q.amount) t.accounts;
        payments = sent ∷ t.payments;
      } in
      let paid =
        finalise_commit-settles db fair.commits (envs Phase.finalising)
          (fair.faultless Phase.finalising) t₁ sent sent a.id refl (get_head sent t.payments)
          refl in
      let t₂ : Tables = record {
        accounts = update_fields a.id (spent q.amount) t₁.accounts;
        payments = update_pending key as_committed t₁.payments;
      } in
      let marked =
        mark_dispatched-settles db fair.commits (envs Phase.stamping)
          (fair.faultless Phase.stamping) t₂ sent in
      rw (checked, prepared, votes fair c fresh_there there, paid, acknowledged fair, marked) refl
