-- ===== src/InterbankPayment/Agreement.antt =====
-- The two rows of a payment agree on its commit, over messages that may be lost (createPayment of
-- exchange-service/internal/handler/interbank_payment_http_handler.go against PaymentTxProcessor of
-- internal/interbank/payment_tx_processor.go).
use exbanka_3_backend.Prelude.{
  ◌≡◌, refl, sym, ap, ◌∙◌, Option, none, some, Bool-cases, inl, inr, ◌⊎◌,
}
use exbanka_3_backend.Prelude.Int.{ℤ}
use exbanka_3_backend.Prelude.Text.{Text}
use exbanka_3_backend.Prelude.Db.{Transactions}
use exbanka_3_backend.Prelude.Except.{Except, ok, err}
use exbanka_3_backend.Interbank.Messages.{
  ForeignBankId, Transaction, TransactionVote, same_foreign_bank_id,
}
use exbanka_3_backend.InterbankPayment.Models.{
  inbound, outbound, pending, committed, rolled_back, InterbankPayment, Tables, Error, Env, key_of,
  get_by_tx_id,
}
use exbanka_3_backend.InterbankPayment.Receiver.{on_new_tx, on_rollback_tx}
use exbanka_3_backend.InterbankPayment.Sender.{
  BadRequest, Request, Registry, check_request, prepare, finalise_commit, finalise_failed,
}
use exbanka_3_backend.InterbankPayment.Protocol.{State, begins, resolves_inbound, protocol}
use exbanka_3_backend.InterbankPayment.Views.{view, state_of}
use exbanka_3_backend.InterbankPayment.Refinement.{perform-Follows}
use exbanka_3_backend.InterbankPayment.Sequences.{new_tx, rollback_tx, dispatched}
use exbanka_3_backend.InterbankPayment.Initiator.{
  preparing, finalising, stamping, is_yes, SendError, Phase, Response, mark_if_sent, roll_back_if,
  finalise_transport_failure, commit_if, on_vote, on_prepared, on_checked, create_payment,
  new_tx_of,
}
use exbanka_3_backend.InterbankPayment.Network.{
  Delivery, lost, answer_lost, delivered, Link, deliver_vote, deliver, client_of,
}
use exbanka_3_backend.InterbankPayment.Pending.{
  not_seen, seen, finalise_commit-commits, prepare-begins,
}

-- A transaction that is not seen, or is pending.
abbrev IsOpen : ForeignBankId → Tables → Type 0
IsOpen key w = (view key w.payments ≡ none) ⊎ (view key w.payments ≡ some (inbound, pending))

abbrev IsDone : ForeignBankId → Tables → Type 0
IsDone key w = view key w.payments ≡ some (inbound, committed)

open_not_done : (key : ForeignBankId) (w : Tables) → IsOpen key w → IsDone key w → ⊥
open_not_done key w (inl e) h = let bad = sym e ∙ h in cc
open_not_done key w (inr e) h = let bad = sym e ∙ h in cc

not_rolled_back :
    (s : State)
    → (s ≡ none) ⊎ (s ≡ some (inbound, pending))
    → resolves_inbound rolled_back s ≡ some (inbound, committed)
    → ⊥
not_rolled_back s (inl e) h =
    let bad : not_seen ≡ seen inbound committed = sym (ap (resolves_inbound rolled_back) e) ∙ h in
    cc
not_rolled_back s (inr e) h =
    let bad : seen inbound rolled_back ≡ seen inbound committed =
      sym (ap (resolves_inbound rolled_back) e) ∙ h in
    cc

module _ (l : Link) (key : ForeignBankId) where
  new_tx-IsOpen :
      (tx : Transaction) (w : Tables)
      → view key w.payments ≡ none
      → IsOpen key (on_new_tx l.own_routing l.db l.env l.from tx w).1
  unfolding protocol
  new_tx-IsOpen tx w unseen =
      elim (perform-Follows l.db w l.own_routing l.env (new_tx l.from tx) tt) [
        | inl same ↦ inl (same key ∙ unseen)
        | inr step ↦ elim (Bool-cases (same_foreign_bank_id tx.transaction_id key)) [
          | inl this ↦ inr (step key ∙ rw this (ap (begins inbound) unseen))
          | inr other ↦ inl (step key ∙ rw other unseen)
        ]
      ]

  rollback_tx-open :
      (k : ForeignBankId) (w : Tables)
      → IsOpen key w
      → IsDone key (on_rollback_tx l.db l.env k w).1
      → ⊥
  unfolding protocol
  rollback_tx-open k w o h = elim (perform-Follows l.db w l.own_routing l.env (rollback_tx k) tt) [
    | inl same ↦ open_not_done key w o (sym (same key) ∙ h)
    | inr step ↦ elim (Bool-cases (same_foreign_bank_id k key)) [
      | inl this ↦ not_rolled_back (view key w.payments) o (sym (step key ∙ rw this refl) ∙ h)
      | inr other ↦ open_not_done key w o (sym (step key ∙ rw other refl) ∙ h)
    ]
  ]

  vote-IsOpen :
      (d : Delivery) (tx : Transaction) (w : Tables)
      → view key w.payments ≡ none
      → IsOpen key (deliver_vote d (on_new_tx l.own_routing l.db l.env l.from tx) w).1
  vote-IsOpen lost tx w unseen = inl unseen
  vote-IsOpen answer_lost tx w unseen = new_tx-IsOpen tx w unseen
  vote-IsOpen delivered tx w unseen = new_tx-IsOpen tx w unseen

  rollback-open :
      (d : Delivery) (k : ForeignBankId) (w : Tables)
      → IsOpen key w
      → IsDone key (deliver d (on_rollback_tx l.db l.env k) w).1
      → ⊥
  rollback-open lost k w o h = open_not_done key w o h
  rollback-open answer_lost k w o h = rollback_tx-open k w o h
  rollback-open delivered k w o h = rollback_tx-open k w o h

module _ (l : Link) (db : Transactions Tables Error) (envs : Phase → Env)
    (key : ForeignBankId) where
  mark_if_sent-keeps :
      (row : InterbankPayment) (t : Tables) (r : Option SendError × Tables)
      → (view key (mark_if_sent (client_of l) db envs row t r).1.payments ≡ view key t.payments)
        × ((mark_if_sent (client_of l) db envs row t r).2 ≡ r.1)
  unfolding protocol
  mark_if_sent-keeps row t (some e, w) = (refl, refl)
  mark_if_sent-keeps row t (none, w) =
      elim (perform-Follows db t l.own_routing (envs stamping) (dispatched row) tt) [
        | inl same ↦ (same key, refl)
        | inr step ↦ (step key, refl)
      ]

  abbrev Agrees : Response × Tables × Tables → Type 0
  Agrees r = IsDone key r.2 → view key r.1.payments ≡ some (outbound, committed)

  commit_if-Agrees :
      (partner : ℤ) (row : InterbankPayment) (r : Option Error × Tables) (w : Tables)
      → IsOpen key w
      → (r.0 ≡ none → view key r.1.payments ≡ some (outbound, committed))
      → Agrees (commit_if (client_of l) db envs partner row r w)
  commit_if-Agrees partner row (some e, t) w o done h = absurd (open_not_done key w o h)
  commit_if-Agrees partner row (none, t) w o done h =
      (mark_if_sent-keeps row t ((client_of l).send_commit_tx partner (key_of row) w)).0 ∙ done refl

  roll_back_if-open :
      (partner : ℤ) (row : InterbankPayment) (r : Option Error × Tables) (w : Tables)
      → IsOpen key w
      → IsDone key (roll_back_if (client_of l) db envs partner row r w).1
      → ⊥
  unfolding client_of
  roll_back_if-open partner row (some e, t) w o h = open_not_done key w o h
  roll_back_if-open partner row (none, t) w o h =
      let sent = (client_of l).send_rollback_tx partner (key_of row) w in
      rollback-open l key _ (key_of row) w o
        (ap (λ u. view key u.payments) (sym (mark_if_sent-keeps row t sent).1) ∙ h)

  on_vote-Agrees :
      (partner : ℤ) (row : InterbankPayment) (t : Tables)
      (r : Except SendError TransactionVote × Tables)
      → key_of row ≡ key
      → view key t.payments ≡ some (outbound, pending)
      → IsOpen key r.1
      → Agrees (on_vote (client_of l) db envs partner row t r)
  unfolding finalise_transport_failure
  on_vote-Agrees partner row t (err e, w) this pend o = λ h.
      absurd
        (roll_back_if-open partner row (finalise_failed db (envs finalising) e.text row t) w o h)
  on_vote-Agrees partner row t (ok vote, w) this pend o = elim (Bool-cases (is_yes vote.vote)) [
    | inl agreed ↦ rw agreed (
        commit_if-Agrees partner row (finalise_commit db (envs finalising) row t) w o (λ fine.
          rw (sym this) (finalise_commit-commits (envs finalising) row t (rw this pend) db fine)))
    | inr refused ↦ rw refused (λ h. absurd (open_not_done key w o h))
  ]

  on_prepared-Agrees :
      (partner : ℤ) (r : Except Error InterbankPayment × Tables) (w : Tables)
      → view key w.payments ≡ none
      → ((row : InterbankPayment)
          → r.0 ≡ ok row
          → (key_of row ≡ key) × (view key r.1.payments ≡ some (outbound, pending)))
      → Agrees (on_prepared (client_of l) db envs partner r w)
  unfolding client_of
  on_prepared-Agrees partner (err e, t) w unseen begun =
      λ h. absurd (open_not_done key w (inl unseen) h)
  on_prepared-Agrees partner (ok row, t) w unseen begun =
      let (this, pend) = begun row refl in
      on_vote-Agrees partner row t ((client_of l).send_new_tx partner (new_tx_of row) w) this pend
        (vote-IsOpen l key _ (new_tx_of row) w unseen)

  on_checked-Agrees :
      (r : Except BadRequest (Request × ℤ)) (t w : Tables)
      → get_by_tx_id key t.payments ≡ none
      → view key w.payments ≡ none
      → Agrees (on_checked (client_of l) db envs key r t w)
  on_checked-Agrees (err b) t w fresh unseen = λ h. absurd (open_not_done key w (inl unseen) h)
  on_checked-Agrees (ok (q, partner)) t w fresh unseen =
      on_prepared-Agrees partner (prepare db (envs preparing) key partner q t) w unseen
        (prepare-begins db (envs preparing) key partner q t fresh)

-- Between two banks that have no row for the payment's key, whichever of the messages and answers are
-- lost and whichever statements and commits fail at either bank, when `create_payment` has run and
-- the recipient's row is committed, so is the sender's.
pub create_payment-Agrees :
    (l : Link) (db : Transactions Tables Error) (envs : Phase → Env) (registry : Registry)
    (uuid : Text) (q : Request) (t w : Tables)
    → get_by_tx_id (record { routing_number = registry.own_routing; id = uuid }) t.payments ≡ none
    → get_by_tx_id (record { routing_number = registry.own_routing; id = uuid }) w.payments ≡ none
    → view
        (record { routing_number = registry.own_routing; id = uuid })
        (create_payment (client_of l) db envs registry uuid q t w).2.payments
      ≡ some (inbound, committed)
    → view
        (record { routing_number = registry.own_routing; id = uuid })
        (create_payment (client_of l) db envs registry uuid q t w).1.payments
      ≡ some (outbound, committed)
unfolding create_payment
create_payment-Agrees l db envs registry uuid q t w fresh unseen =
    on_checked-Agrees l db envs (record { routing_number = registry.own_routing; id = uuid })
      (check_request registry q) t w fresh (ap state_of unseen)
