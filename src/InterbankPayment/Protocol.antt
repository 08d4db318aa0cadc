-- ===== src/InterbankPayment/Protocol.antt =====
-- The payment protocol as its state machine says it (the comment on InterbankPayment in
-- exchange-service/internal/models/interbank.go): for each transaction, its direction and status.
use exbanka_3_backend.Prelude.{Option, none, some, List, [], ◌∷◌, if◌then◌else◌}
use exbanka_3_backend.Interbank.Messages.{ForeignBankId, same_foreign_bank_id}
use exbanka_3_backend.InterbankPayment.Models.{
  PaymentDirection, inbound, outbound, PaymentStatus, pending, committed, rolled_back, rejected,
  failed, key_of,
}
use exbanka_3_backend.InterbankPayment.Sequences.{
  Operation, new_tx, commit_tx, rollback_tx, prepares, commits, dispatched, rejects, fails,
}

abbrev pub State : Type 0
State = Option (PaymentDirection × PaymentStatus)

-- A transaction begins once, as pending.
abbrev pub begins : PaymentDirection → State → State
begins d none = some (d, pending)
begins d (some s) = some s

-- Only a pending one is resolved, and a partner resolves only an inbound one.
abbrev pub resolves : PaymentStatus → State → State
resolves new (some (d, pending)) = some (d, new)
resolves new s = s

abbrev pub resolves_inbound : PaymentStatus → State → State
resolves_inbound new (some (inbound, pending)) = some (inbound, new)
resolves_inbound new s = s

-- What an operation that takes effect makes of the state of one transaction.
unfoldable pub protocol : Operation → ForeignBankId → State → State
protocol (new_tx partner tx) key s =
    if same_foreign_bank_id tx.transaction_id key then begins inbound s else s
protocol (commit_tx k) key s =
    if same_foreign_bank_id k key then resolves_inbound committed s else s
protocol (rollback_tx k) key s =
    if same_foreign_bank_id k key then resolves_inbound rolled_back s else s
protocol (prepares k partner q) key s = if same_foreign_bank_id k key then begins outbound s else s
protocol (commits row) key s =
    if same_foreign_bank_id (key_of row) key then resolves committed s else s
protocol (dispatched row) key s = s
protocol (rejects reason row) key s =
    if same_foreign_bank_id (key_of row) key then resolves rejected s else s
protocol (fails reason row) key s =
    if same_foreign_bank_id (key_of row) key then resolves failed s else s

-- A run of the protocol, the first operation first.
unfoldable pub run_protocol : List Operation → ForeignBankId → State → State
run_protocol [] key s = s
run_protocol (op ∷ ops) key s = run_protocol ops key (protocol op key s)
