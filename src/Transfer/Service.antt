-- ===== src/Transfer/Service.antt =====
-- The requests of transfer-service (internal/service/transfer_service.go) outside the settlement.
use exbanka_3_backend.Prelude.{
  ℕ, ◌+◌, ◌-◌, ◌*◌, ◌/◌, ◌==◌, Bool, true, false, not, Option, ◌∷◌, if◌then◌else◌,
}
use exbanka_3_backend.Prelude.Int.{ℤ, pos, ◌+ℤ◌, ltb_ℤ, leb_ℤ, pos_part}
use exbanka_3_backend.Prelude.Text.{Text, codes, text_eq}
use exbanka_3_backend.Prelude.Db.{Transactions}
use exbanka_3_backend.Prelude.Except.{Except, ok, err, ◌>>=◌, ◌>>◌, fail_if, or_fail, read}
use exbanka_3_backend.Payment.{Account}
use exbanka_3_backend.Transfer.Types.{
  u_obradi, uspesno, stornirano, Transfer, Tables, Stmt, Code, Error, Env, CreateTransferInput,
  TransferPreview,
}
use exbanka_3_backend.Transfer.Repository.{Pluck, find_by_id_for_update, find_transfer}
use exbanka_3_backend.Transfer.Settlement.{
  is_pending, same_owner, commission_in_rsd, settle_transfer, cancel_transfer,
}

-- `GetSellRate`, in millionths.
abbrev pub Rates : Type 0
Rates = Text → Text → Option ℕ

-- `math.Round(x*0.5) / 100` of a positive amount in hundredths.
unfoldable pub commission : ℕ → ℕ
commission h = (h + 100) / 200

abbrev pub is_rsd : Account → Bool
is_rsd a = text_eq a.currency_kod (codes "RSD")

-- The amount in RSD before it is rounded, in units of 1e-8.
unfoldable pub rsd_amount : Rates → Account → ℕ → Except Error ℕ
rsd_amount rates sender h =
    if is_rsd sender
    then ok (h * 1000000)
    else (or_fail (rates sender.currency_kod (codes "RSD")) Error.no_rate >>= λ n. ok (h * n))

-- What the receiver gets, and the amount in RSD that a second commission is charged on.
unfoldable pub converted : Rates → Account → ℕ → Except Error (ℕ × ℕ)
converted rates receiver u =
    if is_rsd receiver
    then ok ((u + 500000) / 1000000, 0)
    else (or_fail (rates (codes "RSD") receiver.currency_kod) Error.no_rate >>= λ n.
        ok (((u - commission_in_rsd u * 1000000) * n + 500000000000) / 1000000000000, u))

abbrev pub preview_within : Account → ℤ → TransferPreview
preview_within sender iznos = record {
  valuta_iznosa = sender.currency_kod;
  konvertovani_iznos = iznos;
  iznos_rsd = 0;
  provizija = pos 0;
}

unfoldable pub preview_across : Rates → Account → Account → ℤ → Except Error TransferPreview
preview_across rates sender receiver iznos = do
  u ← rsd_amount rates sender (pos_part iznos)
  (konvertovani, iznos_rsd) ← converted rates receiver u
  let provizija = pos (commission (pos_part iznos))
  fail_if (ltb_ℤ sender.raspolozivo_stanje (iznos +ℤ provizija)) Error.balance_too_low
  ok record {
    valuta_iznosa = sender.currency_kod;
    konvertovani_iznos = pos konvertovani;
    iznos_rsd = iznos_rsd;
    provizija = provizija;
  }

unfoldable pub preview_of : Rates → Account → Account → ℤ → Except Error TransferPreview
preview_of rates sender receiver iznos =
    if sender.currency_id == receiver.currency_id
    then ok (preview_within sender iznos)
    else preview_across rates sender receiver iznos

-- `prepareTransfer`.
unfoldable pub prepare_transfer :
    Rates → Env → CreateTransferInput → Tables → Except Error TransferPreview
prepare_transfer rates env input t = do
  fail_if (leb_ℤ input.iznos (pos 0)) Error.amount_not_positive
  fail_if (input.racun_posiljaoca_id == input.racun_primaoca_id) Error.same_account
  sender ← find_by_id_for_update env Stmt.load_account input.racun_posiljaoca_id t
  receiver ← find_by_id_for_update env Stmt.load_account input.racun_primaoca_id t
  fail_if (not (same_owner sender.client_id receiver.client_id)) Error.not_the_same_client
  fail_if (ltb_ℤ sender.raspolozivo_stanje input.iznos) Error.balance_too_low
  fail_if (ltb_ℤ sender.dnevni_limit input.iznos) Error.over_daily_limit
  fail_if (ltb_ℤ sender.dnevni_limit (sender.dnevna_potrosnja +ℤ input.iznos))
      Error.over_daily_limit
  fail_if (ltb_ℤ sender.mesecni_limit (sender.mesecna_potrosnja +ℤ input.iznos))
      Error.over_monthly_limit
  preview_of rates sender receiver input.iznos

-- The row of a new transfer, under the id that the database gives it.
unfoldable pub transfer_row : ℕ → CreateTransferInput → TransferPreview → Transfer
transfer_row id input preview = record {
  id = id;
  racun_posiljaoca_id = input.racun_posiljaoca_id;
  racun_primaoca_id = input.racun_primaoca_id;
  iznos = input.iznos;
  valuta_iznosa = preview.valuta_iznosa;
  konvertovani_iznos = preview.konvertovani_iznos;
  iznos_rsd = preview.iznos_rsd;
  provizija = preview.provizija;
  status = u_obradi;
}

abbrev pub save_new : Env → Transfer → Tables → Except Error Transfer × Tables
save_new env r t =
    if env.fails Stmt.create_transfer
    then (err (Error.database Stmt.create_transfer), t)
    else (ok r, record t { transfers = r ∷ t.transfers })

abbrev pub create_prepared :
    Env
    → ℕ
    → CreateTransferInput
    → Except Error TransferPreview
    → Tables
    → Except Error Transfer × Tables
create_prepared env id input (err e) t = (err e, t)
create_prepared env id input (ok preview) t = save_new env (transfer_row id input preview) t

-- `CreateTransfer`.
unfoldable pub create_transfer :
    Rates → Env → ℕ → CreateTransferInput → Tables → Except Error Transfer × Tables
create_transfer rates env id input t =
    create_prepared env id input (prepare_transfer rates env input t) t

module _ (gorm : Pluck) (db : Transactions Tables Error) where
  abbrev pub settle_created : Env → Except Error Transfer × Tables → Except Error Transfer × Tables
  settle_created env (err e, t) = (err e, t)
  settle_created env (ok r, t) = settle_transfer gorm db env r t

  -- `CreateAndSettleTransfer`.
  unfoldable pub create_and_settle_transfer :
      Rates → Env → ℕ → CreateTransferInput → Tables → Except Error Transfer × Tables
  create_and_settle_transfer rates env id input t =
      settle_created env (create_transfer rates env id input t)

  -- `pendingTransferForMobile`.
  unfoldable pub pending_transfer_for_mobile : Env → ℕ → Tables → Except Error Transfer
  pending_transfer_for_mobile env k t = do
    r ←
        read (env.fails Stmt.load_transfer) (find_transfer k t.transfers)
          (Error.database Stmt.load_transfer)
    fail_if (not (is_pending r.status)) (Error.verification Code.transfer_not_pending r.status)
    ok r

  -- The second read of `ApproveTransferMobile`, of a transfer that is completed; if it fails the first
  -- error stands.
  abbrev pub settled_already : Env → ℕ → Tables → Error → Except Error Transfer
  settled_already env k t (Error.verification Code.transfer_not_pending uspesno) =
      elim (read (env.fails Stmt.load_transfer) (find_transfer k t.transfers)
        (Error.verification Code.transfer_not_pending uspesno)) [ ok r ↦ ok r | err e ↦ err e ]
  settled_already env k t e = err e

  abbrev pub approve_pending :
      Env → ℕ → Bool → Except Error Transfer → Tables → Except Error Transfer × Tables
  approve_pending env k confirms (err e) t = (settled_already env k t e, t)
  approve_pending env k true (ok r) t = settle_transfer gorm db env r t
  approve_pending env k false (ok r) t = (ok r, t)

  -- `ApproveTransferMobile`; `confirms` is whether the mode is "confirm", however it is written.
  unfoldable pub approve_transfer_mobile : Env → ℕ → Bool → Tables → Except Error Transfer × Tables
  approve_transfer_mobile env k confirms t =
      approve_pending env k confirms (pending_transfer_for_mobile env k t) t

  abbrev pub reject_pending : Env → Except Error Transfer → Tables → Except Error Transfer × Tables
  reject_pending env (err e) t = (err e, t)
  reject_pending env (ok r) t = (ok (record r { status = stornirano }), cancel_transfer env r t)

  -- `RejectTransfer`.
  unfoldable pub reject_transfer : Env → ℕ → Tables → Except Error Transfer × Tables
  reject_transfer env k t = reject_pending env (pending_transfer_for_mobile env k t) t
