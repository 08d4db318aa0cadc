-- ===== src/Transfer/Settlement.antt =====
-- The transactional settlement of a transfer (settleTransfer of transfer-service/internal/service/
-- transfer_service.go). Each write sets the fields from the row that was read, as the code does.
use exbanka_3_backend.Prelude.{
  ℕ, ◌+◌, ◌/◌, ◌==◌, ltb, Bool, true, false, not, ◌||◌, Option, none, some, if◌then◌else◌,
}
use exbanka_3_backend.Prelude.Int.{ℤ, pos, ◌+ℤ◌, ◌-ℤ◌, ltb_ℤ}
use exbanka_3_backend.Prelude.Text.{Text, codes}
use exbanka_3_backend.Prelude.Db.{Transactions, ◌>>>◌}
use exbanka_3_backend.Prelude.Except.{Except, ok, err, ◌>>=◌, ◌>>◌, fail_if, read}
use exbanka_3_backend.Payment.{Account}
use exbanka_3_backend.Transfer.Types.{
  TransferStatus, u_obradi, uspesno, stornirano, Transfer, Tables, Stmt, Code, Error, Env,
}
use exbanka_3_backend.Transfer.Repository.{
  Pluck, find_by_id_for_update, find_bank_account, update_fields_tx, find_transfer, update_transfer,
}

abbrev pub is_pending : TransferStatus → Bool
is_pending u_obradi = true
is_pending _ = false

abbrev pub same_owner : Option ℕ → Option ℕ → Bool
same_owner none b = false
same_owner (some n) none = false
same_owner (some n) (some m) = n == m

-- `ukupnoZaSkidanje`.
abbrev pub to_deduct : Transfer → ℤ
to_deduct r = r.iznos +ℤ r.provizija

-- `math.Round(IznosRSD*0.5) / 100`, in hundredths, of an amount in units of 1e-8.
unfoldable pub commission_in_rsd : ℕ → ℕ
commission_in_rsd u = (u + 100000000) / 200000000

abbrev pub refuse : Code → Error
refuse c = Error.verification c stornirano

-- The checks of the body, on the row and the accounts that it locks.
unfoldable pub settle_checks : Env → Transfer → Tables → Except Error (Account × Account)
settle_checks env r t = do
  current ←
      read (env.fails Stmt.lock_transfer) (find_transfer r.id t.transfers)
        (Error.database Stmt.lock_transfer)
  fail_if (not (is_pending current.status))
      (Error.verification Code.transfer_already_processed current.status)
  sender ← find_by_id_for_update env Stmt.lock_sender r.racun_posiljaoca_id t
  receiver ← find_by_id_for_update env Stmt.lock_receiver r.racun_primaoca_id t
  fail_if (not (same_owner sender.client_id receiver.client_id))
      (refuse Code.transfer_ownership_mismatch)
  fail_if (ltb_ℤ sender.raspolozivo_stanje (to_deduct r)) (refuse Code.insufficient_balance)
  fail_if
      (ltb_ℤ sender.dnevni_limit r.iznos
        || ltb_ℤ sender.dnevni_limit (sender.dnevna_potrosnja +ℤ r.iznos))
      (refuse Code.daily_limit_exceeded)
  fail_if (ltb_ℤ sender.mesecni_limit (sender.mesecna_potrosnja +ℤ r.iznos))
      (refuse Code.monthly_limit_exceeded)
  ok (sender, receiver)

-- The fields that the writes set, from the row `s` that was read.
unfoldable pub charged : Account → Transfer → Account → Account
charged s r a = record a {
  stanje = s.stanje -ℤ to_deduct r;
  raspolozivo_stanje = s.raspolozivo_stanje -ℤ to_deduct r;
  dnevna_potrosnja = s.dnevna_potrosnja +ℤ r.iznos;
  mesecna_potrosnja = s.mesecna_potrosnja +ℤ r.iznos;
}

unfoldable pub raised : Account → ℤ → Account → Account
raised s x a = record a { stanje = s.stanje +ℤ x; raspolozivo_stanje = s.raspolozivo_stanje +ℤ x }

unfoldable pub lowered : Account → ℤ → Account → Account
lowered s x a = record a { stanje = s.stanje -ℤ x; raspolozivo_stanje = s.raspolozivo_stanje -ℤ x }

abbrev pub with_account :
    Except Error Account
    → (Account → Tables → Option Error × Tables)
    → Tables
    → Option Error × Tables
with_account (err e) k t = (some e, t)
with_account (ok a) k t = k a t

abbrev pub skip : Tables → Option Error × Tables
skip t = (none, t)

module _ (gorm : Pluck) (env : Env) where
  abbrev pub with_bank :
      Text → (Account → Tables → Option Error × Tables) → Tables → Option Error × Tables
  with_bank kod k t = with_account (find_bank_account gorm env kod t) k t

  -- The second commission, on the bank's account in RSD.
  unfoldable pub second_commission : ℕ → Tables → Option Error × Tables
  second_commission u =
      if ltb 0 u
      then with_bank (codes "RSD")
          (λ rsd. update_fields_tx env rsd.id (raised rsd (pos (commission_in_rsd u))))
      else skip

  unfoldable pub exchange_writes : Transfer → Account → Account → Tables → Option Error × Tables
  exchange_writes r from to =
      update_fields_tx env from.id (raised from (to_deduct r))
      >>> second_commission r.iznos_rsd
      >>> update_fields_tx env to.id (lowered to r.konvertovani_iznos)

  -- The route through the bank's own accounts.
  unfoldable pub exchange : Transfer → Account → Account → Tables → Option Error × Tables
  exchange r sender receiver =
      if sender.currency_id == receiver.currency_id
      then skip
      else with_bank sender.currency_kod
          (λ from. with_bank receiver.currency_kod (λ to. exchange_writes r from to))

  unfoldable pub complete : Transfer → Tables → Option Error × Tables
  complete r t =
      if env.fails Stmt.complete_transfer
      then (some (Error.database Stmt.complete_transfer), t)
      else (
        none,
        record t {
          transfers = update_transfer r.id (λ x. record x { status = uspesno }) t.transfers;
        },
      )

  unfoldable pub settle_writes : Transfer → Account → Account → Tables → Option Error × Tables
  settle_writes r sender receiver =
      update_fields_tx env sender.id (charged sender r)
      >>> exchange r sender receiver
      >>> update_fields_tx env receiver.id (raised receiver r.konvertovani_iznos)
      >>> complete r

  abbrev pub settle_checked :
      Transfer → Except Error (Account × Account) → Tables → Option Error × Tables
  settle_checked r (err e) t = (some e, t)
  settle_checked r (ok (sender, receiver)) t = settle_writes r sender receiver t

  -- The body of the transaction.
  unfoldable pub settle_body : Transfer → Tables → Option Error × Tables
  settle_body r t = settle_checked r (settle_checks env r t) t

-- `cancelTransfer`: it saves the whole row that is in memory, and drops the error of that.
unfoldable pub cancel_transfer : Env → Transfer → Tables → Tables
cancel_transfer env r t = if env.fails Stmt.save_transfer then t else record t {
  transfers = update_transfer r.id (λ x. record r { status = stornirano }) t.transfers;
}

-- Whether a failed settlement cancels the transfer.
abbrev pub cancels : Error → Bool
cancels (Error.verification Code.transfer_already_processed s) = false
cancels (Error.verification c s) = true
cancels e = false

abbrev pub after_settlement :
    Env → Transfer → Option Error × Tables → Except Error Transfer × Tables
after_settlement env r (none, t) = (ok (record r { status = uspesno }), t)
after_settlement env r (some e, t) = (err e, if cancels e then cancel_transfer env r t else t)

-- `settleTransfer`.
unfoldable pub settle_transfer :
    Pluck → Transactions Tables Error → Env → Transfer → Tables → Except Error Transfer × Tables
settle_transfer gorm db env r t = after_settlement env r (db.transaction (settle_body gorm env r) t)
