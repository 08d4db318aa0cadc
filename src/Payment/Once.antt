-- ===== src/Payment/Once.antt =====
-- A payment is settled at most once (settlePayment of payment-service/internal/service/
-- payment_service.go), also by a request that read the payment before it was settled.
use exbanka_3_backend.Prelude.{◌≡◌, refl, ◌∙◌, ap, Bool, true, false, some, arith}
use exbanka_3_backend.Prelude.Except.{ok, err}
use exbanka_3_backend.Prelude.Db.{Transactions}
use exbanka_3_backend.Payment.Types.{Payment, Tables, Error, Env, Stmt, uspesno, Code}
use exbanka_3_backend.Payment.Repository.{find_payment}
use exbanka_3_backend.Payment.Service.{
  settle_checks, settle_body, write_checked, settle_payment, after_settlement, completed, refuse,
}
use exbanka_3_backend.Payment.Accounts.{find_payment-update_self}
use exbanka_3_backend.Payment.Transfer.{completed-id, settle_payment-posted}

completed-status : (env : Env) (p : Payment) → (completed env p).status ≡ uspesno
unfolding completed
completed-status env p = refl

-- The errors of a settlement that finds its payment processed, or cannot read it.
abbrev refused_when : Bool → Error
refused_when true = Error.payment_not_found
refused_when false = refuse Code.payment_already_processed uspesno

abbrev refused : Env → Error
refused env = refused_when (env.fails Stmt.lock_payment)

-- Neither of them cancels the payment.
refused-kept :
    (db : Transactions Tables Error) (env : Env) (p : Payment) (t : Tables) (b : Bool)
    → after_settlement db env p (some (refused_when b), t) ≡ (err (refused_when b), t)
refused-kept db env p t true = refl
refused-kept db env p t false = refl

settle_checks-refused :
    (env : Env) (p : Payment) (t : Tables) (c : Payment)
    → find_payment p.id t.payments ≡ some c
    → c.status ≡ uspesno
    → settle_checks env p t ≡ err (refused env)
unfolding settle_checks
settle_checks-refused env p t c found done = ground arith

settle_payment-refused :
    (db : Transactions Tables Error) (env : Env) (p : Payment) (t : Tables) (c : Payment)
    → find_payment p.id t.payments ≡ some c
    → c.status ≡ uspesno
    → settle_payment db env p t ≡ (err (refused env), t)
unfolding settle_payment
settle_payment-refused db env p t c found done =
    let checks = settle_checks-refused env p t c found done in
    let body : settle_body env p t ≡ (some (refused env), t) = ap (write_checked env p t) checks in
    ap (after_settlement db env p)
      (db.rolls_back (settle_body env p) t (refused env) (ap (λ r. r.0) body))
    ∙ refused-kept db env p t (env.fails Stmt.lock_payment)

-- After a settlement that succeeded, a second one of the same payment is refused and changes no
-- table, whatever the second request meets and however old its copy of the payment is.
pub settle_payment-once :
    (db : Transactions Tables Error) (env env₂ : Env) (p p₂ q : Payment) (t : Tables)
    → (settle_payment db env p t).0 ≡ ok q
    → p₂.id ≡ p.id
    → let t' = (settle_payment db env p t).1 in
      (e : Error) × (settle_payment db env₂ p₂ t' ≡ (err e, t'))
settle_payment-once db env env₂ p p₂ q t h same =
    let (s, r, a, e) = settle_payment-posted db env p t q h in
    let found =
      find_payment-update_self p.id (completed env) t.payments a.current (completed-id env)
        a.found in
    (
      refused env₂,
      settle_payment-refused db env₂ p₂ _ (completed env a.current) (rw (e, same) found)
          (completed-status env a.current),
    )
