-- ===== src/Payment/Transfer.antt =====
-- What a settlement that succeeds (settlePayment of payment-service/internal/service/
-- payment_service.go) does to the accounts and the payment.
use exbanka_3_backend.Prelude.{
  ℕ, ◌≡◌, ◌≢◌, refl, sym, ◌∙◌, ap, inl, inr, none, some, List, Option-cases, arith,
}
use exbanka_3_backend.Prelude.Int.{ℤ, pos, ◌+ℤ◌, ◌-ℤ◌, ◌≤ℤ◌, pos_part, neg_part, int_laws}
use exbanka_3_backend.Prelude.Except.{Except, ok, err, Except-cases}
use exbanka_3_backend.Prelude.Db.{Transactions}
use exbanka_3_backend.Payment.Types.{Account, Payment, Tables, Error, Env}
use exbanka_3_backend.Payment.Repository.{find_account, update_fields, update_payment}
use exbanka_3_backend.Payment.Service.{
  settle_checks, settle_writes, settle_body, write_checked, settle_payment, deducted, credited,
  completed, find_receiver_account,
}
use exbanka_3_backend.Payment.Accounts.{
  broj_racuna-found, KeepsId, find_account-id, find-update_self, find-update_ne, UniqueIds,
  total_stanje, total-update, update-UniqueIds,
}
use exbanka_3_backend.Payment.Settlement.{
  Accepted, settle_checks-Accepted, settle_payment-ok, settle_payment-err,
}

deducted-KeepsId : (s : Account) (x : ℤ) → KeepsId (deducted s x)
unfolding deducted
deducted-KeepsId s x a = refl

credited-KeepsId : (r : Account) (x : ℤ) → KeepsId (credited r x)
unfolding credited
credited-KeepsId r x a = refl

pub completed-id : (env : Env) (p : Payment) → (completed env p).id ≡ p.id
unfolding completed
completed-id env p = refl

-- The tables that a settlement leaves.
abbrev pub posted : Env → Payment → Account → Account → Tables → Tables
posted env p s r t = record t {
  accounts =
      update_fields r.id (credited r p.iznos) (update_fields s.id (deducted s p.iznos) t.accounts);
  payments = update_payment p.id (completed env) t.payments;
}

settle_writes-ok :
    (env : Env) (p : Payment) (s r : Account) (t : Tables)
    → (settle_writes env p s r t).0 ≡ none
    → (settle_writes env p s r t).1 ≡ posted env p s r t
unfolding settle_writes
settle_writes-ok env p s r t h = ground arith

write_checked-ok :
    (env : Env) (p : Payment) (t : Tables) (c : Except Error (Account × Account))
    → (write_checked env p t c).0 ≡ none
    → (s r : Account) × (c ≡ ok (s, r)) × ((write_checked env p t c).1 ≡ posted env p s r t)
write_checked-ok env p t (err e) h = cc
write_checked-ok env p t (ok (s, r)) h = (s, r, refl, settle_writes-ok env p s r t h)

receiver_by_id :
    (p : Payment) (t : Tables) (k : ℕ) {r : Account}
    → p.racun_primaoca_id ≡ some k
    → find_receiver_account p t ≡ some r
    → find_account k t.accounts ≡ some r
unfolding find_receiver_account
receiver_by_id p t k e h = rw (e, find_receiver_account) at h

-- What moving `x` from the account `j` to the account `k` makes of the accounts.
pub record Moves (j k : ℕ) (x : ℤ) (before after : List Account) : Type 0 where
  pub sender : Account
  pub receiver : Account
  pub sender' : Account
  pub receiver' : Account
  pub sender_before : find_account j before ≡ some sender
  pub receiver_before : find_account k before ≡ some receiver
  pub sender_after : find_account j after ≡ some sender'
  pub receiver_after : find_account k after ≡ some receiver'
  pub debited : sender'.stanje ≡ sender.stanje -ℤ x
  pub available : sender'.raspolozivo_stanje ≡ sender.raspolozivo_stanje -ℤ x
  pub never_overdrawn : pos 0 ≤ℤ sender'.raspolozivo_stanje
  pub daily_spent : sender'.dnevna_potrosnja ≡ sender.dnevna_potrosnja +ℤ x
  pub monthly_spent : sender'.mesecna_potrosnja ≡ sender.mesecna_potrosnja +ℤ x
  pub within_daily : sender'.dnevna_potrosnja ≤ℤ sender'.dnevni_limit
  pub within_monthly : sender'.mesecna_potrosnja ≤ℤ sender'.mesecni_limit
  pub credited_stanje : receiver'.stanje ≡ receiver.stanje +ℤ x
  pub credited_available : receiver'.raspolozivo_stanje ≡ receiver.raspolozivo_stanje +ℤ x
  pub others : (i : ℕ) → i ≢ j → i ≢ k → find_account i after ≡ find_account i before

posted-accounts :
    (env : Env) (p : Payment) (t : Tables) (k : ℕ) (s r : Account)
    → p.racun_primaoca_id ≡ some k
    → Accepted p t s r
    → (posted env p s r t).accounts
      ≡ update_fields k
          (credited r p.iznos)
          (update_fields p.racun_posiljaoca_id (deducted s p.iznos) t.accounts)
posted-accounts env p t k s r by_id a =
    rw
      (
        find_account-id p.racun_posiljaoca_id t.accounts s a.sender_found,
        find_account-id k t.accounts r (receiver_by_id p t k by_id a.receiver_found),
      )
      refl

-- Taking an amount from one term of a sum and adding it to another.
conserved :
    (s r x before mid after : ℤ)
    → mid +ℤ s ≡ before +ℤ (s -ℤ x)
    → after +ℤ r ≡ mid +ℤ (r +ℤ x)
    → after ≡ before
conserved s r x before mid after h k =
    omega (int_laws, ap pos_part h, ap neg_part h, ap pos_part k, ap neg_part k)

posted-Moves :
    (env : Env) (p : Payment) (t : Tables) (k : ℕ) (s r : Account)
    → p.racun_primaoca_id ≡ some k
    → p.racun_posiljaoca_id ≢ k
    → Accepted p t s r
    → Moves p.racun_posiljaoca_id k p.iznos t.accounts (posted env p s r t).accounts
posted-Moves env p t k s r by_id apart a =
    let j = p.racun_posiljaoca_id in
    let x = p.iznos in
    let kr = receiver_by_id p t k by_id a.receiver_found in
    let mid = update_fields j (deducted s x) t.accounts in
    let s_mid =
      find-update_self j (deducted s x) t.accounts s (deducted-KeepsId s x) a.sender_found in
    let r_mid =
      find-update_ne k j (deducted s x) t.accounts (deducted-KeepsId s x) (λ q. apart (sym q)) in
    rw (posted-accounts env p t k s r by_id a) (record {
      sender = s;
      receiver = r;
      sender' = deducted s x s;
      receiver' = credited r x r;
      sender_before = a.sender_found;
      receiver_before = kr;
      sender_after = find-update_ne j k (credited r x) mid (credited-KeepsId r x) apart ∙ s_mid;
      receiver_after = find-update_self k (credited r x) mid r (credited-KeepsId r x) (r_mid ∙ kr);
      debited = unfold deducted in refl;
      available = unfold deducted in refl;
      never_overdrawn = unfold deducted in omega (int_laws, a.covered);
      daily_spent = unfold deducted in refl;
      monthly_spent = unfold deducted in refl;
      within_daily = unfold deducted in a.daily;
      within_monthly = unfold deducted in a.monthly;
      credited_stanje = unfold credited in refl;
      credited_available = unfold credited in refl;
      others = λ i nj nk.
          find-update_ne i k (credited r x) mid (credited-KeepsId r x) nk
          ∙ find-update_ne i j (deducted s x) t.accounts (deducted-KeepsId s x) nj;
    })

-- The receiver's account, by id or by number, is a row of the table.
receiver-found :
    (p : Payment) (t : Tables) (r : Account)
    → UniqueIds t.accounts
    → find_receiver_account p t ≡ some r
    → find_account r.id t.accounts ≡ some r
unfolding find_receiver_account
receiver-found p t r u h = elim (Option-cases p.racun_primaoca_id) [
  | inl by_number ↦
      broj_racuna-found p.racun_primaoca_broj t.accounts r u
        (rw (by_number, find_receiver_account) at h)
  | inr (k, by_id) ↦
      let found = receiver_by_id p t k by_id h in
      ap (λ j. find_account j t.accounts) (find_account-id k t.accounts r found) ∙ found
]

posted-total :
    (env : Env) (p : Payment) (t : Tables) (s r : Account)
    → UniqueIds t.accounts
    → r.id ≢ p.racun_posiljaoca_id
    → Accepted p t s r
    → total_stanje (posted env p s r t).accounts ≡ total_stanje t.accounts
posted-total env p t s r u apart a =
    let j = p.racun_posiljaoca_id in
    let x = p.iznos in
    let mid = update_fields j (deducted s x) t.accounts in
    let r_mid = find-update_ne r.id j (deducted s x) t.accounts (deducted-KeepsId s x) apart in
    let first = total-update j (deducted s x) t.accounts s u a.sender_found in
    let second =
      total-update r.id (credited r x) mid r
        (update-UniqueIds j (deducted s x) t.accounts (deducted-KeepsId s x) u)
        (r_mid ∙ receiver-found p t r u a.receiver_found) in
    let d : (deducted s x s).stanje ≡ s.stanje -ℤ x = unfold deducted in refl in
    let c : (credited r x r).stanje ≡ r.stanje +ℤ x = unfold credited in refl in
    ap
      (λ i.
        total_stanje
          (update_fields r.id (credited r x) (update_fields i (deducted s x) t.accounts)))
      (find_account-id j t.accounts s a.sender_found)
    ∙ conserved s.stanje r.stanje x (total_stanje t.accounts) (total_stanje mid) _
        (first ∙ ap (λ z. total_stanje t.accounts +ℤ z) d)
        (second ∙ ap (λ z. total_stanje mid +ℤ z) c)

module _ (db : Transactions Tables Error) (env : Env) (p : Payment) (t : Tables) where
  pub settle_payment-posted :
      (q : Payment)
      → (settle_payment db env p t).0 ≡ ok q
      → (s r : Account) × Accepted p t s r × ((settle_payment db env p t).1 ≡ posted env p s r t)
  unfolding settle_body
  settle_payment-posted q h =
      let (none_failed, same, _) = settle_payment-ok db env p t q h in
      let (s, r, checked, after) = write_checked-ok env p t (settle_checks env p t) none_failed in
      (s, r, settle_checks-Accepted env p t s r checked, same ∙ after)

  -- A settlement that succeeds, of a payment that names its receiver's account by id, from another
  -- account, moves the amount: the sender's balance and available funds fall by it, its daily and
  -- monthly spending grow by it and stay within the limits, its available funds do not become
  -- negative, the receiver's balance and available funds grow by it, and every other account is as
  -- before.
  pub settle_payment-Moves :
      (q : Payment) (k : ℕ)
      → p.racun_primaoca_id ≡ some k
      → p.racun_posiljaoca_id ≢ k
      → (settle_payment db env p t).0 ≡ ok q
      → Moves p.racun_posiljaoca_id k p.iznos t.accounts (settle_payment db env p t).1.accounts
  settle_payment-Moves q k by_id apart h =
      let (s, r, accepted, e) = settle_payment-posted q h in
      rw e (posted-Moves env p t k s r by_id apart accepted)

  -- A settlement neither makes nor loses money, whether it succeeds or fails: on a table with unique
  -- ids, when the receiver's account that the payment names, by id or by number, is not the sender's,
  -- the sum of all balances stays as it was.
  pub settle_payment-total :
      UniqueIds t.accounts
      → ((r : Account) → find_receiver_account p t ≡ some r → r.id ≢ p.racun_posiljaoca_id)
      → total_stanje (settle_payment db env p t).1.accounts ≡ total_stanje t.accounts
  settle_payment-total u apart = elim (Except-cases (settle_payment db env p t).0) [
    | inl (q, h) ↦
        let (s, r, accepted, e) = settle_payment-posted q h in
        rw e (posted-total env p t s r u (apart r accepted.receiver_found) accepted)
    | inr (e, h) ↦ ap total_stanje (settle_payment-err db env p t e h)
  ]
