-- ===== src/Ledger/Context/Transfers.antt =====
-- Transfers of Algos keep their total.
use algorand_builder.Base.{
  ℕ, ◌≡◌, ap, ◌∙◌, false, some, arith, if◌then◌else◌, Option-cases, Bool-cases, inl, inr,
}
use algorand_builder.Base.Int.{
  ℤ, pos, pos_part, neg_part, ◌+ℤ◌, ◌-ℤ◌, +ℤ_parts, -ℤ_parts, eq_of_parts,
}
use algorand_builder.Base.Equality.{same, string_eq, nat_eq}
use algorand_builder.Ledger.Dict.{
  lookup, insert, total, total-insert, lookup-insert_self, lookup-insert_ne,
}
use algorand_builder.Ledger.Data.{AccountStore, State, Address}
use algorand_builder.Ledger.Monad.{done, pure, ◌>>=◌}
use algorand_builder.Ledger.Context.{
  get_account, assert_acc_bal_above_min, on_account, add_amount, sub_amount, close_algo,
  transfer_algo, deduct_fee,
}
use algorand_builder.Ledger.Context.Totals.{
  total_of, Shifts, Shifts-bind, Shifts-Reads, get_account-Reads, throw_if-Reads, pure-Reads,
  on_account-Shifts,
}

-- The Algos of all accounts together.
abbrev pub algos : AccountStore → ℤ
algos a = a.amount

abbrev pub total_algos : State → ℤ
total_algos = total_of algos

close_sum : (t u w a c : ℤ) → u +ℤ c ≡ t +ℤ (c +ℤ a) → w +ℤ a ≡ u +ℤ pos 0 → w +ℤ pos 0 ≡ t +ℤ pos 0
close_sum t u w a c p q = eq_of_parts _ _ (
    omega (
      arith,
      ap pos_part p,
      ap neg_part p,
      ap pos_part q,
      ap neg_part q,
      +ℤ_parts u c,
      +ℤ_parts t (c +ℤ a),
      +ℤ_parts c a,
      +ℤ_parts w a,
      +ℤ_parts u (pos 0),
      +ℤ_parts w (pos 0),
      +ℤ_parts t (pos 0),
    ))

-- The accounts after the remainder of `from` went to another account.
closed_state : Address → Address → AccountStore → AccountStore → State → State
closed_state from close_to sender receiver s = record s {
  accounts =
      insert from (record sender { amount = pos 0 })
        (insert close_to (record receiver { amount = receiver.amount +ℤ sender.amount })
          s.accounts);
}

closed_total :
    (from close_to : Address) (sender receiver : AccountStore) (s : State)
    → lookup from s.accounts ≡ some sender
    → lookup close_to s.accounts ≡ some receiver
    → same from close_to ≡ false
    → total_algos (closed_state from close_to sender receiver s) +ℤ pos 0 ≡ total_algos s +ℤ pos 0
unfolding total_of closed_state
closed_total from close_to sender receiver s p q ne =
    let r = record receiver { amount = receiver.amount +ℤ sender.amount } in
    let f = algos in
    let d = insert close_to r s.accounts in
    let found : lookup from d ≡ some sender = lookup-insert_ne from close_to r s.accounts ne ∙ p in
    close_sum (total f s.accounts) (total f d)
      (total f (insert from (record sender { amount = pos 0 }) d)) sender.amount receiver.amount
      (total-insert f close_to r receiver s.accounts q)
      (total-insert f from (record sender { amount = pos 0 }) sender d found)

close_algo-runs :
    (from close_to : Address) (sender receiver : AccountStore) (s : State)
    → lookup from s.accounts ≡ some sender
    → lookup close_to s.accounts ≡ some receiver
    → same from close_to ≡ false
    → close_algo from close_to s ≡ done tt (closed_state from close_to sender receiver s)
unfolding close_algo closed_state on_account get_account ◌>>=◌
close_algo-runs from close_to sender receiver s p q ne =
    let r = record receiver { amount = receiver.amount +ℤ sender.amount } in
    ground (arith, lookup-insert_ne from close_to r s.accounts ne)

close_algo-throws :
    (from close_to : Address) (s : State) (u : Unit {0}) (s' : State)
    → close_algo from close_to s ≡ done u s'
    → (sender : AccountStore) × (receiver : AccountStore) × (lookup from s.accounts ≡ some sender)
      × (lookup close_to s.accounts ≡ some receiver)
unfolding close_algo get_account ◌>>=◌
close_algo-throws from close_to s u s' e = elim (Option-cases (lookup close_to s.accounts)) [
  | inl q ↦ absurd (ground arith)
  | inr (c, q) ↦ elim (Option-cases (lookup from s.accounts)) [
    | inl p ↦ absurd (ground arith)
    | inr (a, p) ↦ (a, c, p, q)
  ]
]

close_algo-Shifts :
    (from close_to : Address)
    → same from close_to ≡ false
    → Shifts algos (pos 0) (pos 0) (close_algo from close_to)
close_algo-Shifts from close_to ne = record {
  at = λ s u s' e.
      let (a, c, p, q) = close_algo-throws from close_to s u s' e in
      let run = close_algo-runs from close_to a c s p q ne in
      let same_state : s' ≡ closed_state from close_to a c s = cc in
      rw same_state (closed_total from close_to a c s p q ne);
}

assert-Shifts :
    (address : Address)
    → Shifts algos (pos 0 +ℤ pos 0) (pos 0 +ℤ pos 0) (assert_acc_bal_above_min address)
unfolding assert_acc_bal_above_min
assert-Shifts address =
    Shifts-bind algos _ _ (Shifts-Reads algos _ (get_account-Reads address))
      λ a. Shifts-Reads algos _ (throw_if-Reads _ _)

pub zero_add : (a : ℤ) → pos 0 +ℤ a ≡ a
zero_add a = eq_of_parts _ _ (omega (arith, +ℤ_parts (pos 0) a))

pub add_zero : (a : ℤ) → a +ℤ pos 0 ≡ a
add_zero a = eq_of_parts _ _ (omega (arith, +ℤ_parts a (pos 0)))

pub sub_add : (a x : ℤ) → (a -ℤ x) +ℤ x ≡ a +ℤ pos 0
sub_add a x = eq_of_parts _ _ (omega (arith, +ℤ_parts (a -ℤ x) x, -ℤ_parts a x, +ℤ_parts a (pos 0)))

pub cancel : (t u x : ℤ) → u +ℤ x ≡ t +ℤ x → u ≡ t
cancel t u x p =
    eq_of_parts _ _ (omega (arith, ap pos_part p, ap neg_part p, +ℤ_parts u x, +ℤ_parts t x))

add_amount-Shifts :
    (address : Address) (x : ℤ) → Shifts algos x (pos 0) (on_account address (add_amount x))
add_amount-Shifts address x = on_account-Shifts algos address (add_amount x) x (pos 0) λ a u b e.
    let run : b ≡ record a { amount = a.amount +ℤ x } = ground arith in rw run (add_zero _)

sub_amount-Shifts :
    (address : Address) (x : ℤ) → Shifts algos (pos 0) x (on_account address (sub_amount x))
sub_amount-Shifts address x = on_account-Shifts algos address (sub_amount x) (pos 0) x λ a u b e.
    let run : b ≡ record a { amount = a.amount -ℤ x } = ground arith in rw run (sub_add a.amount x)

closing-Shifts :
    (from close_to : Address)
    → same from close_to ≡ false
    → Shifts algos (pos 0) (pos 0) (if same close_to "" then pure tt else close_algo from close_to)
closing-Shifts from close_to ne = elim (Bool-cases (same close_to "")) [
  | inl p ↦ rw p (Shifts-Reads algos _ (pure-Reads tt))
  | inr p ↦ rw p (close_algo-Shifts from close_to ne)
]

-- A transfer of Algos that succeeds, and does not close the sender's account to the sender
-- itself, keeps the sum of all accounts.
pub transfer_algo-keeps_total :
    (from to : Address) (amount : ℤ) (close_remainder_to : Address) (s s' : State)
    → same from close_remainder_to ≡ false
    → transfer_algo from to amount close_remainder_to s ≡ done tt s'
    → total_algos s' ≡ total_algos s
unfolding transfer_algo
transfer_algo-keeps_total from to amount close_remainder_to s s' ne e =
    let shifts = Shifts-bind algos _ _ (Shifts-Reads algos _ (get_account-Reads from)) λ _.
      Shifts-bind algos _ _ (Shifts-Reads algos _ (get_account-Reads to)) λ _.
        Shifts-bind algos _ _ (sub_amount-Shifts from amount) λ _.
          Shifts-bind algos _ _ (add_amount-Shifts to amount) λ _.
            Shifts-bind algos _ _ (assert-Shifts from)
              λ _. closing-Shifts from close_remainder_to ne in
    let moved = shifts.at s tt s' e in
    cancel (total_algos s) (total_algos s') amount (simp (zero_add, add_zero) at moved)

burn_sum : (t u w a : ℤ) → u +ℤ a ≡ t +ℤ (a +ℤ a) → w +ℤ (a +ℤ a) ≡ u +ℤ pos 0 → w +ℤ a ≡ t
burn_sum t u w a p q = eq_of_parts _ _ (
    omega (
      arith,
      ap pos_part p,
      ap neg_part p,
      ap pos_part q,
      ap neg_part q,
      +ℤ_parts u a,
      +ℤ_parts t (a +ℤ a),
      +ℤ_parts a a,
      +ℤ_parts w (a +ℤ a),
      +ℤ_parts u (pos 0),
      +ℤ_parts w a,
    ))

-- Closing an account to itself succeeds, and the sum of all accounts falls by what the account
-- had.
pub close_algo-to_self :
    (from : Address) (sender : AccountStore) (s : State)
    → lookup from s.accounts ≡ some sender
    → (s' : State) × (close_algo from from s ≡ done tt s')
      × (total_algos s' +ℤ sender.amount ≡ total_algos s)
unfolding close_algo on_account get_account total_of ◌>>=◌
close_algo-to_self from sender s p =
    let r = record sender { amount = sender.amount +ℤ sender.amount } in
    let d = insert from r s.accounts in
    let found : lookup from d ≡ some r = lookup-insert_self from r s.accounts in
    let e = record r { amount = pos 0 } in
    (
      record s { accounts = insert from e d },
      ground (arith, found),
      burn_sum (total algos s.accounts) (total algos d) (total algos (insert from e d))
          sender.amount (total-insert algos from r sender s.accounts p)
          (total-insert algos from e r d found),
    )

-- A fee that is deducted leaves the sum of all accounts lower by itself.
pub deduct_fee-total :
    (sender : Address) (fee : ℕ) (s s' : State)
    → deduct_fee sender fee s ≡ done tt s'
    → total_algos s' +ℤ pos fee ≡ total_algos s
unfolding deduct_fee
deduct_fee-total sender fee s s' e =
    let shifts =
      Shifts-bind algos _ _ (sub_amount-Shifts sender (pos fee)) λ _. assert-Shifts sender in
    simp (zero_add, add_zero) at shifts.at s tt s' e
