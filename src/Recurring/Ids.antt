-- ===== src/Recurring/Ids.antt =====
-- The ids of the tasks of a template: a sequence number in decimal digits is not ambiguous.
use machine_manager.Base.{
  ℕ, ◌+◌, ◌-◌, ◌*◌, ◌/◌, ◌≤◌, suc, zero, ◌≡◌, ◌≢◌, refl, sym, ap, ◌∙◌, [], ◌∷◌, ◌++◌, ltb, arith,
  length, Bool-cases, inl, inr,
}
use machine_manager.Base.Text.{Text, text}
use machine_manager.Recurring.{Template, digits, zeros, six_digits, template_task_id}

-- The number that decimal digits stand for, after the digits of `acc`.
value : ℕ → Text → ℕ
value acc [] = acc
value acc (c ∷ cs) = value (acc * 10 + (c - 48)) cs

value-append : (acc : ℕ) (xs ys : Text) → value acc (xs ++ ys) ≡ value (value acc xs) ys
unfolding value
value-append acc [] ys = refl
value-append acc (c ∷ xs) ys = value-append (acc * 10 + (c - 48)) xs ys

value-zeros : (n : ℕ) → value 0 (zeros n) ≡ 0
unfolding value zeros
value-zeros zero = refl
value-zeros (suc n) = value-zeros n

value-digits : (fuel n : ℕ) → n ≤ fuel → value 0 (digits fuel n) ≡ n
unfolding value digits
value-digits zero n h = ground arith
value-digits (suc fuel) n h = elim (Bool-cases (ltb n 10)) [
  | inl e ↦ rw e (omega arith)
  | inr e ↦ rw e (rw value-append (rw (value-digits fuel (n / 10) (ground arith)) (omega arith)))
]

value-six_digits : (n : ℕ) → value 0 (six_digits n) ≡ n
unfolding six_digits
value-six_digits n =
    value-append 0 (zeros (6 - length (digits n n))) (digits n n)
    ∙ ap (λ k. value k (digits n n)) (value-zeros (6 - length (digits n n)))
    ∙ value-digits n n (omega arith)

append-cancel : (xs : Text) {ys zs : Text} → xs ++ ys ≡ xs ++ zs → ys ≡ zs
append-cancel [] h = h
append-cancel (x ∷ xs) h = append-cancel xs cc

template_task_id-injective :
    (t : Template) (m n : ℕ) → template_task_id t m ≡ template_task_id t n → m ≡ n
unfolding template_task_id
template_task_id-injective t m n h =
    sym (value-six_digits m)
    ∙ ap (value 0) (
        append-cancel (text "-")
          (append-cancel t.recurring_id (append-cancel (text "recurring-") h)))
    ∙ value-six_digits n

-- Two tasks of a template with different sequence numbers have different ids.
pub template_task_ids_differ :
    (t : Template) (m n : ℕ) → m ≢ n → template_task_id t m ≢ template_task_id t n
template_task_ids_differ t m n apart h = apart (template_task_id-injective t m n h)
