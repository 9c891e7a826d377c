-- ===== src/Teal/Valid/Makes.antt =====
-- `Makes size act Q`: from a well-formed state with `size` arrays, `act` may make new arrays, and
-- leaves a well-formed state; what it returns satisfies `Q` in the heap that is there then.
use algorand_builder.Base.{arith, ℕ, Bool, true, false, List, length, if◌then◌else◌}
use algorand_builder.Teal.Machine.{
  Machine, StackElem, Error, Outcome, ok, fail, M, bind, ◌>>=◌, pure, throw,
}
use algorand_builder.Teal.Txn.{new_array}
use algorand_builder.Teal.Stack.{push_elem}
use algorand_builder.Teal.Valid.{IsArray, IsElem, IsValidAt, IsValid}
use algorand_builder.Teal.Valid.Triples.{Post, Gives, Keeps, forget, Gives-pure, alloc-IsValidAt}
use algorand_builder.Teal.Valid.Rules.{Keeps-push_elem}

pub record Makes {A : Type 0} (size : ℕ) (act : M A) (Q : ℕ → A → Type 0) : Type 0 where
  pub at :
      (m : Machine)
      → IsValidAt size m
      → Post IsValid (λ a m'. IsValid m' × Q (length m'.heap) a) (act m)

made_outcome :
    {A : Type 0} (size : ℕ) (Q : ℕ → A → Type 0) (o : Outcome A)
    → Post IsValid (λ a m'. IsValidAt size m' × Q size a) o
    → Post IsValid (λ a m'. IsValid m' × Q (length m'.heap) a) o
made_outcome size Q (ok a m) h = (forget h.0, rw h.0.heap_size h.1)
made_outcome size Q (fail e m) h = h

module _ {A : Type 0} {size : ℕ} {Q : ℕ → A → Type 0} where
  pub Makes-of-Gives : (act : M A) → Gives size act (Q size) → Makes size act Q
  Makes-of-Gives act g = record { at = λ m h. made_outcome size Q (act m) (g.at m h) }

  pub Makes-throw : (e : Error) → Makes size (throw {A = A} e) Q
  Makes-throw e = record { at = λ m h. forget h }

  pub Makes-if :
      (test : Bool) (act other : M A)
      → Makes size act Q
      → Makes size other Q
      → Makes size (if test then act else other) Q
  Makes-if true act other h k = h
  Makes-if false act other h k = k

module _ {A B : Type 0} {size : ℕ} {R : ℕ → B → Type 0} where
  given_outcome :
      (Q : A → Type 0) (next : A → M B) (o : Outcome A)
      → Post IsValid (λ a m'. IsValidAt size m' × Q a) o
      → ((a : A) → Q a → Makes size (next a) R)
      → Post IsValid (λ b m'. IsValid m' × R (length m'.heap) b) (bind o next)
  given_outcome Q next (ok a m) h k = (k a h.1).at m h.0
  given_outcome Q next (fail e m) h k = h

  pub Makes-bind :
      {Q : A → Type 0} (act : M A) (next : A → M B)
      → Gives size act Q
      → ((a : A) → Q a → Makes size (next a) R)
      → Makes size (act >>= next) R
  unfolding ◌>>=◌
  Makes-bind {Q} act next g k = record { at = λ m h. given_outcome Q next (act m) (g.at m h) k }

module _ {A B : Type 0} where
  kept_outcome :
      (Q : ℕ → A → Type 0) (next : A → M B) (o : Outcome A)
      → Post IsValid (λ a m'. IsValid m' × Q (length m'.heap) a) o
      → ((k : ℕ) (a : A) → Q k a → Keeps k (next a))
      → Post IsValid (λ _. IsValid) (bind o next)
  kept_outcome Q next (ok a m) h k = (k (length m.heap) a h.1).at m h.0
  kept_outcome Q next (fail e m) h k = h

  pub Keeps-bind-Makes :
      {size : ℕ} {Q : ℕ → A → Type 0} (act : M A) (next : A → M B)
      → Makes size act Q
      → ((k : ℕ) (a : A) → Q k a → Keeps k (next a))
      → Keeps size (act >>= next)
  unfolding ◌>>=◌
  Keeps-bind-Makes {Q} act next g k = record {
    at = λ m h. kept_outcome Q next (act m) (g.at m h) k;
  }

-- A value that is made and pushed.
pub push_made :
    {size : ℕ} (act : M StackElem) → Makes size act IsElem → Keeps size (act >>= λ e. push_elem e)
push_made act h = Keeps-bind-Makes act _ h λ k e v. Keeps-push_elem e v

pub Makes-pure :
    {A : Type 0} {size : ℕ} {Q : ℕ → A → Type 0} (a : A) → Q size a → Makes size (pure a) Q
Makes-pure a q = Makes-of-Gives _ (Gives-pure a q)

pub Makes-new_array : {size : ℕ} (b : List ℕ) → IsArray b → Makes size (new_array b) IsElem
unfolding ◌>>=◌
Makes-new_array {size} b p = record {
  at = λ m h.
      let v = alloc-IsValidAt size b m p h in
      let grown = v.heap_size in (forget v, omega (arith, grown, h.heap_size));
}
