-- ===== src/Prelude/Queues.antt =====
-- A queue that was filled from one list and emptied into another, both with the newest first.
use mathlib.Core.Path.{◌≡◌, sym, ap, ◌∙◌}
use mathlib.Core.List.{List, [], ◌∷◌, ◌++◌, reverse, reverse-cons, append_assoc}

module _ {ℓ} {A : Type ℓ} where
  pub fifo_send :
      (x : A) (sent taken buffer : List A)
      → reverse sent ≡ reverse taken ++ buffer
      → reverse (x ∷ sent) ≡ reverse taken ++ (buffer ++ x ∷ [])
  fifo_send x sent taken buffer e =
      reverse-cons x sent ∙ ap (λ l. l ++ x ∷ []) e ∙ append_assoc (reverse taken) buffer (x ∷ [])

  pub fifo_take :
      (x : A) (sent taken rest : List A)
      → reverse sent ≡ reverse taken ++ x ∷ rest
      → reverse sent ≡ reverse (x ∷ taken) ++ rest
  fifo_take x sent taken rest e =
      e ∙ sym (rw (reverse-cons x taken) (append_assoc (reverse taken) (x ∷ []) rest))
