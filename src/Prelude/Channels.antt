-- ===== src/Prelude/Channels.antt =====
-- Go channels with a buffer, and what an operation on one can do.
use Prim.Native.Nat.{ℕ, ◌<◌}
use mathlib.Core.Path.{◌≡◌}
use native.Mathlib.Omega.{arith}
use mathlib.Core.Bool.{Bool, true, false}
use mathlib.Core.List.{List, [], ◌∷◌, ◌++◌}
use sentinelstream.Prelude.Tests.{ltb, if◌then◌else◌}
use sentinelstream.Prelude.Lists.{length}

pub data Outcome {ℓ} (A : Type ℓ) : Type ℓ where
  returns : A → Outcome A
  panics : Outcome A
  blocks : Outcome A

-- What follows an operation that came through.
abbrev pub then_do {ℓ} : {A B : Type ℓ} → Outcome A → (A → Outcome B) → Outcome B
then_do (returns a) f = f a
then_do panics f = panics
then_do blocks f = blocks

-- The buffer has the oldest element first.
pub record Channel {ℓ} (A : Type ℓ) : Type ℓ where
  pub capacity : ℕ
  pub buffer : List A
  pub closed : Bool

module _ {ℓ} {A : Type ℓ} where
  -- `make(chan A, capacity)`
  abbrev pub make : ℕ → Channel A
  make capacity = record { capacity = capacity; buffer = []; closed = false }

  abbrev pub has_room : Channel A → Bool
  has_room ch = ltb (length ch.buffer) ch.capacity

  -- `ch <- x`, with no receiver that waits
  unfoldable pub send : A → Channel A → Outcome (Channel A)
  send x ch =
      if ch.closed
      then panics
      else if has_room ch
      then returns (record ch { buffer = ch.buffer ++ x ∷ [] })
      else blocks

  -- `close(ch)`
  unfoldable pub close : Channel A → Outcome (Channel A)
  close ch = if ch.closed then panics else returns (record ch { closed = true })

  pub send-panics : (x : A) (ch : Channel A) → send x ch ≡ panics → ch.closed ≡ true
  unfolding send
  send-panics x ch h = ground arith

  pub send-returns :
      (x : A) (ch ch' : Channel A)
      → send x ch ≡ returns ch'
      → (ch'.closed ≡ ch.closed)
        × (ch'.capacity ≡ ch.capacity)
        × (ch'.buffer ≡ ch.buffer ++ x ∷ [])
        × (length ch.buffer < ch.capacity)
  unfolding send
  send-returns x ch ch' h = ground arith

  pub close-panics : (ch : Channel A) → close ch ≡ panics → ch.closed ≡ true
  unfolding close
  close-panics ch h = ground arith

  pub close-returns :
      (ch ch' : Channel A)
      → close ch ≡ returns ch'
      → (ch'.closed ≡ true) × (ch'.capacity ≡ ch.capacity) × (ch'.buffer ≡ ch.buffer)
  unfolding close
  close-returns ch ch' h = ground arith
