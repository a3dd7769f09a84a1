-- ===== src/Effect.antt =====
-- Asynchronous code of the services: each `await` on Redis, on a queue or on AWS is a remote call,
-- which the network may lose. What happens to the calls, in order, is given beforehand as a list.
pub mod Frame
pub mod Fallible
pub mod Once
use cloud_code_execution_eng.Prelude.{String, List, [], ◌∷◌}

-- A call is done and answered, lost on its way, or done with its answer lost. A caller sees both
-- kinds of loss as a thrown error with some message.
pub data Delivery : Type 0 where
  delivered : Delivery
  dropped : String → Delivery
  unacknowledged : String → Delivery

pub data Result {ℓ} (A : Type ℓ) : Type ℓ where
  ok : A → Result A
  err : String → Result A

-- Once the list is used up every call is delivered.
pub record World {ℓ} (S : Type ℓ) : Type ℓ where
  pub net : List Delivery
  pub store : S

abbrev pub Exec {ℓ} : Type ℓ → Type ℓ → Type ℓ
Exec S A = World S → Result A × World S

-- The world in which every call is delivered.
abbrev pub calm {ℓ} : {S : Type ℓ} → S → World S
calm s = record { net = []; store = s }

module _ {ℓ} {S A : Type ℓ} where
  abbrev pub pure : A → Exec S A
  pure a w = (ok a, w)

  -- `throw new Error(message)`.
  abbrev pub raise : String → Exec S A
  raise message w = (err message, w)

  abbrev pub deliver : List Delivery → A × S → S → Result A × World S
  deliver [] (a, s') s = (ok a, record { net = []; store = s' })
  deliver (delivered ∷ net) (a, s') s = (ok a, record { net = net; store = s' })
  deliver (dropped message ∷ net) _ s = (err message, record { net = net; store = s })
  deliver (unacknowledged message ∷ net) (_, s') s = (err message, record { net = net; store = s' })

  abbrev pub remote : (S → A × S) → Exec S A
  remote f w = deliver w.net (f w.store) w.store

  abbrev pub handled : Result A → World S → (String → Exec S A) → Result A × World S
  handled (ok a) w h = (ok a, w)
  handled (err message) w h = h message w

  -- `try { m } catch (error) { h(error.message) }`.
  abbrev pub try_catch : Exec S A → (String → Exec S A) → Exec S A
  try_catch m h w = handled (m w).0 (m w).1 h

module _ {ℓ} {S A B : Type ℓ} where
  abbrev pub continue : Result A → (A → Exec S B) → Exec S B
  continue (ok a) f w = f a w
  continue (err message) f w = (err message, w)

  infixl 5 ◌>>=◌
  abbrev pub ◌>>=◌ : Exec S A → (A → Exec S B) → Exec S B
  ◌>>=◌ m f w = continue (m w).0 f (m w).1

infixl 5 ◌>>◌
abbrev pub ◌>>◌ {ℓ} : {S A B : Type ℓ} → Exec S A → Exec S B → Exec S B
m >> n = m >>= λ _. n

-- A call whose answer is not used.
abbrev pub command {ℓ} : {S : Type ℓ} → (S → S) → Exec S (Unit {ℓ})
command f = remote λ s. (tt, f s)
