-- ===== src/Effect/Frame.antt =====
-- What a piece of asynchronous code leaves alone, whatever the network does.
use cloud_code_execution_eng.Prelude.{◌≡◌, refl, ◌∙◌, List, [], ◌∷◌, String}
use cloud_code_execution_eng.Effect.{
  Delivery, delivered, dropped, unacknowledged, Result, ok, err, World, Exec, pure, raise, deliver,
  remote, handled, try_catch, continue, ◌>>=◌, ◌>>◌, command,
}

module _ {ℓ κ} {S : Type ℓ} {V : Type κ} (view : S → V) where
  -- The part of the store that `view` shows is the same after the code as before.
  pub record Keeps {A : Type ℓ} (m : Exec S A) : Type (ℓ ⊔ κ) where
    pub at : (w : World S) → view (m w).1.store ≡ view w.store

  pub Keeps-pure : {A : Type ℓ} (a : A) → Keeps (pure a)
  Keeps-pure a = record { at = λ w. refl }

  pub Keeps-raise : {A : Type ℓ} (message : String) → Keeps (raise {A = A} message)
  Keeps-raise message = record { at = λ w. refl }

  deliver-view :
      {A : Type ℓ} (net : List Delivery) (a : A) (s s' : S)
      → view s' ≡ view s
      → view (deliver net (a, s') s).1.store ≡ view s
  deliver-view [] a s s' h = h
  deliver-view (delivered ∷ net) a s s' h = h
  deliver-view (dropped message ∷ net) a s s' h = refl
  deliver-view (unacknowledged message ∷ net) a s s' h = h

  pub Keeps-remote :
      {A : Type ℓ} (f : S → A × S) → ((s : S) → view (f s).1 ≡ view s) → Keeps (remote f)
  Keeps-remote f h = record {
    at = λ w. deliver-view w.net (f w.store).0 w.store (f w.store).1 (h w.store);
  }

  continue-view :
      {A B : Type ℓ} (r : Result A) (f : A → Exec S B) (w : World S)
      → ((a : A) → Keeps (f a))
      → view (continue r f w).1.store ≡ view w.store
  continue-view (ok a) f w h = (h a).at w
  continue-view (err message) f w h = refl

  pub Keeps-bind :
      {A B : Type ℓ} (m : Exec S A) (f : A → Exec S B)
      → Keeps m
      → ((a : A) → Keeps (f a))
      → Keeps (m >>= f)
  Keeps-bind m f h k = record { at = λ w. continue-view (m w).0 f (m w).1 k ∙ h.at w }

  handled-view :
      {A : Type ℓ} (r : Result A) (w : World S) (h : String → Exec S A)
      → ((message : String) → Keeps (h message))
      → view (handled r w h).1.store ≡ view w.store
  handled-view (ok a) w h k = refl
  handled-view (err message) w h k = (k message).at w

  pub Keeps-try_catch :
      {A : Type ℓ} (m : Exec S A) (h : String → Exec S A)
      → Keeps m
      → ((message : String) → Keeps (h message))
      → Keeps (try_catch m h)
  Keeps-try_catch m h k l = record { at = λ w. handled-view (m w).0 (m w).1 h l ∙ k.at w }

  pub Keeps-command : (f : S → S) → ((s : S) → view (f s) ≡ view s) → Keeps (command f)
  Keeps-command f h = Keeps-remote (λ s. (tt, f s)) h

  pub Keeps-then : {A B : Type ℓ} {m : Exec S A} {n : Exec S B} → Keeps m → Keeps n → Keeps (m >> n)
  Keeps-then {m = m} {n = n} h k = Keeps-bind m (λ _. n) h (λ _. k)
