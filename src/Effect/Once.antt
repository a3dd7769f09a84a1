-- ===== src/Effect/Once.antt =====
-- Asynchronous code that changes a part of the store in one known way at most once, whatever the
-- network does.
use cloud_code_execution_eng.Prelude.{◌≡◌, refl, ap, ◌∙◌, ◌⊎◌, inl, inr, List, [], ◌∷◌}
use cloud_code_execution_eng.Effect.{
  Delivery, delivered, dropped, unacknowledged, Result, ok, err, World, Exec, deliver, continue,
  ◌>>=◌, command,
}
use cloud_code_execution_eng.Effect.Frame.{Keeps}

module _ {ℓ κ} {S : Type ℓ} {V : Type κ} (view : S → V) (f : V → V) where
  -- The part of the store that `view` shows is as before, or changed by `f`.
  pub record Once {A : Type ℓ} (m : Exec S A) : Type (ℓ ⊔ κ) where
    pub at :
        (w : World S)
        → (view (m w).1.store ≡ view w.store) ⊎ (view (m w).1.store ≡ f (view w.store))

  pub Keeps-Once : {A : Type ℓ} {m : Exec S A} → Keeps view m → Once m
  Keeps-Once h = record { at = λ w. inl (h.at w) }

  delivered_once :
      (net : List Delivery) (s s' : S)
      → view s' ≡ f (view s)
      → (view (deliver {A = Unit {ℓ}} net (tt, s') s).1.store ≡ view s)
        ⊎ (view (deliver {A = Unit {ℓ}} net (tt, s') s).1.store ≡ f (view s))
  delivered_once [] s s' h = inr h
  delivered_once (delivered ∷ net) s s' h = inr h
  delivered_once (dropped message ∷ net) s s' h = inl refl
  delivered_once (unacknowledged message ∷ net) s s' h = inr h

  pub command-Once : (g : S → S) → ((s : S) → view (g s) ≡ f (view s)) → Once (command g)
  command-Once g h = record { at = λ w. delivered_once w.net w.store (g w.store) (h w.store) }

  continue-Once :
      {A B : Type ℓ} (r : Result A) (k : A → Exec S B) (w : World S) (v : V)
      → view w.store ≡ v
      → ((a : A) → Once (k a))
      → (view (continue r k w).1.store ≡ v) ⊎ (view (continue r k w).1.store ≡ f v)
  continue-Once (ok a) k w v same h = shifted ((h a).at w)
    where
      shifted : {u : V} → (u ≡ view w.store) ⊎ (u ≡ f (view w.store)) → (u ≡ v) ⊎ (u ≡ f v)
      shifted (inl e) = inl (e ∙ same)
      shifted (inr e) = inr (e ∙ ap f same)
  continue-Once (err message) k w v same h = inl same

  pub Keeps-bind_Once :
      {A B : Type ℓ} (m : Exec S A) (k : A → Exec S B)
      → Keeps view m
      → ((a : A) → Once (k a))
      → Once (m >>= k)
  Keeps-bind_Once m k h g = record {
    at = λ w. continue-Once (m w).0 k (m w).1 (view w.store) (h.at w) g;
  }

  continue-Keeps :
      {A B : Type ℓ} (r : Result A) (k : A → Exec S B) (w : World S)
      → ((a : A) → Keeps view (k a))
      → view (continue r k w).1.store ≡ view w.store
  continue-Keeps (ok a) k w h = (h a).at w
  continue-Keeps (err message) k w h = refl

  pub Once-bind_Keeps :
      {A B : Type ℓ} (m : Exec S A) (k : A → Exec S B)
      → Once m
      → ((a : A) → Keeps view (k a))
      → Once (m >>= k)
  Once-bind_Keeps m k h g = record { at = λ w. after w (h.at w) }
    where
      after :
          (w : World S)
          → (view (m w).1.store ≡ view w.store) ⊎ (view (m w).1.store ≡ f (view w.store))
          → (view ((m >>= k) w).1.store ≡ view w.store)
            ⊎ (view ((m >>= k) w).1.store ≡ f (view w.store))
      after w (inl e) = inl (continue-Keeps (m w).0 k (m w).1 g ∙ e)
      after w (inr e) = inr (continue-Keeps (m w).0 k (m w).1 g ∙ e)
