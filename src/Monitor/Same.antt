-- ===== src/Monitor/Same.antt =====
-- Which part of the tables a handler of apps/blockchain-monitor/src/monitor.service.ts leaves alone.
use crypto_payment.Prelude.{
  Bool, true, false, Option, none, some, List, Result, ok, err, ◌≡◌, refl, sym, ap, ◌∙◌,
  if◌then◌else◌,
}
use crypto_payment.Prelude.Tx.{
  ◌>>=◌, >>=-eq-ok, for_each, for_each_keeps, pure, lift, gets, or_throw, modify, when,
  each_in_transaction, each_in_transaction_keeps,
}
use crypto_payment.Monitor.Store.{Db, MonitorTx, MonitorError}

module _ {V : Type 0} (view : Db → V) where
  -- A call that returns leaves the view as it was.
  unfoldable pub Same : {A : Type 0} → MonitorTx A → Type 0
  Same {A = A} m = (s : Db) (a : A) (s' : Db) → m s ≡ ok (a, s') → view s' ≡ view s

  pub Same-pure : {A : Type 0} (a : A) → Same (pure a)
  unfolding Same
  Same-pure a s b s' h = let same : s ≡ s' = cc h in ap view (sym same)

  pub Same-lift : {A : Type 0} (r : Result MonitorError A) → Same (lift r)
  unfolding Same
  Same-lift (ok a) s b s' h = let same : s ≡ s' = cc h in ap view (sym same)
  Same-lift (err e) s b s' h = cc h

  pub Same-gets : {A : Type 0} (f : Db → A) → Same (gets f)
  unfolding Same
  Same-gets f s a s' h = let same : s ≡ s' = cc h in ap view (sym same)

  pub Same-or_throw : {A : Type 0} (o : Option A) (e : MonitorError) → Same (or_throw o e)
  unfolding Same
  Same-or_throw none e s b s' h = cc h
  Same-or_throw (some a) e s b s' h = let same : s ≡ s' = cc h in ap view (sym same)

  pub Same-modify : (f : Db → Db) → ((s : Db) → view (f s) ≡ view s) → Same (modify f)
  unfolding Same
  Same-modify f same s a s' h = let e : f s ≡ s' = cc h in rw (← e) (same s)

  pub Same-if :
      {A : Type 0} (b : Bool) (m n : MonitorTx A) → Same m → Same n → Same (if b then m else n)
  Same-if true m n p q = p
  Same-if false m n p q = q

  pub Same-when : (b : Bool) (m : MonitorTx (Unit {0})) → Same m → Same (when b m)
  Same-when true m q = q
  Same-when false m q = Same-pure tt

  pub Same-bind :
      {A B : Type 0} (m : MonitorTx A) (f : A → MonitorTx B)
      → Same m
      → ((a : A) → Same (f a))
      → Same (m >>= f)
  unfolding Same
  Same-bind m f p q s b s' h =
      let (a, t, first, rest) = >>=-eq-ok m f s h in q a t b s' rest ∙ p s a t first

  pub Same-for_each :
      {A : Type 0} (xs : List A) (body : A → MonitorTx (Unit {0}))
      → ((x : A) → Same (body x))
      → Same (for_each xs body)
  unfolding Same
  Same-for_each xs body k s a s' h =
      for_each_keeps (λ d. view d ≡ view s) body (λ x t t' e p. k x t tt t' e ∙ p) xs s s' h refl

  pub Same-each :
      {A : Type 0} (xs : List A) (body : A → MonitorTx (Unit {0}))
      → ((x : A) → Same (body x))
      → (s : Db) → view (each_in_transaction xs body s).0 ≡ view s
  unfolding Same
  Same-each xs body k s =
      each_in_transaction_keeps (λ d. view d ≡ view s) body (λ x t t' e p. k x t tt t' e ∙ p) xs s
        refl
