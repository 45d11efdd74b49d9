-- ===== src/Effects.antt =====
-- Code that changes a state and may raise: an exception keeps the changes made before it.
use ottplay_control_server.Prelude.{◌≡◌, refl, ap, Bool, true, false, Result, ok, err}

-- A computation over the state `S`, with the exceptions `E`.
abbrev pub Eff : Type 0 → Type 0 → Type 0 → Type 0
Eff S E A = S → Result E A × S

module _ {S E : Type 0} where
  abbrev pub pure : {A : Type 0} → A → Eff S E A
  pure a s = (ok a, s)

  abbrev pub raise : {A : Type 0} → E → Eff S E A
  raise e s = (err e, s)

  -- The rest of a computation, behind an outcome and its state.
  unfoldable pub next : {A B : Type 0} → (A → Eff S E B) → Result E A × S → Result E B × S
  next f (ok a, s) = f a s
  next f (err e, s) = (err e, s)

  infixl 5 ◌>>=◌
  abbrev pub ◌>>=◌ : {A B : Type 0} → Eff S E A → (A → Eff S E B) → Eff S E B
  ◌>>=◌ m f s = next f (m s)

  infixl 5 ◌>>◌
  abbrev pub ◌>>◌ : {B : Type 0} → Eff S E (Unit {0}) → Eff S E B → Eff S E B
  m >> k = m >>= λ _. k

  -- A value or an exception that is computed from the arguments alone.
  abbrev pub lift : {A : Type 0} → Result E A → Eff S E A
  lift r s = (r, s)

  abbrev pub check : Bool → E → Eff S E (Unit {0})
  check true e s = (ok tt, s)
  check false e s = (err e, s)

  abbrev pub get_state : Eff S E S
  get_state s = (ok s, s)

  abbrev pub modify : (S → S) → Eff S E (Unit {0})
  modify f s = (ok tt, f s)

  unfoldable pub handle : {A : Type 0} → (E → Eff S E A) → Result E A × S → Result E A × S
  handle h (ok a, s) = (ok a, s)
  handle h (err e, s) = h e s

  -- `try: … except …`
  abbrev pub try_except : {A : Type 0} → Eff S E A → (E → Eff S E A) → Eff S E A
  try_except m h s = handle h (m s)

  unfoldable pub cleaned : {A : Type 0} → Result E A → Result E (Unit {0}) × S → Result E A × S
  cleaned r (ok _, s) = (r, s)
  cleaned r (err e, s) = (err e, s)

  unfoldable pub finish : {A : Type 0} → Eff S E (Unit {0}) → Result E A × S → Result E A × S
  unfolding cleaned
  finish clean (r, s) = cleaned r (clean s)

  -- `try: … finally: …`: an exception of the cleanup replaces the outcome.
  abbrev pub try_finally : {A : Type 0} → Eff S E A → Eff S E (Unit {0}) → Eff S E A
  try_finally m clean s = finish clean (m s)

  pub next-ok : {A B : Type 0} (f : A → Eff S E B) (a : A) (s : S) → next f (ok a, s) ≡ f a s
  unfolding next
  next-ok f a s = refl

  -- A property that the first part establishes with its outcome, and the rest of its value.
  pub next_lem :
      {A B : Type 0} (P : Result E B × S → Type 0) (f : A → Eff S E B) (o : Result E A × S)
      → ((a : A) → o.0 ≡ ok a → P (f a o.1))
      → ((e : E) → o.0 ≡ err e → P (err e, o.1))
      → P (next f o)
  unfolding next
  next_lem P f (ok a, s) good bad = good a refl
  next_lem P f (err e, s) good bad = bad e refl

  -- Inversion of a computation that returns.
  pub next-eq-ok :
      {A B : Type 0} (f : A → Eff S E B) (o : Result E A × S) {b : B} {t : S}
      → next f o ≡ (ok b, t)
      → (a : A) × (s : S) × (o ≡ (ok a, s)) × (f a s ≡ (ok b, t))
  unfolding next
  next-eq-ok f (ok a, s) h = (a, s, refl, h)
  next-eq-ok f (err e, s) h = absurd (cc (ap (λ x. x.0) h))

  pub check-eq-ok :
      (b : Bool) (e : E) {s t : S} {u : Unit {0}}
      → ◌≡◌ {A = Result E (Unit {0}) × S} (check b e s) (ok u, t)
      → (b ≡ true) × (t ≡ s)
  check-eq-ok true e h = (refl, cc (ap (λ x. x.1) h))
  check-eq-ok false e h = absurd (cc (ap (λ x. x.0) h))

  cleaned-state :
      {A : Type 0} (P : S → Type 0) (r : Result E A) (o : Result E (Unit {0}) × S)
      → P o.1
      → P (cleaned r o).1
  unfolding cleaned
  cleaned-state P r (ok u, s) p = p
  cleaned-state P r (err e, s) p = p

  -- What the body establishes, the cleanup may rely on, whatever the outcome.
  pub finish_lem :
      {A : Type 0} (P Q : S → Type 0) (clean : Eff S E (Unit {0})) (o : Result E A × S)
      → Q o.1
      → ((s : S) → Q s → P (clean s).1)
      → P (finish clean o).1
  unfolding finish
  finish_lem P Q clean (r, s) q c = cleaned-state P r (clean s) (c s q)

  cleaned-eq-ok :
      {A : Type 0} (r : Result E A) (o : Result E (Unit {0}) × S) {a : A} {t : S}
      → cleaned r o ≡ (ok a, t)
      → (r ≡ ok a) × (u : Unit {0}) × (o ≡ (ok u, t))
  unfolding cleaned
  cleaned-eq-ok r (ok u, s) h = (ap (λ x. x.0) h, u, ap (λ x. (ok u, x.1)) h)
  cleaned-eq-ok r (err e, s) h = absurd (cc (ap (λ x. x.0) h))

  -- Inversion of a body with a cleanup that returns.
  pub finish-eq-ok :
      {A : Type 0} (clean : Eff S E (Unit {0})) (o : Result E A × S) {a : A} {t : S}
      → finish clean o ≡ (ok a, t)
      → (o.0 ≡ ok a) × (u : Unit {0}) × (clean o.1 ≡ (ok u, t))
  unfolding finish
  finish-eq-ok clean (r, s) h = cleaned-eq-ok r (clean s) h
