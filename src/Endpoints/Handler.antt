-- ===== src/Endpoints/Handler.antt =====
-- How a handler is put together: a step answers with a failure or an acceptance and ends the
-- handler, throws out of it, or goes on with a value.
use depa_kms_gcp_oidc.Prelude.{ℕ, ◌≡◌, ◌≢◌, refl, ap, Bool, true, false, Option, none, some}
use depa_kms_gcp_oidc.ServiceResult.{
  ErrorMessage, ServiceResult, succeeded, accepted, failed, Throws, returned, thrown, success,
  result_body, returned-injective,
}

abbrev pub Handler {ℓ} : Type ℓ → Type ℓ
Handler A = Throws (ServiceResult A)

infixl 5 ◌>>=◌ ◌>>◌
abbrev pub ◌>>=◌ {ℓ κ} : {A : Type ℓ} {B : Type κ} → Handler A → (A → Handler B) → Handler B
returned (succeeded a) >>= k = k a
returned accepted >>= k = returned accepted
returned (failed e c) >>= k = returned (failed e c)
thrown e >>= k = thrown e

abbrev pub ◌>>◌ {ℓ} : {B : Type ℓ} → Handler (Unit {0}) → Handler B → Handler B
m >> rest = m >>= λ _. rest

abbrev pub pure {ℓ} : {A : Type ℓ} → A → Handler A
pure a = returned (succeeded a)

-- `if (!ok) return Failed(e, c)`
abbrev pub guard : Bool → ErrorMessage → ℕ → Handler (Unit {0})
guard true e c = returned (succeeded tt)
guard false e c = returned (failed e c)

-- A value, or the failure where it is missing.
abbrev pub or_fail {ℓ} : {A : Type ℓ} → Option A → ErrorMessage → ℕ → Handler A
or_fail none e c = returned (failed e c)
or_fail (some a) e c = returned (succeeded a)

-- A value that is computed outside a `try`.
abbrev pub or_escape {ℓ} : {A : Type ℓ} → Throws A → Handler A
or_escape (returned a) = returned (succeeded a)
or_escape (thrown e) = thrown e

-- `try { ... } catch (exception) { return Failed(wrap(exception), 500) }`
abbrev pub or_fail_with {ℓ} : {A : Type ℓ} → (ErrorMessage → ErrorMessage) → Throws A → Handler A
or_fail_with wrap (returned a) = returned (succeeded a)
or_fail_with wrap (thrown e) = returned (failed (wrap e) 500)

infixl 5 ◌>>>◌
abbrev pub ◌>>>◌ {ℓ κ} : {A : Type ℓ} {B : Type κ} → Throws A → (A → B) → Throws B
returned a >>> f = returned (f a)
thrown e >>> f = thrown e

module _ {ℓ κ} {A : Type ℓ} {B : Type κ} where
  pub then-eq-returned :
      (m : Throws A) (f : A → B) {b : B}
      → (m >>> f) ≡ returned b
      → (a : A) × (m ≡ returned a) × (f a ≡ b)
  then-eq-returned (returned a) f h = (a, refl, returned-injective h)
  then-eq-returned (thrown e) f h = cc

  pub then-same : (m : Throws A) (f g : A → B) → ((a : A) → f a ≡ g a) → (m >>> f) ≡ (m >>> g)
  then-same (returned a) f g h = ap returned (h a)
  then-same (thrown e) f g h = refl

  pub bind-eq-pure :
      (m : Handler A) (k : A → Handler B) {b : B}
      → (m >>= k) ≡ pure b
      → (a : A) × (m ≡ pure a) × (k a ≡ pure b)
  bind-eq-pure (returned (succeeded a)) k h = (a, refl, h)
  bind-eq-pure (returned accepted) k h = cc
  bind-eq-pure (returned (failed e c)) k h = cc
  bind-eq-pure (thrown e) k h = cc

  pub bind-eq-accepted :
      (m : Handler A) (k : A → Handler B)
      → m ≢ returned accepted
      → (m >>= k) ≡ returned accepted
      → (a : A) × (m ≡ pure a) × (k a ≡ returned accepted)
  bind-eq-accepted (returned (succeeded a)) k n h = (a, refl, h)
  bind-eq-accepted (returned accepted) k n h = absurd (n refl)
  bind-eq-accepted (returned (failed e c)) k n h = cc
  bind-eq-accepted (thrown e) k n h = cc

pub pure-ne-accepted {ℓ} : {A : Type ℓ} (a : A) → pure a ≢ returned accepted
pure-ne-accepted a h = cc

pub pure-injective {ℓ} : {A : Type ℓ} {a b : A} → pure a ≡ pure b → a ≡ b
pure-injective h = cc h

pub guard-eq-pure :
    (b : Bool) (e : ErrorMessage) (c : ℕ) {u : Unit {0}} → guard b e c ≡ pure u → b ≡ true
guard-eq-pure true e c h = refl
guard-eq-pure false e c h = cc

pub guard-ne-accepted : (b : Bool) (e : ErrorMessage) (c : ℕ) → guard b e c ≢ returned accepted
guard-ne-accepted true e c h = cc
guard-ne-accepted false e c h = cc

module _ {ℓ} {A : Type ℓ} where
  pub or_fail-eq-pure :
      (o : Option A) (e : ErrorMessage) (c : ℕ) {a : A} → or_fail o e c ≡ pure a → o ≡ some a
  or_fail-eq-pure none e c h = cc
  or_fail-eq-pure (some a) e c h = cc h

  pub or_fail-ne-accepted :
      (o : Option A) (e : ErrorMessage) (c : ℕ) → or_fail o e c ≢ returned accepted
  or_fail-ne-accepted none e c h = cc
  or_fail-ne-accepted (some a) e c h = cc

  pub or_escape-eq-pure : (m : Throws A) {a : A} → or_escape m ≡ pure a → m ≡ returned a
  or_escape-eq-pure (returned a) h = cc h
  or_escape-eq-pure (thrown e) h = cc

  pub or_escape-ne-accepted : (m : Throws A) → or_escape m ≢ returned accepted
  or_escape-ne-accepted (returned a) h = cc
  or_escape-ne-accepted (thrown e) h = cc

  pub or_fail_with-eq-pure :
      (wrap : ErrorMessage → ErrorMessage) (m : Throws A) {a : A}
      → or_fail_with wrap m ≡ pure a
      → m ≡ returned a
  or_fail_with-eq-pure wrap (returned a) h = cc h
  or_fail_with-eq-pure wrap (thrown e) h = cc

  pub or_fail_with-ne-accepted :
      (wrap : ErrorMessage → ErrorMessage) (m : Throws A) → or_fail_with wrap m ≢ returned accepted
  or_fail_with-ne-accepted wrap (returned a) h = cc
  or_fail_with-ne-accepted wrap (thrown e) h = cc

-- `if (r.failure) return r`, and on with the result.
abbrev pub passes {ℓ} : {A : Type ℓ} → ServiceResult A → Handler (ServiceResult A)
passes (failed e c) = returned (failed e c)
passes (succeeded a) = returned (succeeded (succeeded a))
passes accepted = returned (succeeded accepted)

-- A value, or the answer that the client is to come back later.
abbrev pub or_accepted {ℓ} : {A : Type ℓ} → Option A → Handler A
or_accepted none = returned accepted
or_accepted (some a) = returned (succeeded a)

module _ {ℓ} {A : Type ℓ} where
  pub passes-eq-pure : (r : ServiceResult A) {s : ServiceResult A} → passes r ≡ pure s → r ≡ s
  passes-eq-pure (failed e c) h = cc
  passes-eq-pure (succeeded a) h = cc h
  passes-eq-pure accepted h = cc h

  pub passes-ne-accepted : (r : ServiceResult A) → passes r ≢ returned accepted
  passes-ne-accepted (failed e c) h = cc
  passes-ne-accepted (succeeded a) h = cc
  passes-ne-accepted accepted h = cc

  pub passes-success :
      (r : ServiceResult A) {s : ServiceResult A} → passes r ≡ pure s → success r ≡ true
  passes-success (failed e c) h = cc
  passes-success (succeeded a) h = refl
  passes-success accepted h = refl

  pub result_body-eq-some : (r : ServiceResult A) {a : A} → result_body r ≡ some a → r ≡ succeeded a
  unfolding result_body
  result_body-eq-some (failed e c) h = cc
  result_body-eq-some (succeeded a) h = cc h
  result_body-eq-some accepted h = cc

pub or_accepted-eq-pure {ℓ} :
    {A : Type ℓ} (o : Option A) {a : A} → or_accepted o ≡ pure a → o ≡ some a
or_accepted-eq-pure none h = cc
or_accepted-eq-pure (some a) h = cc h

pub bind-same {ℓ κ} :
    {A : Type ℓ} {B : Type κ} (m : Handler A) (k l : A → Handler B)
    → ((a : A) → k a ≡ l a)
    → (m >>= k) ≡ (m >>= l)
bind-same (returned (succeeded a)) k l same = same a
bind-same (returned accepted) k l same = refl
bind-same (returned (failed e c)) k l same = refl
bind-same (thrown e) k l same = refl
