-- ===== src/Status/Flow.antt =====
-- What holds after a chain of steps that stops at the first failure.
use shiori.Base.{◌≡◌, ◌≢◌, refl}
use shiori.Status.{Status, ok, then_ok, case_ok}

-- A property that each step keeps holds of the state after the chain.
pub then_ok_keeps {ℓ κ} :
    {S : Type ℓ} (P : S → Type κ) (r : Status × S) (next : S → Status × S)
    → P r.1
    → ((s : S) → P s → P (next s).1)
    → P (then_ok r next).1
then_ok_keeps P (ok, s) next h k = k s h
then_ok_keeps P (_, s) next h k = h

-- Both ways have the property.
pub case_ok_both {ℓ κ} :
    {S : Type ℓ} (P : S → Type κ) (status : Status) (done : S) (failed : Status → S)
    → P done
    → ((e : Status) → P (failed e))
    → P (case_ok status done failed)
case_ok_both P ok done failed h k = h
case_ok_both P e done failed h k = k e

pub then_ok_cong {ℓ} :
    {S : Type ℓ} (r : Status × S) (f g : S → Status × S) → f r.1 ≡ g r.1 → then_ok r f ≡ then_ok r g
then_ok_cong (ok, s) f g h = h
then_ok_cong (_, s) f g h = refl

-- A chain that ends with ASSISTANTD_OK took both steps.
pub then_ok-ok {ℓ} :
    {S : Type ℓ} (r : Status × S) (f : S → Status × S) → (then_ok r f).0 ≡ ok → then_ok r f ≡ f r.1
then_ok-ok (ok, s) f h = refl
then_ok-ok (_, s) f h = cc h

pub case_ok-ok {ℓ} :
    {S : Type ℓ} (status : Status) (done : S) (failed : Status → S)
    → status ≡ ok
    → case_ok status done failed ≡ done
case_ok-ok status done failed h = rw h refl

pub case_ok-failed {ℓ} :
    {S : Type ℓ} (status : Status) (done : S) (failed : Status → S)
    → status ≢ ok
    → case_ok status done failed ≡ failed status
case_ok-failed ok done failed h = absurd (h refl)
case_ok-failed _ done failed h = refl

-- A property of the state before the second step leads to another after the chain.
pub then_ok_leads {ℓ κ μ} :
    {S : Type ℓ} (P : S → Type κ) (Q : S → Type μ) (r : Status × S) (next : S → Status × S)
    → P r.1
    → ((s : S) → P s → Q s)
    → ((s : S) → P s → Q (next s).1)
    → Q (then_ok r next).1
then_ok_leads P Q (ok, s) next h weak k = k s h
then_ok_leads P Q (_, s) next h weak k = weak s h

-- A chain that succeeds has taken both steps with success.
pub then_ok_success {ℓ κ μ} :
    {S : Type ℓ} (P : S → Type κ) (Q : S → Type μ) (r : Status × S) (next : S → Status × S)
    → (r.0 ≡ ok → P r.1)
    → ((s : S) → P s → (next s).0 ≡ ok → Q (next s).1)
    → (then_ok r next).0 ≡ ok
    → Q (then_ok r next).1
then_ok_success P Q (ok, s) next h k e = k s (h refl) e
then_ok_success P Q (_, s) next h k e = cc e

-- A failure keeps its status.
pub case_ok-status {ℓ} :
    {S : Type ℓ} (status : Status) (done : Status × S) (failed : Status → S)
    → (case_ok status done (λ e. (e, failed e))).0 ≡ ok
    → status ≡ ok
case_ok-status ok done failed h = refl
case_ok-status _ done failed h = cc h
