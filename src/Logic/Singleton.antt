-- ===== src/Logic/Singleton.antt =====
-- `Singleton`, example/logicServer/Singleton.h. `std::call_once` runs its function in one of the calls
-- and lets the others wait for it, so the calls are a sequence; `new_t` is the object that `new T` gives
-- in the call that makes one.
use asio_learn.Base.{◌≡◌, refl, ap, List, [], ◌∷◌, Option, none, some, map}

-- `GetInstance`: `_instance` after the call, and what it returns.
unfoldable pub get_instance {ℓ} : {A : Type ℓ} → Option A → A → Option A × A
get_instance none new_t = (some new_t, new_t)
get_instance (some t) new_t = (some t, t)

-- Some calls, of whichever threads.
unfoldable pub instances {ℓ} : {A : Type ℓ} → Option A → List A → List A
instances o [] = []
instances o (new_t ∷ later) = let (o', t) = get_instance o new_t in t ∷ instances o' later

-- All calls return the object that the first one made.
instances-some {ℓ} :
    {A : Type ℓ} (t : A) (later : List A) → instances (some t) later ≡ map (λ _. t) later
unfolding instances get_instance
instances-some t [] = refl
instances-some t (new_t ∷ later) = ap (◌∷◌ t) (instances-some t later)
