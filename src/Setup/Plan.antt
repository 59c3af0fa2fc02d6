-- ===== src/Setup/Plan.antt =====
-- What setup/src/main.rs asks Windows for, step by step, described apart from how it does it.
pub mod Steps
pub mod Removal
use ak1_driver.Prelude.{◌≡◌, refl, sym, ap, ◌∙◌, List, [], ◌∷◌, ◌++◌, append-nil, append_assoc}
use ak1_driver.Setup.{
  Request, Error, Result, ok, err, Log, System, Action, continue, ◌>>=◌, ◌>>◌, pure, raise, lift,
  exited, checked, checked_found, run, call, call_found, call_ignored,
}

-- Nothing is left of the steps of a run that did not fail.
abbrev pub IsDone : {A : Type 0} → Result A → List Request → Type 0
IsDone (ok a) rest = rest ≡ []
IsDone (err e) rest = Unit

-- From the log `log` on, the first of the steps were asked for, and all if the result is no error.
pub record Follows {A : Type 0} (log : Log) (steps : List Request) (r : Result A × Log)
    : Type 0 where
  pub asked : List Request
  pub rest : List Request
  pub split : steps ≡ asked ++ rest
  pub logged : r.1 ≡ log ++ asked
  pub whole : IsDone r.0 rest

-- An action that asks for the first of the steps, in their order, and for all of them unless it fails.
pub record Does {A : Type 0} (steps : List Request) (m : Action A) : Type 0 where
  pub at : (log : Log) → Follows log steps (m log)

pub Does-lift : {A : Type 0} (r : Result A) → Does [] (lift r)
Does-lift r = record {
  at = λ log. record {
    asked = [];
    rest = [];
    split = refl;
    logged = sym (append-nil log);
    whole = none_left r;
  };
}
  where
    none_left : {A : Type 0} (r : Result A) → IsDone r []
    none_left (ok a) = refl
    none_left (err e) = tt

pub Does-pure : {A : Type 0} (a : A) → Does [] (pure a)
Does-pure a = Does-lift (ok a)

-- A failure does the first none of any steps.
pub Does-raise : {A : Type 0} (steps : List Request) (e : Error) → Does steps (raise {A = A} e)
Does-raise steps e = record {
  at = λ log. record {
    asked = [];
    rest = steps;
    split = refl;
    logged = sym (append-nil log);
    whole = tt;
  };
}

Follows-continue :
    {A B : Type 0} (f : A → Action B) (log : Log) (first second : List Request) (r : Result A)
    (log' : Log)
    → ((a : A) → r ≡ ok a → Does second (f a))
    → Follows log first (r, log')
    → Follows log (first ++ second) (continue r f log')
Follows-continue f log first second (err e) log' kf h = record {
  asked = h.asked;
  rest = h.rest ++ second;
  split = ap (λ s. s ++ second) h.split ∙ append_assoc h.asked h.rest second;
  logged = h.logged;
  whole = tt;
}
Follows-continue f log first second (ok a) log' kf h =
    let g = (kf a refl).at log' in
    record {
      asked = h.asked ++ g.asked;
      rest = g.rest;
      split =
          (ap (λ s. s ++ second) (h.split ∙ ap (λ s. h.asked ++ s) h.whole ∙ append-nil h.asked)
            ∙ ap (λ s. h.asked ++ s) g.split
            ∙ sym (append_assoc h.asked g.asked g.rest));
      logged = g.logged ∙ ap (λ l. l ++ g.asked) h.logged ∙ append_assoc log h.asked g.asked;
      whole = g.whole;
    }

-- The rest may use how the first part ended.
pub Does-bind_ok :
    {A B : Type 0} (first second : List Request) (m : Action A) (f : A → Action B)
    → Does first m
    → ((log : Log) (a : A) → (m log).0 ≡ ok a → Does second (f a))
    → Does (first ++ second) (m >>= f)
Does-bind_ok first second m f km kf = record {
  at = λ log. Follows-continue f log first second (m log).0 (m log).1 (kf log) (km.at log);
}

pub Does-bind :
    {A B : Type 0} (first second : List Request) (m : Action A) (f : A → Action B)
    → Does first m
    → ((a : A) → Does second (f a))
    → Does (first ++ second) (m >>= f)
Does-bind first second m f km kf = Does-bind_ok first second m f km (λ log a e. kf a)

pub Does-then :
    {A B : Type 0} (first second : List Request) (m : Action A) (k : Action B)
    → Does first m
    → Does second k
    → Does (first ++ second) (m >> k)
Does-then first second m k km kk = Does-bind first second m (λ _. k) km (λ _. kk)

one :
    {A : Type 0} (request : Request) (r : Result A) (log : Log)
    → Follows log (request ∷ []) (r, log ++ (request ∷ []))
one request r log = record {
  asked = request ∷ [];
  rest = [];
  split = refl;
  logged = refl;
  whole = none_left r;
}
  where
    none_left : {A : Type 0} (r : Result A) → IsDone r []
    none_left (ok a) = refl
    none_left (err e) = tt

module _ (system : System) (request : Request) where
  pub Does-run : Does (request ∷ []) (run system request)
  unfolding run
  Does-run = record { at = λ log. one request (exited request (system.run log request)) log }

  pub Does-call : Does (request ∷ []) (call system request)
  unfolding call
  Does-call = record { at = λ log. one request (checked request (system.call log request)) log }

  pub Does-call_found : Does (request ∷ []) (call_found system request)
  unfolding call_found
  Does-call_found = record {
    at = λ log. one request (checked_found request (system.call log request)) log;
  }

  pub Does-call_ignored : Does (request ∷ []) (call_ignored system request)
  unfolding call_ignored
  Does-call_ignored = record { at = λ log. one request (ok tt) log }
