-- ===== src/Authn/First.antt =====
-- The candidate that decides (packages/core/src/adapters/composite-authenticator.ts).
use creance.Prelude.{String, Option, none, some, List, [], ◌∷◌, ◌++◌, ◌≡◌, refl, ap}
use creance.Prelude.Outcome.{Outcome, returned, thrown}
use creance.Gate.{Principal}
use creance.Authn.{
  AuthError, rejected, broken, AuthnContext, Authenticator, reason_or, after_candidate, try_all,
  composite,
}

pub first_of : List String → String
first_of [] = "no authenticator accepted the credential"
first_of (reason ∷ more) = reason

module _ {W : Type 0} (ctx : AuthnContext) where
  -- The candidates reject one after the other, for these reasons.
  pub data Rejects : List (Authenticator W) → W → W → List String → Type 0 where
    none_left : {w : W} → Rejects [] w w []
    rejects :
        {c : Authenticator W} {more : List (Authenticator W)} {w between w' : W} {reason : String}
        {reasons : List String}
        → c.authenticate ctx w ≡ (thrown (rejected reason), between)
        → Rejects more between w' reasons
        → Rejects (c ∷ more) w w' (reason ∷ reasons)

  -- One candidate decides, and those before it reject.
  pub record IsDecided (candidates : List (Authenticator W)) (w w' : W)
      (outcome : Outcome AuthError Principal) : Type 0 where
    pub before : List (Authenticator W)
    pub decider : Authenticator W
    pub rest : List (Authenticator W)
    pub split : candidates ≡ before ++ (decider ∷ rest)
    pub between : W
    pub reasons : List String
    pub passed : Rejects before w between reasons
    pub decided : decider.authenticate ctx between ≡ (outcome, w')

  -- All reject; `first` is a reason from before.
  pub record IsRejected (first : Option String) (candidates : List (Authenticator W)) (w w' : W)
      (reason : String) : Type 0 where
    pub reasons : List String
    pub all_reject : Rejects candidates w w' reasons
    pub of_first : reason ≡ reason_or first (first_of reasons)

  unfoldable pub Decides :
      Option String → List (Authenticator W) → W → Outcome AuthError Principal × W → Type 0
  Decides first candidates w (returned p, w') = IsDecided candidates w w' (returned p)
  Decides first candidates w (thrown (broken message), w') =
      IsDecided candidates w w' (thrown (broken message))
  Decides first candidates w (thrown (rejected reason), w') =
      IsRejected first candidates w w' reason

  IsDecided-later :
      (c : Authenticator W) (more : List (Authenticator W)) (w between w' : W) (reason : String)
      (outcome : Outcome AuthError Principal)
      → c.authenticate ctx w ≡ (thrown (rejected reason), between)
      → IsDecided more between w' outcome
      → IsDecided (c ∷ more) w w' outcome
  IsDecided-later c more w between w' reason outcome e d = record {
    before = c ∷ d.before;
    decider = d.decider;
    rest = d.rest;
    split = ap (λ cs. c ∷ cs) d.split;
    between = d.between;
    reasons = reason ∷ d.reasons;
    passed = rejects e d.passed;
    decided = d.decided;
  }

  later-Decides :
      (first : Option String) (c : Authenticator W) (more : List (Authenticator W)) (w between : W)
      (reason : String) (o : Outcome AuthError Principal × W)
      → c.authenticate ctx w ≡ (thrown (rejected reason), between)
      → Decides (some (reason_or first reason)) more between o
      → Decides first (c ∷ more) w o
  unfolding Decides reason_or first_of
  later-Decides first c more w between reason (returned p, w') e d =
      IsDecided-later c more w between w' reason (returned p) e d
  later-Decides first c more w between reason (thrown (broken message), w') e d =
      IsDecided-later c more w between w' reason (thrown (broken message)) e d
  later-Decides first c more w between reason (thrown (rejected last), w') e d = record {
    reasons = reason ∷ d.reasons;
    all_reject = rejects e d.all_reject;
    of_first = d.of_first;
  }

  IsDecided-now :
      (c : Authenticator W) (more : List (Authenticator W)) (w w' : W)
      (outcome : Outcome AuthError Principal)
      → c.authenticate ctx w ≡ (outcome, w')
      → IsDecided (c ∷ more) w w' outcome
  IsDecided-now c more w w' outcome e = record {
    before = [];
    decider = c;
    rest = more;
    split = refl;
    between = w;
    reasons = [];
    passed = none_left;
    decided = e;
  }

  after_candidate-Decides :
      (first : Option String) (c : Authenticator W) (more : List (Authenticator W)) (w : W)
      (o : Outcome AuthError Principal × W)
      → c.authenticate ctx w ≡ o
      → ((reason : String) (between : W)
          → Decides (some reason) more between (try_all more ctx (some reason) between))
      → Decides first
          (c ∷ more)
          w
          (after_candidate (λ reason. try_all more ctx (some reason)) first o)
  unfolding Decides after_candidate
  after_candidate-Decides first c more w (returned p, w') e rest =
      IsDecided-now c more w w' (returned p) e
  after_candidate-Decides first c more w (thrown (broken message), w') e rest =
      IsDecided-now c more w w' (thrown (broken message)) e
  after_candidate-Decides first c more w (thrown (rejected reason), between) e rest =
      later-Decides first c more w between reason _ e (rest (reason_or first reason) between)

  try_all-Decides :
      (candidates : List (Authenticator W)) (first : Option String) (w : W)
      → Decides first candidates w (try_all candidates ctx first w)
  unfolding Decides try_all first_of
  try_all-Decides [] first w = record { reasons = []; all_reject = none_left; of_first = refl }
  try_all-Decides (c ∷ more) first w =
      after_candidate-Decides first c more w _ refl
        (λ reason between. try_all-Decides more (some reason) between)

  -- What a composite that is built does.
  abbrev pub Composes : List (Authenticator W) → W → Outcome String (Authenticator W) → Type 0
  Composes candidates w (returned a) = Decides none candidates w (a.authenticate ctx w)
  Composes candidates w (thrown e) = candidates ≡ []

  -- A composite authenticates a caller as its first candidate does that does not reject the caller; it
  -- throws where this candidate breaks, and the later ones are not asked. It rejects a caller only where
  -- every candidate does, with the reason of the first. There is one for any candidates but none.
  pub composite-Composes :
      (candidates : List (Authenticator W)) (w : W) → Composes candidates w (composite candidates)
  unfolding composite
  composite-Composes [] w = refl
  composite-Composes (c ∷ more) w = try_all-Decides (c ∷ more) none w
