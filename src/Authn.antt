-- ===== src/Authn.antt =====
-- The authenticators that need no library (packages/core/src/adapters): CompositeAuthenticator
-- (composite-authenticator.ts), StaticTokenAuthenticator (static-token-authenticator.ts) and, in
-- Authn/Opa, OpaAuthorizer.
pub mod First
pub mod Opa
mod Tests
pub mod Tokens
use Prim.Native.String
use creance.Prelude.{String, Option, none, some, List, [], ◌∷◌, map}
use creance.Prelude.Text.{◌<>◌}
use creance.Prelude.Dict.{Dict}
use creance.Prelude.Outcome.{Outcome, returned, thrown, Action}
use creance.Gate.{Principal}

-- An `UnauthorizedError`, with its message, or another error.
pub data AuthError : Type 0 where
  rejected : (reason : String) → AuthError
  broken : (message : String) → AuthError

pub record AuthnContext : Type 0 where
  pub credential : Option String
  pub headers : Dict String

pub record Authenticator (W : Type 0) : Type 0 where
  pub name : String
  pub authenticate : AuthnContext → Action AuthError W Principal

unfoldable pub reason_or : Option String → String → String
reason_or (some first) reason = first
reason_or none reason = reason

-- `.join(",")`
joined_names : List String → String
joined_names [] = ""
joined_names (name ∷ []) = name
joined_names (name ∷ more) = name <> "," <> joined_names more

module _ {W : Type 0} where
  -- The next candidate is asked where this one rejects; the first reason is kept.
  unfoldable pub after_candidate :
      (String → Action AuthError W Principal)
      → Option String
      → Outcome AuthError Principal × W
      → Outcome AuthError Principal × W
  unfolding reason_or
  after_candidate next first (returned p, w) = (returned p, w)
  after_candidate next first (thrown (rejected reason), w) = next (reason_or first reason) w
  after_candidate next first (thrown (broken message), w) = (thrown (broken message), w)

  unfoldable pub try_all :
      List (Authenticator W) → AuthnContext → Option String → Action AuthError W Principal
  unfolding after_candidate reason_or
  try_all [] ctx first w =
      (thrown (rejected (reason_or first "no authenticator accepted the credential")), w)
  try_all (c ∷ more) ctx first w =
      after_candidate (λ reason. try_all more ctx (some reason)) first (c.authenticate ctx w)

  unfoldable pub composite : List (Authenticator W) → Outcome String (Authenticator W)
  unfolding try_all joined_names
  composite [] = thrown "composite requires at least one authenticator"
  composite (c ∷ more) = returned (record {
    name = "composite(" <> joined_names (map (λ a. a.name) (c ∷ more)) <> ")";
    authenticate = λ ctx w. try_all (c ∷ more) ctx none w;
  })
