-- ===== src/Gateway/Grants.antt =====
-- What `POST /claims` grants (services/inference-gateway/claims.ts).
use creance.Prelude.{String, Option, none, some, ◌≡◌, refl, ap, sym}
use creance.Prelude.Dict.{Dict}
use creance.Prelude.Outcome.{Outcome, returned, thrown}
use creance.Ports.Json.{Json, null}
use creance.Executor.Texts.{truthy}
use creance.Gate.Caps.{Amount}
use creance.Gateway.Claims.{
  InferenceClaim, ClaimFault, ClaimReply, refused, rejected, created, ClaimWrite, claim_of, stored,
  judged, read, by_subject, verified, by_token, bearer_of, handle_create_claim,
}
use creance.Gateway.Allowed.{IsAllowed, Allows, validate_claim-Allows}

module _ (W : Type 0) (number_of : Json → Amount) (d : ClaimWrite W number_of) where
  -- A claim that has been granted: its tenant and its account are the identity that the token is
  -- verified as, it is within the allowance, and it has been put where claims are kept.
  pub record IsGranted (headers : Dict String) (w w' : W) (claim : InferenceClaim) : Type 0 where
    pub token : String
    pub presented : bearer_of headers ≡ some token
    pub subject : Option String
    pub between : W
    pub identified : d.verify_identity token w ≡ (returned subject, between)
    pub owned : truthy subject ≡ some claim.tenant
    pub accounted : claim.service_account ≡ some claim.tenant
    pub allowed : IsAllowed claim d.allowance
    pub put : d.put_claim claim between ≡ (returned tt, w')

  -- The world once the token is verified, where there is one.
  pub after : Option String → W → W
  after none w = w
  after (some token) w = (d.verify_identity token w).1

  unfoldable pub Grants : Dict String → W → Outcome String ClaimReply × W → Type 0
  Grants headers w (thrown e, w') = Unit
  Grants headers w (returned (refused status error), w') = w' ≡ after (bearer_of headers) w
  Grants headers w (returned (rejected fault), w') = w' ≡ after (bearer_of headers) w
  Grants headers w (returned (created claim), w') = IsGranted headers w w' claim

  module _ (headers : Dict String) (w : W) (token : String)
      (presented : bearer_of headers ≡ some token) (subject : Option String) (s : String)
      (named : truthy subject ≡ some s) (between : W)
      (identified : d.verify_identity token w ≡ (returned subject, between)) where
    after_lem : between ≡ after (bearer_of headers) w
    unfolding after
    after_lem = rw presented (sym (ap (λ r. r.1) identified))

    stored-Grants :
        (body : Json) (o : Outcome String Unit × W)
        → IsAllowed (claim_of W number_of s body) d.allowance
        → d.put_claim (claim_of W number_of s body) between ≡ o
        → Grants headers w (stored W number_of d (claim_of W number_of s body) o)
    unfolding Grants stored claim_of
    stored-Grants body (thrown e, w') allowed put = tt
    stored-Grants body (returned done, w') allowed put = record {
      token = token;
      presented = presented;
      subject = subject;
      between = between;
      identified = identified;
      owned = named;
      accounted = refl;
      allowed = allowed;
      put = put;
    }

    judged-Grants :
        (body : Json) (verdict : Option ClaimFault)
        → Allows (claim_of W number_of s body) d.allowance verdict
        → Grants headers w (judged W number_of d (claim_of W number_of s body) verdict between)
    unfolding Grants judged Allows
    judged-Grants body (some fault) allowed = after_lem
    judged-Grants body none allowed = stored-Grants body _ allowed refl

    read-Grants : (body : Option Json) → Grants headers w (read W number_of d s body between)
    unfolding Grants read
    read-Grants none = after_lem
    read-Grants (some null) = tt
    read-Grants (some body) = judged-Grants body _ (validate_claim-Allows _ d.allowance)

  by_subject-Grants :
      (headers : Dict String) (w : W) (token : String) (body : Option Json)
      (subject : Option String) (s : Option String) (between : W)
      → bearer_of headers ≡ some token
      → truthy subject ≡ s
      → d.verify_identity token w ≡ (returned subject, between)
      → Grants headers w (by_subject W number_of d body s between)
  unfolding Grants by_subject after
  by_subject-Grants headers w token body subject none between presented named identified =
      rw presented (sym (ap (λ r. r.1) identified))
  by_subject-Grants headers w token body subject (some s) between presented named identified =
      read-Grants headers w token presented subject s named between identified body

  verified-Grants :
      (headers : Dict String) (w : W) (token : String) (body : Option Json)
      (o : Outcome String (Option String) × W)
      → bearer_of headers ≡ some token
      → d.verify_identity token w ≡ o
      → Grants headers w (verified W number_of d body o)
  unfolding Grants verified
  verified-Grants headers w token body (thrown e, between) presented identified = tt
  verified-Grants headers w token body (returned subject, between) presented identified =
      by_subject-Grants headers w token body subject _ between presented refl identified

  by_token-Grants :
      (headers : Dict String) (body : Option Json) (token : Option String) (w : W)
      → bearer_of headers ≡ token
      → Grants headers w (by_token W number_of d body token w)
  unfolding Grants by_token after
  by_token-Grants headers body none w absent = rw absent refl
  by_token-Grants headers body (some token) w presented =
      verified-Grants headers w token body _ presented refl

  -- A claim that the endpoint creates was put for the identity that the bearer token is verified as,
  -- which is its tenant and its account, and is within the allowance: its monthly budget is finite, not
  -- negative and at most the allowance's, its session budget is not over that (NaN passes), and its model is
  -- one that is allowed. An answer that creates none leaves the world as verifying the token leaves it.
  pub handle_create_claim-Grants :
      (headers : Dict String) (body : Option Json) (w : W)
      → Grants headers w (handle_create_claim W number_of d headers body w)
  unfolding handle_create_claim
  handle_create_claim-Grants headers body w = by_token-Grants headers body _ w refl
