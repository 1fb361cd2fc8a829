-- ===== src/Gateway.antt =====
-- services/inference-gateway/messages.ts: the governed endpoint `POST /v1/messages`. Everything outside
-- acts on the world and on the tallies, which others may change meanwhile.
pub mod Body
pub mod Claims
pub mod Generate
pub mod Allowed
pub mod Grants
pub mod Laws
mod Tests
pub mod Turns
use Prim.Native.String
use creance.Prelude.{
  ℕ, ◌*◌, suc, String, Bool, true, false, Option, none, some, List, [], ◌∷◌, str_eq, ◌==◌,
  if◌then◌else◌,
}
use creance.Prelude.Int.{ℤ, pos, negsuc, ◌+ℤ◌, ◌-ℤ◌}
use creance.Prelude.Dict.{Dict, lookup}
use creance.Prelude.Outcome.{Outcome, returned, thrown, Action}
use creance.Ports.{TokenUsage}
use creance.Ports.Json.{Json, null, bool, num, str, arr, Number, integer, fractional}
use creance.Ports.Fields.{member, member_of}
use creance.Executor.Texts.{truthy}
use creance.Gate.{Principal, SpendStore, BudgetStatus, BudgetScopes}
use creance.Gate.Price.{Price, price_of, price_tokens, estimate_cost}
use creance.Gate.Local.{Config, reserve, settle}
use creance.FrontDoor.{AuthFailure, unauthorized, other}
use creance.App.Http.{without_bearer}
use creance.Gateway.Body.{to_bedrock_body, estimate_anthropic_input_tokens}

-- An upstream's error, by the fields that are read of it.
pub record Fault : Type 0 where
  pub name : String
  pub message : String

-- An upstream's answer, with the usage that it reports.
pub record Answer : Type 0 where
  pub json : Json
  pub usage : Option TokenUsage

-- An event of a stream, with the number of tokens that one of its type may report.
pub record Event : Type 0 where
  pub kind : String
  pub json : Json
  pub tokens : Option ℕ

-- What has been seen of a stream's usage.
pub record Seen : Type 0 where
  pub input_tokens : ℕ
  pub output_tokens : Option ℕ

or_seen : Option ℕ → ℕ → ℕ
or_seen none old = old
or_seen (some n) old = n

newer : Option ℕ → Option ℕ → Option ℕ
newer none old = old
newer (some n) old = some n

unfoldable pub see : Event → Seen → Seen
unfolding or_seen newer
see ev seen =
    if str_eq ev.kind "message_start"
    then record seen { input_tokens = or_seen ev.tokens seen.input_tokens }
    else if str_eq ev.kind "message_delta"
    then record seen { output_tokens = newer ev.tokens seen.output_tokens }
    else seen

unfoldable pub see_all : List Event → Seen → Seen
unfolding see
see_all [] seen = seen
see_all (ev ∷ more) seen = see_all more (see ev seen)

unfoldable pub unseen : Seen
unseen = record { input_tokens = 0; output_tokens = none }

-- A count times a price.
scaled : ℤ → ℕ → ℤ
scaled (pos n) price = pos (n * price)
scaled (negsuc n) price = pos 0 -ℤ pos (suc n * price)

-- `priceTokensUsd` of an estimate and of `max_tokens`, which may be negative.
unfoldable pub worst_usd : String → ℕ → ℤ → ℤ
unfolding scaled
worst_usd model input max_tokens =
    let p = price_of model in pos (input * p.input) +ℤ scaled max_tokens p.output

-- A fractional count stands for the integer below it.
count_of : Number → ℤ
count_of (integer n) = n
count_of (fractional below text) = below

unfoldable pub max_tokens_of : Option Json → Option ℤ
unfolding count_of
max_tokens_of (some (num n)) = some (count_of n)
max_tokens_of _ = none

unfoldable pub has_list : Option Json → Bool
has_list (some (arr items)) = true
has_list _ = false

abbrev pub is_null : Json → Bool
is_null null = true
is_null _ = false

unfoldable pub text_at : Option Json → Option String
text_at (some (str s)) = some s
text_at _ = none

-- `body.stream === true`
unfoldable pub is_true : Option Json → Bool
is_true (some (bool true)) = true
is_true _ = false

header_or : Option String → Option String → Option String
unfolding without_bearer
header_or (some s) fallback = some (without_bearer s)
header_or none fallback = fallback

unfoldable pub credential : Dict String → Option String
unfolding header_or lookup
credential headers = header_or (lookup "authorization" headers) (lookup "x-api-key" headers)

unfoldable pub scopes_of : Json → BudgetScopes
unfolding text_at member member_of
scopes_of body = record { session_id = text_at (member_of "user_id" (member "metadata" body)) }

-- What the endpoint answers: a refusal, an upstream's failure, its answer, or a stream, whose end is
-- its fault where it has one.
pub data MessagesReply : Type 0 where
  refused : (status : ℕ) (error : String) → MessagesReply
  over_budget : BudgetStatus → MessagesReply
  failed : Fault → MessagesReply
  answered : (model : String) → Answer → MessagesReply
  streamed :
      (model : String) (worst : ℤ) (events : List Event) (fault : Option Fault) → MessagesReply

-- `upstreamError`: the status of a failure.
unfoldable pub failure_status : Fault → ℕ
failure_status e = if str_eq e.name "ValidationException" then 400 else 502

module _ (S : SpendStore) (W : Type 0) where
  open S use {Store}

  abbrev pub State : Type 0
  State = W × Store

  -- The events until the stream ends or faults, what others do meanwhile, and whether closing the
  -- response throws.
  pub record Stream : Type 0 where
    pub events : List Event
    pub fault : Option Fault
    pub meanwhile : State → State
    pub close_throws : Bool

  pub record MessagesDeps : Type 0 where
    pub authenticate : Option String → Dict String → State → Outcome AuthFailure Principal × State
    pub gate : Config
    pub claim_model_for : Option (String → Action String State (Option (Option String)))
    pub resolve_model : Option String → Option String
    pub invoke : String → String → Json → State → Outcome Fault Answer × State
    pub invoke_stream : String → String → Json → State → Outcome Fault Stream × State

  abbrev pub Reply : Type 0
  Reply = Outcome String MessagesReply × State

  -- The gate reads the clock at the reservation, `now`, and again at the settlement, `later`.
  module _ (d : MessagesDeps) (now later : String) where
    -- The call's tenant, scopes and reservation, once it is made.
    module _ (tenant : String) (scopes : BudgetScopes) (model : String) (worst : ℤ) where
      -- `settleOnce`: the flag tells whether it has run.
      unfoldable pub settle_once : ℤ → Bool × Store → Bool × Store
      settle_once delta (true, s) = (true, s)
      settle_once delta (false, s) = (true, settle S d.gate later tenant delta scopes s)

      -- `settleToUsage`
      unfoldable pub settle_to_usage : Seen → Bool × Store → Bool × Store
      unfolding settle_once
      settle_to_usage seen settled = elim seen.output_tokens [
        | none ↦ settled
        | some output ↦
            settle_once (pos (price_tokens model seen.input_tokens output) -ℤ worst) settled
      ]

      -- The end of a stream; it is settled again where the first settling or the close has thrown.
      unfoldable pub finish_stream : Seen → Bool → Bool × Store → Bool × Store
      unfolding settle_to_usage
      finish_stream seen again settled =
          let once = settle_to_usage seen settled in
          if◌then◌else◌ {A = Bool × Store} again (settle_to_usage seen once) once

      unfoldable pub read_stream : Stream → State → Reply
      unfolding see_all unseen finish_stream
      read_stream stream st =
          let (w, s) = stream.meanwhile st in
          (
            returned (streamed model worst stream.events stream.fault),
            (w, (finish_stream (see_all stream.events unseen) stream.close_throws (false, s)).1),
          )

      unfoldable pub opened : Outcome Fault Stream × State → Reply
      unfolding read_stream settle_once
      opened (returned stream, st) = read_stream stream st
      opened (thrown e, (w, s)) =
          (returned (failed e), (w, (settle_once (pos 0 -ℤ worst) (false, s)).1))

      unfoldable pub invoked : Outcome Fault Answer × State → Reply
      unfolding settle_once
      invoked (returned answer, (w, s)) = (
        returned (answered model answer),
        (w, (settle_once (pos (estimate_cost model answer.usage) -ℤ worst) (false, s)).1),
      )
      invoked (thrown e, (w, s)) =
          (returned (failed e), (w, (settle_once (pos 0 -ℤ worst) (false, s)).1))

      -- A body that the translation throws on leaves the reservation.
      unfoldable pub sent : Bool → Option Json → State → Reply
      unfolding invoked opened
      sent streams none st = (thrown "a tool is null", st)
      sent true (some body) st = opened (d.invoke_stream model tenant body st)
      sent false (some body) st = invoked (d.invoke model tenant body st)

    unfoldable pub reserved :
        String → BudgetScopes → String → ℤ → Json → W → BudgetStatus × Store → Reply
    unfolding sent to_bedrock_body is_true
    reserved tenant scopes model worst body w (reservation, s) =
        if reservation.ok
        then sent tenant scopes model worst (is_true (member "stream" body)) (to_bedrock_body body)
            (w, s)
        else (returned (over_budget reservation), (w, s))

    unfoldable pub modelled : Principal → Json → ℤ → Option String → State → Reply
    unfolding reserved scopes_of worst_usd estimate_anthropic_input_tokens
    modelled p body max_tokens none st =
        (returned (refused 400 "no model: name one in the claim or request"), st)
    modelled p body max_tokens (some model) (w, s) =
        let worst = worst_usd model (estimate_anthropic_input_tokens body) max_tokens in
        reserved p.tenant (scopes_of body) model worst body w
          (reserve S d.gate now p.tenant worst (scopes_of body) s)

    -- The claim's model wins over the body's.
    unfoldable pub model_or : Option String → Option String → Option String
    model_or (some m) named = some m
    model_or none named = named

    unfoldable pub claimed :
        Principal → Json → ℤ → Outcome String (Option (Option String)) × State → Reply
    unfolding modelled model_or text_at
    claimed p body max_tokens (thrown e, st) = (thrown e, st)
    claimed p body max_tokens (returned none, st) = (
      returned (refused 403 (String.◌++◌ "no inference claim for '" (String.◌++◌ p.subject "'"))),
      st,
    )
    claimed p body max_tokens (returned (some claim_model), st) =
        modelled p body max_tokens
          (truthy (d.resolve_model (model_or claim_model (text_at (member "model" body))))) st

    unfoldable pub by_claim :
        Principal
        → Json
        → ℤ
        → Option (String → Action String State (Option (Option String)))
        → State
        → Reply
    unfolding claimed
    by_claim p body max_tokens none st = claimed p body max_tokens (returned (some none), st)
    by_claim p body max_tokens (some find) st = claimed p body max_tokens (find p.subject st)

    unfoldable pub bounded : Principal → Json → Option ℤ → State → Reply
    unfolding by_claim
    bounded p body none st = (returned (refused 400 "max_tokens is required"), st)
    bounded p body (some max_tokens) st = by_claim p body max_tokens d.claim_model_for st

    unfoldable pub parsed : Principal → Option Json → State → Reply
    unfolding bounded has_list max_tokens_of
    parsed p none st = (returned (refused 400 "invalid JSON body"), st)
    parsed p (some body) st =
        if is_null body
        then (thrown "the body is null", st)
        else if has_list (member "messages" body)
        then bounded p body (max_tokens_of (member "max_tokens" body)) st
        else (returned (refused 400 "missing 'messages' (array)"), st)

    unfoldable pub known : Option Json → Outcome AuthFailure Principal × State → Reply
    unfolding parsed
    known body (returned p, st) = parsed p body st
    known body (thrown unauthorized, st) = (returned (refused 401 "unauthorized"), st)
    known body (thrown (other e), st) = (thrown e, st)

    unfoldable pub handle_messages : Dict String → Option Json → State → Reply
    unfolding known credential
    handle_messages headers body st = known body (d.authenticate (credential headers) headers st)
