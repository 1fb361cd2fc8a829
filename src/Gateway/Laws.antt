-- ===== src/Gateway/Laws.antt =====
-- What a governed call leaves on the tallies (services/inference-gateway/messages.ts): it is settled
-- once, to what it has cost.
use creance.Prelude.{
  ℕ, String, Bool, true, false, Option, none, some, ◌≡◌, refl, ◌∙◌, inl, inr, if-both, Bool-cases,
}
use creance.Prelude.Int.{ℤ, pos, ◌+ℤ◌, ◌-ℤ◌, int_laws}
use creance.Prelude.Text.{Lacks}
use creance.Prelude.Outcome.{Outcome, returned, thrown, Action}
use creance.Ports.Json.{Json}
use creance.Ports.Fields.{member}
use creance.Executor.Texts.{truthy}
use creance.Gate.{Principal, SpendStore, BudgetScopes, current_period}
use creance.Gate.Price.{price_tokens, estimate_cost}
use creance.Gate.Local.{session_on, reserve, settle}
use creance.Gate.Local.Laws.{
  charge, session_charge, charge_diff, session_charge_diff, charge_zero, session_charge_zero,
  reserve-Booked, get-settle,
}
use creance.Gateway.Body.{to_bedrock_body}
use creance.Gateway.{
  Fault, Answer, Seen, see_all, unseen, max_tokens_of, has_list, text_at, is_true, scopes_of,
  MessagesReply, refused, answered, streamed, State, Stream, MessagesDeps, Reply, settle_once,
  settle_to_usage, finish_stream, read_stream, opened, invoked, sent, reserved, modelled, claimed,
  by_claim, bounded, parsed, is_null, model_or,
}

-- What a stream costs: the price of the usage that it has reported, or else its worst case.
abbrev pub stream_cost : String → ℤ → ℕ → Option ℕ → ℤ
stream_cost model worst input none = worst
stream_cost model worst input (some output) = pos (price_tokens model input output)

abbrev pub cost : MessagesReply → ℤ
cost (answered model answer) = pos (estimate_cost model answer.usage)
cost (streamed model worst events fault) =
    let seen = see_all events unseen in stream_cost model worst seen.input_tokens seen.output_tokens
cost _ = pos 0

abbrev pub cost_of : Outcome String MessagesReply → ℤ
cost_of (returned r) = cost r
cost_of (thrown e) = pos 0

module _ (S : SpendStore) (W : Type 0) (d : MessagesDeps S W) (now later : String)
    (p : Principal) where
  open S use {Store, get}

  -- The tally once a stream that is opened has ended.
  abbrev pub tally_after : String → String → Outcome Fault (Stream S W) × State S W → ℤ
  tally_after t' p' (returned stream, st) = get t' p' (stream.meanwhile st).1
  tally_after t' p' (thrown e, st) = get t' p' st.1

  -- Nothing outside changes the tally, and what others do until a stream has ended does not either.
  pub record KeepsTally (t' p' : String) : Type 0 where
    pub invokes :
        (model tenant : String) (body : Json) (st : State S W)
        → get t' p' (d.invoke model tenant body st).1.1 ≡ get t' p' st.1
    pub opens :
        (model tenant : String) (body : Json) (st : State S W)
        → tally_after t' p' (d.invoke_stream model tenant body st) ≡ get t' p' st.1
    pub finds :
        (find : String → Action String (State S W) (Option (Option String)))
        → d.claim_model_for ≡ some find
        → (subject : String) (st : State S W) → get t' p' (find subject st).1.1 ≡ get t' p' st.1

  module _ (scopes : BudgetScopes) (t' p' : String) (k : KeepsTally t' p')
      (clean : Lacks 0 p.tenant) (clean' : Lacks 0 t')
      (month : current_period later ≡ current_period now) where
    -- An amount at the tenant's month and the session, as this tally sees it.
    abbrev pub billed : ℤ → ℤ
    billed w =
        charge p.tenant (current_period now) t' p' w
        +ℤ session_charge p.tenant (session_on d.gate scopes) t' p' w

    billed_diff : (v w : ℤ) → billed (v -ℤ w) ≡ billed v -ℤ billed w
    billed_diff v w =
        rw
          (
            charge_diff p.tenant (current_period now) t' p' v w,
            session_charge_diff p.tenant t' p' (session_on d.gate scopes) v w,
          )
          (omega int_laws)

    billed_zero : billed (pos 0) ≡ pos 0
    billed_zero =
        rw
          (
            charge_zero p.tenant (current_period now) t' p',
            session_charge_zero p.tenant t' p' (session_on d.gate scopes),
          )
          (omega int_laws)

    module _ (model : String) (worst before : ℤ) where
      settled_to :
          (v : ℤ) (s : Store)
          → get t' p' s ≡ before +ℤ billed worst
          → get t' p' (settle S d.gate later p.tenant (v -ℤ worst) scopes s) ≡ before +ℤ billed v
      settled_to v s held =
          rw (get-settle S d.gate later p.tenant t' p' (v -ℤ worst) scopes s clean clean')
            (rw (month, held, billed_diff v worst) (omega int_laws))

      -- A second settling changes nothing.
      finish_stream-cost :
          (seen : Seen) (again : Bool) (o : Option ℕ) (s : Store)
          → seen.output_tokens ≡ o
          → get t' p' s ≡ before +ℤ billed worst
          → get t' p'
              (finish_stream S W d now later p.tenant scopes model worst seen again (false, s)).1
            ≡ before +ℤ billed (stream_cost model worst seen.input_tokens o)
      unfolding finish_stream settle_to_usage settle_once
      finish_stream-cost seen true none s e held = rw e held
      finish_stream-cost seen false none s e held = rw e held
      finish_stream-cost seen true (some output) s e held = rw e (settled_to _ s held)
      finish_stream-cost seen false (some output) s e held = rw e (settled_to _ s held)

      abbrev Settled : Reply S W → Type 0
      Settled r = get t' p' r.1.1 ≡ before +ℤ billed (cost_of r.0)

      read_stream-Settled :
          (stream : Stream S W) (st : State S W)
          → get t' p' (stream.meanwhile st).1 ≡ before +ℤ billed worst
          → Settled (read_stream S W d now later p.tenant scopes model worst stream st)
      unfolding read_stream
      read_stream-Settled stream st held =
          finish_stream-cost (see_all stream.events unseen) stream.close_throws _
            (stream.meanwhile st).1 refl held

      opened-Settled :
          (r : Outcome Fault (Stream S W) × State S W)
          → tally_after t' p' r ≡ before +ℤ billed worst
          → Settled (opened S W d now later p.tenant scopes model worst r)
      unfolding opened settle_once
      opened-Settled (returned stream, st) held = read_stream-Settled stream st held
      opened-Settled (thrown e, (w, s)) held = settled_to (pos 0) s held

      invoked-Settled :
          (r : Outcome Fault Answer × State S W)
          → get t' p' r.1.1 ≡ before +ℤ billed worst
          → Settled (invoked S W d now later p.tenant scopes model worst r)
      unfolding invoked settle_once
      invoked-Settled (returned answer, (w, s)) held = settled_to _ s held
      invoked-Settled (thrown e, (w, s)) held = settled_to (pos 0) s held

      sent-Settled :
          (streams : Bool) (body : Json) (st : State S W)
          → get t' p' st.1 ≡ before +ℤ billed worst
          → Settled (sent S W d now later p.tenant scopes model worst streams (some body) st)
      unfolding sent
      sent-Settled true body st held =
          opened-Settled (d.invoke_stream model p.tenant body st)
            (k.opens model p.tenant body st ∙ held)
      sent-Settled false body st held =
          invoked-Settled (d.invoke model p.tenant body st)
            (k.invokes model p.tenant body st ∙ held)

  module _ (body : Json) (t' p' : String) (k : KeepsTally t' p') (clean : Lacks 0 p.tenant)
      (clean' : Lacks 0 t') (month : current_period later ≡ current_period now)
      (sendable : (b : Json) × (to_bedrock_body body ≡ some b)) where
    -- The tally reads what it read before plus what the call has cost.
    abbrev pub IsBilled : ℤ → Reply S W → Type 0
    IsBilled before r =
        get t' p' r.1.1 ≡ before +ℤ billed (scopes_of body) t' p' k clean clean' month (cost_of r.0)

    free :
        (s : Store)
        → get t' p' s ≡ get t' p' s +ℤ billed (scopes_of body) t' p' k clean clean' month (pos 0)
    free s = rw (billed_zero (scopes_of body) t' p' k clean clean' month) (omega int_laws)

    reserved-IsBilled :
        (model : String) (worst : ℤ) (w : W) (s : Store)
        → IsBilled (get t' p' s) (
            reserved S W d now later p.tenant
              (scopes_of body)
              model
              worst
              body
              w
              (reserve S d.gate now p.tenant worst (scopes_of body) s))
    unfolding reserved
    reserved-IsBilled model worst w s =
        let booked =
          reserve-Booked S d.gate now p.tenant t' p' worst (scopes_of body) s clean clean' in
        let (b, translated) = sendable in
        elim (Bool-cases (reserve S d.gate now p.tenant worst (scopes_of body) s).0.ok) [
          | inl ok ↦
              rw (ok, translated)
                (sent-Settled (scopes_of body) t' p' k clean clean' month model worst (get t' p' s)
                  (is_true (member "stream" body)) b _ (booked ∙ rw ok))
          | inr broke ↦
              rw broke
                (booked ∙ rw broke (rw (billed_zero (scopes_of body) t' p' k clean clean' month)))
        ]

    refuses-IsBilled :
        (status : ℕ) (error : String) (st : State S W)
        → IsBilled (get t' p' st.1) (returned (refused status error), st)
    refuses-IsBilled status error st = free st.1

    throws-IsBilled : (e : String) (st : State S W) → IsBilled (get t' p' st.1) (thrown e, st)
    throws-IsBilled e st = free st.1

    modelled-IsBilled :
        (max_tokens : ℤ) (model : Option String) (st : State S W)
        → IsBilled (get t' p' st.1) (modelled S W d now later p body max_tokens model st)
    unfolding modelled
    modelled-IsBilled max_tokens none st = free st.1
    modelled-IsBilled max_tokens (some model) (w, s) = reserved-IsBilled model _ w s

    claimed-IsBilled :
        (max_tokens before : ℤ) (r : Outcome String (Option (Option String)) × State S W)
        → get t' p' r.1.1 ≡ before
        → IsBilled before (claimed S W d now later p body max_tokens r)
    unfolding claimed
    claimed-IsBilled max_tokens before (thrown e, st) same = rw (← same) (throws-IsBilled e st)
    claimed-IsBilled max_tokens before (returned none, st) same = rw (← same) (free st.1)
    claimed-IsBilled max_tokens before (returned (some named), st) same = rw (← same) (
        modelled-IsBilled max_tokens
          (truthy
            (d.resolve_model (model_or S W d now later named (text_at (member "model" body)))))
          st)

    by_claim-IsBilled :
        (max_tokens : ℤ)
        (finder : Option (String → Action String (State S W) (Option (Option String))))
        (st : State S W)
        → d.claim_model_for ≡ finder
        → IsBilled (get t' p' st.1) (by_claim S W d now later p body max_tokens finder st)
    unfolding by_claim
    by_claim-IsBilled max_tokens none st e =
        claimed-IsBilled max_tokens _ (returned (some none), st) refl
    by_claim-IsBilled max_tokens (some find) st e =
        claimed-IsBilled max_tokens _ (find p.subject st) (k.finds find e p.subject st)

    bounded-IsBilled :
        (max_tokens : Option ℤ) (st : State S W)
        → IsBilled (get t' p' st.1) (bounded S W d now later p body max_tokens st)
    unfolding bounded
    bounded-IsBilled none st = free st.1
    bounded-IsBilled (some max_tokens) st = by_claim-IsBilled max_tokens d.claim_model_for st refl

    -- Once its caller is authenticated, a call leaves on every tally what it read before plus, at the
    -- tenant's month and at the session of the body, what the call has cost: nothing where it is
    -- refused, throws or the upstream fails, the price of the usage that the answer or the stream
    -- reports, and the worst case of a stream that reports none. It is settled in the month in which it
    -- was reserved, what is outside leaves the tally alone,
    -- no tenant's name holds NUL, and the body has no tool that is null.
    pub parsed-IsBilled :
        (st : State S W) → IsBilled (get t' p' st.1) (parsed S W d now later p (some body) st)
    unfolding parsed
    parsed-IsBilled st =
        if-both (IsBilled (get t' p' st.1)) (is_null body) (thrown "the body is null", st) _
          (throws-IsBilled "the body is null" st)
          (if-both (IsBilled (get t' p' st.1)) (has_list (member "messages" body))
            (bounded S W d now later p body (max_tokens_of (member "max_tokens" body)) st)
            (returned (refused 400 "missing 'messages' (array)"), st)
            (bounded-IsBilled (max_tokens_of (member "max_tokens" body)) st)
            (refuses-IsBilled 400 "missing 'messages' (array)" st))
