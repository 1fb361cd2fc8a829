-- ===== src/A2a/Laws.antt =====
-- What the A2A surface answers and changes.
use Prim.Native.Char.{code}
use creance.Prelude.{
  false, ◌∙◌, subst, String, Option, none, some, ◌≡◌, refl, sym, ap, ◌≢◌, ◌⊎◌, inl, inr, ◌==◌,
  arith, str_eq, eq_iff, Bool-cases,
}
use creance.Prelude.Dict.{Dict}
use creance.Prelude.Outcome.{Outcome, returned, thrown, Ends}
use creance.Ports.Json.{Json, null, bool, num, str, arr, obj}
use creance.Executor.Texts.{is_space, trim, trim_start, trim_end}
use creance.FrontDoor.Texts.{joined}
use creance.Ports.Fields.{member, member_of}
use creance.Gate.{SpendStore}
use creance.Runs
use creance.Runs.{Run}
use creance.FrontDoor.{GateOutcome, accepted, refused, State, Providers, authorize_and_create}
use creance.FrontDoor.Laws.{Answers, IsAdmitted, authorize_and_create-IsAdmitted, get-IsAdmitted}
use creance.A2a.{rpc_ok, A2aReply, rpc, run_to_task}
use creance.A2a.Handler.{
  text_parts, is_text, task_of, agent_of, asked_id, sent_request, answered, send, got, by_method,
  handle_a2a,
}

-- The text has a character that is no white space.
pub HasInk : String → Type 0
HasInk String.[] = ⊥
HasInk (String.◌∷◌ c s) = (is_space (code c) ≡ false) ⊎ HasInk s

trim_end-HasInk : (s : String) → trim_end s ≢ "" → HasInk (trim_end s)
unfolding trim_end HasInk
trim_end-HasInk String.[] written = written refl
trim_end-HasInk (String.◌∷◌ c s) written = elim (Bool-cases (str_eq (trim_end s) "")) [
  | inl ends ↦ elim (Bool-cases (is_space (code c))) [
    | inl space ↦
        let nothing : trim_end (String.◌∷◌ c s) ≡ "" = rw (space, ends) refl in
        absurd (written nothing)
    | inr ink ↦ rw ink (inl ink)
  ]
  | inr more ↦ elim (Bool-cases (is_space (code c))) [
    | inl space ↦
        rw (space, more)
          (inr (trim_end-HasInk s (λ same. absurd (ground (arith, eq_iff (trim_end s) "")))))
    | inr ink ↦ rw ink (inl ink)
  ]
]

task_of-HasInk :
    (parts : Option Json) (task : String) → task_of parts ≡ some task → (task ≢ "") → HasInk task
unfolding task_of trim
task_of-HasInk none task e written = let same : "" ≡ task = cc in absurd (written (sym same))
task_of-HasInk (some null) task e written = let same : "" ≡ task = cc in absurd (written (sym same))
task_of-HasInk (some (arr items)) task e written =
    let text = trim_start (joined "\n" (text_parts items)) in
    let same : trim_end text ≡ task = cc in
    subst HasInk same (trim_end-HasInk text (λ none_left. written (sym same ∙ none_left)))
task_of-HasInk (some (bool b)) task e written = absurd cc
task_of-HasInk (some (num n)) task e written = absurd cc
task_of-HasInk (some (str s)) task e written = absurd cc
task_of-HasInk (some (obj fields)) task e written = absurd cc

module _ (S : SpendStore) (W : Type 0) (d : Providers S W) (clock now run_id : String)
    (default_agent : Option String) (credential : Option String) (headers : Dict String) where
  -- A task that is answered is that of a stored run.
  abbrev pub IsShown : A2aReply → State S W → Type 0
  IsShown (rpc (rpc_ok id t)) st =
      (key : String) × (run : Run) × (Runs.get key st.1.1 ≡ some run) × (t ≡ run_to_task run)
  IsShown _ st = Unit

  -- The state is what the gate sequence leaves for a request of the same caller, or as it was.
  abbrev pub IsGated : State S W → State S W → Type 0
  IsGated st st' =
      (st' ≡ st)
      ⊎ ((agent : Option String) × (task : String) × HasInk task
          × (st'
              ≡ (authorize_and_create S W d clock now run_id
                  (sent_request S W d clock now run_id default_agent credential headers agent task)
                  st).1))

  abbrev pub Handles : State S W → Outcome String A2aReply × State S W → Type 0
  Handles st r = Ends (λ reply st'. IsShown reply st' × IsGated st st') (λ e st'. IsGated st st') r

  answered-Handles :
      (id : Option Json) (agent : Option String) (task : String) (st : State S W)
      (r : Outcome String GateOutcome × State S W)
      → HasInk task
      → authorize_and_create S W d clock now run_id
          (sent_request S W d clock now run_id default_agent credential headers agent task)
          st
        ≡ r
      → Answers S W d clock now run_id
          (sent_request S W d clock now run_id default_agent credential headers agent task)
          (IsAdmitted S W d clock now run_id
            (sent_request S W d clock now run_id default_agent credential headers agent task)
            st.0
            st.1.0
            st.1.1)
          st.1.0
          st.1.1
          r
      → Handles st (answered S W d clock now run_id default_agent credential headers id r)
  unfolding answered
  answered-Handles id agent task st (thrown e, st') some_text at h =
      inr (agent, task, some_text, ap (λ x. x.1) (sym at))
  answered-Handles id agent task st (returned (accepted run), st') some_text at h = (
    (run.id, run, get-IsAdmitted S W d clock now run_id _ st.0 st.1.0 st.1.1 run st' h, refl),
    inr (agent, task, some_text, ap (λ x. x.1) (sym at)),
  )
  answered-Handles id agent task st (returned (refused status why), st') some_text at h =
      elim (Bool-cases (status == 401)) [
        | inl stranger ↦ rw stranger (tt, inr (agent, task, some_text, ap (λ x. x.1) (sym at)))
        | inr other ↦ rw other (tt, inr (agent, task, some_text, ap (λ x. x.1) (sym at)))
      ]

  send-Handles :
      (id params : Option Json) (task : Option String) (st : State S W)
      → ((text : String) → task ≡ some text → (text ≢ "") → HasInk text)
      → Handles st (send S W d clock now run_id default_agent credential headers id params task st)
  unfolding send
  send-Handles id params none st ink = inl refl
  send-Handles id params (some task) st ink = elim (Bool-cases (str_eq task "")) [
    | inl blank ↦ rw blank (tt, inl refl)
    | inr written ↦ rw written (
        answered-Handles id (agent_of params default_agent) task st _
          (ink task refl (λ same. absurd (ground (arith, eq_iff task "")))) refl
          (authorize_and_create-IsAdmitted S W d clock now run_id _ st.0 st.1.0 st.1.1))
  ]

  got-Handles :
      (id : Option Json) (key : String) (found : Option Run) (st : State S W)
      → Runs.get key st.1.1 ≡ found
      → Handles st (got S W d clock now run_id default_agent credential headers id found st)
  unfolding got
  got-Handles id key none st at = (tt, inl refl)
  got-Handles id key (some run) st at = ((key, run, at, refl), inl refl)

  by_method-Handles :
      (id method params : Option Json) (st : State S W)
      → Handles st
          (by_method S W d clock now run_id default_agent credential headers id method params st)
  unfolding by_method
  by_method-Handles id method params st = elim (Bool-cases (is_text "message/send" method)) [
    | inl sends ↦ rw sends (
        send-Handles id params (task_of (member_of "parts" (member_of "message" params))) st
          (task_of-HasInk (member_of "parts" (member_of "message" params))))
    | inr other ↦ elim (Bool-cases (is_text "tasks/get" method)) [
      | inl gets ↦ rw (other, gets) (got-Handles id (asked_id (member_of "id" params)) _ st refl)
      | inr unknown ↦ rw (other, unknown) (tt, inl refl)
    ]
  ]

  -- Whatever the body of a call, a task that is answered is that of a run which is stored then, and
  -- the state is as it was, or it is what the gate sequence leaves for a request of this caller's
  -- credential with a task that is not all white space; the same holds of the state where the call throws.
  pub handle_a2a-Handles :
      (body : Option Json) (st : State S W)
      → Handles st (handle_a2a S W d clock now run_id default_agent credential headers body st)
  unfolding handle_a2a
  handle_a2a-Handles none st = (tt, inl refl)
  handle_a2a-Handles (some body) st = by_method-Handles _ _ _ st

  -- A `tasks/get` call that names a stored run is answered with its task whatever credential and
  -- headers the caller has: no authenticator is asked, and the state stays as it was.
  pub handle_a2a-tasks_get :
      (body : Json) (key : String) (run : Run) (st : State S W)
      → member "method" body ≡ some (str "tasks/get")
      → member_of "id" (member "params" body) ≡ some (str key)
      → Runs.get key st.1.1 ≡ some run
      → handle_a2a S W d clock now run_id default_agent credential headers (some body) st
        ≡ (returned (rpc (rpc_ok (member "id" body) (run_to_task run))), st)
  unfolding handle_a2a by_method got is_text asked_id
  handle_a2a-tasks_get body key run st method params stored =
      rw (handle_a2a, method, by_method, params, asked_id, stored) refl
