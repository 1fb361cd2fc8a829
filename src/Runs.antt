-- ===== src/Runs.antt =====
-- packages/core/src/runs.ts: a run and the in-memory store of runs; and the specs of agents that a
-- run may name (packages/core/src/agents.ts).
mod Tests
use Prim.Native.String
use mathlib.Core.Option
use creance.Prelude.{
  ℕ, String, Bool, true, false, not, ◌&&◌, Option, none, some, List, [], ◌∷◌, take, ◌≡◌, refl, inl,
  inr, str_eq, eq_iff, Bool-cases, if◌then◌else◌,
}
use creance.Prelude.Outcome.{Outcome, returned, thrown}
use creance.Prelude.Dict.{Dict, lookup, insert, values, lookup-insert}
use creance.Ports.{Message, TokenUsage}
use creance.Gate.{Principal}

-- `max_steps` is not in the type of the source, but is what the executor stores of such a run.
pub data RunStatus : Type 0 where
  queued running completed failed blocked stuck max_steps : RunStatus

-- A dispatch mode is its word.
pub record Run : Type 0 where
  pub id : String
  pub status : RunStatus
  pub task : String
  pub agent : Option String
  pub repo : Option String
  pub principal : Option Principal
  pub dispatch : Option String
  pub messages : List Message
  pub output : Option String
  pub error : Option String
  pub usage : Option TokenUsage
  pub cost_usd : Option ℕ
  pub created_at : String
  pub updated_at : String

-- A missing `kind` is a loop.
pub data AgentKind : Type 0 where
  loop sandboxed claude_code coder : AgentKind

pub record AgentSpec : Type 0 where
  pub name : String
  pub tenant : Option String
  pub description : Option String
  pub model : Option String
  pub system_prompt : Option String
  pub tools : Option (List String)
  pub max_steps : Option ℕ
  pub command : Option String
  pub kind : AgentKind

-- `InMemoryRunStore`
unfoldable pub create : Run → Dict Run → Dict Run
create run runs = insert run.id run runs

unfoldable pub get : String → Dict Run → Option Run
get id runs = lookup id runs

-- `{ ...run, ...patch, updatedAt }`, where a patch sets the fields that it names.
abbrev pub patched : (Run → Run) → String → Run → Run
patched patch now run = record (patch run) { updated_at = now }

unfoldable pub update_found :
    String → (Run → Run) → String → Dict Run → Option Run → Outcome String Run × Dict Run
update_found id patch now runs none = (thrown (String.◌++◌ "run not found: " id), runs)
update_found id patch now runs (some run) =
    let next = patched patch now run in (returned next, insert id next runs)

unfoldable pub update : String → (Run → Run) → String → Dict Run → Outcome String Run × Dict Run
unfolding update_found
update id patch now runs = update_found id patch now runs (lookup id runs)

abbrev same_status : RunStatus → RunStatus → Bool
same_status queued queued = true
same_status running running = true
same_status completed completed = true
same_status failed failed = true
same_status blocked blocked = true
same_status stuck stuck = true
same_status max_steps max_steps = true
same_status _ _ = false

with_status : RunStatus → List Run → List Run
with_status status [] = []
with_status status (r ∷ rs) =
    let rest = with_status status rs in if same_status r.status status then r ∷ rest else rest

unfoldable pub list_by_status : RunStatus → Dict Run → List Run
unfolding with_status values
list_by_status status runs = with_status status (values runs)

-- After an update, the run with its id, where there is one, is the old one with the patch and the new
-- time; every other id reads as before.
pub get-update :
    (id j : String) (patch : Run → Run) (now : String) (runs : Dict Run)
    → get j (update id patch now runs).1 ≡ (
        if str_eq id j
        then Option.map (λ run. record (patch run) { updated_at = now }) (get j runs)
        else get j runs)
unfolding get update update_found
get-update id j patch now runs = found (lookup id runs) refl
  where
    found :
        (o : Option Run)
        → lookup id runs ≡ o
        → get j (update_found id patch now runs o).1 ≡ (
            if str_eq id j
            then Option.map (λ run. record (patch run) { updated_at = now }) (get j runs)
            else get j runs)
    found none e = elim (Bool-cases (str_eq id j)) [
      | inl same ↦ let same_id : id ≡ j = (eq_iff id j).0 same in rw same (rw (← same_id) (rw e))
      | inr other ↦ rw other
    ]
    found (some run) e = elim (Bool-cases (str_eq id j)) [
      | inl same ↦
          let same_id : id ≡ j = (eq_iff id j).0 same in
          rw (lookup-insert, same) (rw (← same_id) (rw e))
      | inr other ↦ rw (lookup-insert, other)
    ]

pub get-create : (run : Run) (runs : Dict Run) → get run.id (create run runs) ≡ some run
unfolding get create
get-create run runs = rw (lookup-insert, (eq_iff run.id run.id).1 refl) refl

-- `list`: the latest first, where `not_after a b` is `a.localeCompare(b) <= 0`.
module _ (not_after : String → String → Bool) where
  sort_in : Run → List Run → List Run
  sort_in run [] = run ∷ []
  sort_in run (r ∷ rs) =
      let rest = sort_in run rs in
      if not_after r.created_at run.created_at then run ∷ r ∷ rs else r ∷ rest

  latest_first : List Run → List Run
  unfolding sort_in
  latest_first [] = []
  latest_first (r ∷ rs) = sort_in r (latest_first rs)

  unfoldable pub list : ℕ → Dict Run → List Run
  unfolding latest_first
  list limit runs = take limit (latest_first (values runs))
