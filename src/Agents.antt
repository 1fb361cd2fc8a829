-- ===== src/Agents.antt =====
-- packages/core/src/agents.ts: the port of the registry of agents and the in-memory registry, over a
-- world `W` of everything else.
pub mod Spec
pub mod RoundTrip
mod Tests
use creance.Prelude.{String, false, Option, none, some, List, ◌≡◌, refl, str_eq, if◌then◌else◌}
use creance.Prelude.Dict.{Dict, lookup, insert, erase, values, lookup-insert, lookup-erase}
use creance.Prelude.Outcome.{Outcome, returned, thrown, Action, Ends}
use creance.Runs.{AgentSpec}

-- A registry without governed writes has no `put` and no `delete`.
pub record AgentRegistry (W : Type 0) : Type 0 where
  pub name : String
  pub get : String → Action String W (Option AgentSpec)
  pub list : Action String W (List AgentSpec)
  pub put : Option (AgentSpec → Action String W Unit)
  pub delete : Option (String → Action String W Unit)

-- What the code relies on: `entry name` is what the world holds under that name, and each operation
-- changes no other entry, also where it throws.
pub record IsRegistry (W : Type 0) (entry : String → W → Option AgentSpec) (r : AgentRegistry W)
    : Type 0 where
  pub get_entry :
      (name : String) (w : W)
      → Ends
          (λ found w'. (found ≡ entry name w) × ((n : String) → entry n w' ≡ entry n w))
          (λ e w'. (n : String) → entry n w' ≡ entry n w)
          (r.get name w)
  pub list_entry : (w : W) (n : String) → entry n (r.list w).1 ≡ entry n w
  pub put_entry :
      (put : AgentSpec → Action String W Unit)
      → r.put ≡ some put
      → (spec : AgentSpec) (w : W) (n : String) → (str_eq spec.name n ≡ false)
      → entry n (put spec w).1 ≡ entry n w
  pub delete_entry :
      (delete : String → Action String W Unit)
      → r.delete ≡ some delete
      → (name : String) (w : W) (n : String) → (str_eq name n ≡ false)
      → entry n (delete name w).1 ≡ entry n w

-- `InMemoryAgentRegistry`
module _ (V : Type 0) where
  abbrev pub World : Type 0
  World = V × Dict AgentSpec

  unfoldable pub get : String → Action String World (Option AgentSpec)
  get name (v, agents) = (returned (lookup name agents), (v, agents))

  unfoldable pub list : Action String World (List AgentSpec)
  list (v, agents) = (returned (values agents), (v, agents))

  unfoldable pub put : AgentSpec → Action String World Unit
  put spec (v, agents) = (returned tt, (v, insert spec.name spec agents))

  unfoldable pub delete : String → Action String World Unit
  delete name (v, agents) = (returned tt, (v, erase name agents))

  unfoldable pub memory_registry : AgentRegistry World
  unfolding get list put delete
  memory_registry = record {
    name = "memory";
    get = get;
    list = list;
    put = some put;
    delete = some delete;
  }

  abbrev pub entry : String → World → Option AgentSpec
  entry name (v, agents) = lookup name agents

-- The in-memory registry is one.
pub memory_registry-IsRegistry : (V : Type 0) → IsRegistry (World V) (entry V) (memory_registry V)
unfolding memory_registry put delete
memory_registry-IsRegistry V = record {
  get_entry = λ name (v, agents). (refl, λ n. refl);
  list_entry = λ (v, agents) n. refl;
  put_entry = λ f is_put spec (v, agents) n other.
      let same : put V ≡ f = cc in rw (← same, put) (rw (lookup-insert, other));
  delete_entry = λ f is_delete name (v, agents) n other.
      let same : delete V ≡ f = cc in rw (← same, delete) (rw (lookup-erase, other));
}
