-- ===== src/Loop/Tools.antt =====
-- The tools that the loop finds by name.
use creance.Prelude.{
  String, Option, some, List, [], ◌∷◌, ◌≡◌, sym, subst, ◌∙◌, inl, inr, All, Bool-cases, str_eq,
}
use creance.Prelude.Dict.{Dict, lookup, insert, lookup-insert}
use creance.Loop.{AgentTool, Opts, by_name, find_tool}

module _ {W : Type 0} (P : AgentTool W → Type 0) where
  abbrev Each : Dict (AgentTool W) → Type 0
  Each m = (name : String) (t : AgentTool W) → lookup name m ≡ some t → P t

  insert-Each :
      (t : AgentTool W) (m : Dict (AgentTool W)) → P t → Each m → Each (insert t.spec.name t m)
  insert-Each t m p each name t' e = elim (Bool-cases (str_eq t.spec.name name)) [
    | inl same ↦
        subst P (some_injective t t' (sym (lookup-insert t.spec.name name t m ∙ rw same) ∙ e)) p
    | inr other ↦ each name t' (sym (lookup-insert t.spec.name name t m ∙ rw other) ∙ e)
  ]
    where
      some_injective :
          (a b : AgentTool W) → ◌≡◌ {A = Option (AgentTool W)} (some a) (some b) → a ≡ b
      some_injective a b e' = cc

  by_name-Each :
      {E : Type 0} (o : Opts E W) (ts : List (AgentTool W)) (m : Dict (AgentTool W))
      → All P ts
      → Each m
      → Each (by_name o ts m)
  unfolding by_name
  by_name-Each o [] m all each = each
  by_name-Each o (t ∷ ts) m all each =
      by_name-Each o ts (insert t.spec.name t m) all.1 (insert-Each t m all.0 each)

  pub find_tool-All :
      {E : Type 0} (o : Opts E W) (name : String) (t : AgentTool W)
      → All P o.tools
      → find_tool o name ≡ some t
      → P t
  unfolding find_tool lookup
  find_tool-All o name t all e = by_name-Each o o.tools [] all (λ name' t' e'. cc) name t e
