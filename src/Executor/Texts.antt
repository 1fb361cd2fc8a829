-- ===== src/Executor/Texts.antt =====
-- The texts that the executor makes: the prompt with the tenant's memory, and `trim`
-- (services/agent-runtime/process-run.ts).
use Prim.Native.Char.{code}
use Prim.Native.String
use creance.Prelude.{
  ℕ, String, Bool, ◌&&◌, ◌||◌, Option, none, some, leb, ◌==◌, str_eq, if◌then◌else◌,
}

abbrev pub truthy : Option String → Option String
truthy none = none
truthy (some s) = if str_eq s "" then none else some s

abbrev pub memory_block : String → String
memory_block recalled =
    if str_eq recalled ""
    then "\n\n(Your durable memory is empty so far.)"
    else String.◌++◌ "\n\n## Your memory (durable, from past sessions):\n" recalled

abbrev pub text_or_empty : Option String → String
text_or_empty none = ""
text_or_empty (some s) = s

-- `withMemory`, with what is recalled where there is a memory.
unfoldable pub with_memory : Option String → Option String → Option String
with_memory base none = base
with_memory base (some recalled) = some (
    String.◌++◌ (text_or_empty base) (
      String.◌++◌ (memory_block recalled)
        "\n\nUse the `remember` tool to save durable facts, decisions, and preferences worth keeping for future sessions, and `memory_search` to look them up."))

-- The white space and the line ends of JavaScript.
abbrev pub is_space : ℕ → Bool
is_space c =
    (leb 9 c && leb c 13)
    || c == 32
    || c == 160
    || c == 5760
    || (leb 8192 c && leb c 8202)
    || c == 8232
    || c == 8233
    || c == 8239
    || c == 8287
    || c == 12288
    || c == 65279

unfoldable pub trim_start : String → String
trim_start String.[] = String.[]
trim_start (String.◌∷◌ c s) =
    let rest = trim_start s in if is_space (code c) then rest else String.◌∷◌ c s

unfoldable pub trim_end : String → String
trim_end String.[] = String.[]
trim_end (String.◌∷◌ c s) =
    let rest = trim_end s in
    if is_space (code c) && str_eq rest "" then String.[] else String.◌∷◌ c rest

-- `s.trim()`
unfoldable pub trim : String → String
unfolding trim_start trim_end
trim s = trim_end (trim_start s)
