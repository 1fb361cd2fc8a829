-- ===== src/Sidecar.antt =====
-- The egress sidecar (services/claude-code-runner/sidecar.ts): which git and inference requests it
-- forwards with the credential. Paths and bodies are lists of codes; a line of a push is read byte
-- by byte, which is its text where it is ASCII.
pub mod Bytes
pub mod Policy
pub mod Reading
mod Tests
use Prim.Native.Char.{code}
use Prim.Native.String
use Prim.Native.Nat.{min}
use mathlib.Core.Option
use Bytes.{codes, same, starts, ends, trim, cut, parse_hex, subarray}
use creance.Prelude.Int.{ℤ, pos, negsuc, ◌+ℤ◌, ltb_ℤ}
use creance.Prelude.{
  ℕ, zero, suc, ◌+◌, ◌-◌, ◌*◌, ◌≤◌, ◌<◌, String, Bool, true, false, not, ◌&&◌, ◌||◌, Option, none,
  some, List, [], ◌∷◌, ◌++◌, ltb, leb, ◌==◌, if◌then◌else◌, length, take, drop, any, all,
}

pub record RefCommand : Type 0 where
  pub old_sha : List ℕ
  pub new_sha : List ℕ
  pub ref : List ℕ

-- What `parseReceivePackCommands` throws.
pub data PushError : Type 0 where
  bad_length bad_line out_of_fuel : PushError

pub data Push : Type 0 where
  commands : List RefCommand → Push
  unparseable : PushError → Push

-- `line.split(" ")`, of which the first three are read.
abbrev field_of : List ℕ × Option (List ℕ) → List ℕ
field_of (f, rest) = f

abbrev rest_of : List ℕ × Option (List ℕ) → List ℕ
rest_of (f, none) = []
rest_of (f, some rest) = rest

-- A missing or empty field is refused.
unfoldable pub parse_line : List ℕ → Option RefCommand
unfolding cut trim
parse_line raw =
    let line = trim (field_of (cut 0 raw)) in
    let old = field_of (cut 32 line) in
    let line₁ = rest_of (cut 32 line) in
    let new = field_of (cut 32 line₁) in
    let ref = field_of (cut 32 (rest_of (cut 32 line₁))) in
    if leb 1 (length old) && leb 1 (length new) && leb 1 (length ref)
    then some (record { old_sha = old; new_sha = new; ref = ref })
    else none

abbrev with_command : RefCommand → Push → Push
with_command c (commands cs) = commands (c ∷ cs)
with_command c (unparseable e) = unparseable e

-- The loop of `parseReceivePackCommands`; the offset may turn negative by a negative length.
unfoldable pub parse_from : ℕ → List ℕ → ℤ → Push
unfolding parse_hex parse_line subarray
parse_from zero body offset = unparseable out_of_fuel
parse_from (suc fuel) body offset = elim (ltb_ℤ (pos (length body)) (offset +ℤ pos 4)) [
  | true ↦ commands []
  | false ↦ elim (parse_hex (subarray body offset (offset +ℤ pos 4))) [
    | none ↦ unparseable bad_length
    | some (pos zero) ↦ commands []
    | some len ↦ elim (parse_line (subarray body (offset +ℤ pos 4) (offset +ℤ len))) [
      | none ↦ unparseable bad_line
      | some c ↦ with_command c (parse_from fuel body (offset +ℤ len))
    ]
  ]
]

-- `parseReceivePackCommands`; a round that goes on has read a line of five bytes or more, and the
-- place that it reads next in the body lies behind that line.
unfoldable pub parse_receive_pack_commands : List ℕ → Push
unfolding parse_from
parse_receive_pack_commands body = parse_from (suc (length body)) body (pos 0)

pub data Denial : Type 0 where
  no_commands : Denial
  outside : List ℕ → Denial
  deleting : List ℕ → Denial
  unreadable : PushError → Denial

-- `/^0+$/`
unfoldable pub is_zero_sha : List ℕ → Bool
is_zero_sha [] = false
is_zero_sha (c ∷ []) = c == 48
is_zero_sha (c ∷ s) = (c == 48) && is_zero_sha s

abbrev pub run_branches : List ℕ
run_branches = codes "refs/heads/run/"

deny_each : List RefCommand → Option Denial
unfolding starts is_zero_sha
deny_each [] = none
deny_each (c ∷ cs) =
    if not (starts run_branches c.ref)
    then some (outside c.ref)
    else if is_zero_sha c.new_sha
    then some (deleting c.ref)
    else deny_each cs

-- `denyReceivePack`
unfoldable pub deny_receive_pack : List RefCommand → Option Denial
unfolding deny_each
deny_receive_pack [] = some no_commands
deny_receive_pack (c ∷ cs) = deny_each (c ∷ cs)

abbrev pub deny_push : Push → Option Denial
deny_push (commands cs) = deny_receive_pack cs
deny_push (unparseable e) = some (unreadable e)

abbrev push_code : ℕ → List (List ℕ) → List (List ℕ)
push_code c [] = []
push_code c (seg ∷ segs) = if c == 47 then [] ∷ seg ∷ segs else (c ∷ seg) ∷ segs

-- The segments of a path between slashes.
segments : List ℕ → List (List ℕ)
segments [] = [] ∷ []
segments (c ∷ s) = push_code c (segments s)

-- The stem of a segment that ends in ".git", if it is not empty.
git_stem : List ℕ → Option (List ℕ)
unfolding same
git_stem [] = none
git_stem (c ∷ s) =
    let more = Option.map (λ stem. c ∷ stem) (git_stem s) in
    if same s (codes ".git") then some (c ∷ []) else more

repo_of : List ℕ → Option (List ℕ) → Option (List ℕ)
repo_of owner none = none
repo_of [] (some stem) = none
repo_of (c ∷ owner) (some stem) = some ((c ∷ owner) ++ 47 ∷ stem)

repo_of_segments : List (List ℕ) → Option (List ℕ)
unfolding repo_of git_stem
repo_of_segments ([] ∷ owner ∷ repo ∷ rest) = repo_of owner (git_stem repo)
repo_of_segments _ = none

-- `repoFromPath`: "/owner/name.git/…" gives "owner/name".
unfoldable pub repo_from_path : List ℕ → Option (List ℕ)
unfolding repo_of_segments segments
repo_from_path path = repo_of_segments (segments path)

-- `isAllowedAnthropicPath`
unfoldable pub is_allowed_anthropic_path : List ℕ → Bool
unfolding same starts
is_allowed_anthropic_path path = same path (codes "/") || starts (codes "/v1/") path

pub record GitRequest : Type 0 where
  pub is_post : Bool
  pub path : List ℕ
  pub gzip : Bool
  pub raw : List ℕ

-- A response with the status and what it says, or the request goes on with the credential.
pub data GitAnswer : Type 0 where
  refuse : ℕ → GitAnswer
  push_denied : Denial → GitAnswer
  forward : String → GitAnswer

-- `MAX_PUSH_BYTES`
abbrev max_push_bytes : ℕ
max_push_bytes = 104857600

abbrev after_denial : String → Option Denial → GitAnswer
after_denial auth none = forward auth
after_denial auth (some d) = push_denied d

-- The git leg of `fetch`, from `repoFromPath` on, with the run's repository, the credential and
-- the decompression of a body.
module _ (gunzip : List ℕ → List ℕ) (allowed : Option (List ℕ)) where
  police_push : String → GitRequest → GitAnswer
  unfolding parse_receive_pack_commands deny_receive_pack ends
  police_push auth req =
      if ltb max_push_bytes (length req.raw)
      then refuse 413
      else if ends (codes "/git-receive-pack") req.path
      then after_denial auth
          (deny_push (parse_receive_pack_commands (if req.gzip then gunzip req.raw else req.raw)))
      else forward auth

  is_allowed : List ℕ → Bool
  unfolding same
  is_allowed repo = elim allowed [ none ↦ false | some r ↦ same repo r ]

  with_auth : Option String → GitRequest → GitAnswer
  unfolding police_push
  with_auth none req = refuse 403
  with_auth (some auth) req = if req.is_post then police_push auth req else forward auth

  for_repo : Option String → GitRequest → Option (List ℕ) → GitAnswer
  unfolding with_auth is_allowed
  for_repo auth req none = refuse 404
  for_repo auth req (some repo) = if is_allowed repo then with_auth auth req else refuse 403

  pub git_leg : Option String → GitRequest → GitAnswer
  unfolding for_repo repo_from_path
  git_leg auth req = for_repo auth req (repo_from_path req.path)
