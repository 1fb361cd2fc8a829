-- ===== src/Authn/Tokens.antt =====
-- The static tokens of the environment (packages/core/src/adapters/static-token-authenticator.ts).
pub mod Listed
use creance.Prelude.{
  String, Bool, true, false, Option, none, some, List, [], ◌∷◌, ◌≡◌, ◌≢◌, ◌⊎◌, inl, inr, refl, sym,
  subst, ◌∙◌, All, Bool-cases, str_eq, eq_iff, arith, if◌then◌else◌, ap,
}
use text.Mathlib.Text.{◌==◌}
use creance.Prelude.Text.{split_on}
use creance.Prelude.Dict.{Dict, lookup, insert, lookup-insert}
use creance.Prelude.Outcome.{Outcome, returned, thrown, Action}
use creance.Executor.Texts.{truthy}
use creance.Gate.{Principal}
use creance.Dispatch.Env.{words, or_value}
use creance.Authn.{AuthError, rejected, AuthnContext, Authenticator}

subject_of : List String → String
subject_of [] = "unknown"
subject_of (subject ∷ more) = subject

entry_of : Option String → Option String → List String → Option (String × Principal)
unfolding subject_of
entry_of (some token) (some tenant) more = some (
  token,
  record { tenant = tenant; subject = subject_of more; groups = none; token = none; actors = none },
)
entry_of _ _ more = none

-- `const [token, tenant, subject] = parts`
entry_in : List String → Option (String × Principal)
unfolding entry_of
entry_in (token ∷ tenant ∷ more) = entry_of (truthy (some token)) (truthy (some tenant)) more
entry_in _ = none

unfoldable pub token_entry : String → Option (String × Principal)
unfolding entry_in split_on
token_entry entry = entry_in (split_on 58 entry)

unfoldable pub with_entry : Option (String × Principal) → Dict Principal → Dict Principal
unfolding insert
with_entry none known = known
with_entry (some (token, p)) known = insert token p known

unfoldable pub with_entries : List String → Dict Principal → Dict Principal
unfolding with_entry token_entry
with_entries [] known = known
with_entries (entry ∷ more) known = with_entries more (with_entry (token_entry entry) known)

unfoldable pub found_token : Option Principal → {W : Type 0} → Action AuthError W Principal
found_token (some p) w = (returned p, w)
found_token none w = (thrown (rejected "unauthorized"), w)

unfoldable pub principal_for : Dict Principal → Option String → Option Principal
unfolding lookup
principal_for known none = none
principal_for known (some token) = lookup token known

unfoldable pub static_tokens : {W : Type 0} → Option String → Authenticator W
unfolding with_entries words found_token principal_for
static_tokens spec = record {
  name = "static-token";
  authenticate = λ ctx w.
      found_token
        (principal_for (with_entries (words (or_value spec "")) []) (truthy ctx.credential)) w;
}

-- The last entry of a token, searched from the end.
later_or : Option Principal → Option Principal → Option Principal
later_or (some p) earlier = some p
later_or none earlier = earlier

of_token : String → Option (String × Principal) → Option Principal
of_token asked none = none
of_token asked (some (token, p)) = if token == asked then some p else none

pub last_entry : String → List String → Option Principal
unfolding later_or of_token
last_entry asked [] = none
last_entry asked (entry ∷ more) =
    later_or (last_entry asked more) (of_token asked (token_entry entry))

found-later_or :
    (b : Bool) (p : Principal) (earlier : Option Principal)
    → (if b then some p else earlier) ≡ later_or (if b then some p else none) earlier
unfolding later_or
found-later_or true p earlier = refl
found-later_or false p earlier = refl

lookup-with_entry :
    (asked : String) (entry : Option (String × Principal)) (known : Dict Principal)
    → lookup asked (with_entry entry known) ≡ later_or (of_token asked entry) (lookup asked known)
unfolding later_or of_token with_entry
lookup-with_entry asked none known = refl
lookup-with_entry asked (some (token, p)) known =
    lookup-insert token asked p known ∙ found-later_or (token == asked) p (lookup asked known)

later_or_assoc : (a b c : Option Principal) → later_or a (later_or b c) ≡ later_or (later_or a b) c
unfolding later_or
later_or_assoc none b c = refl
later_or_assoc (some p) b c = refl

lookup-with_entries :
    (asked : String) (entries : List String) (known : Dict Principal)
    → lookup asked (with_entries entries known)
      ≡ later_or (last_entry asked entries) (lookup asked known)
unfolding with_entries last_entry later_or
lookup-with_entries asked [] known = refl
lookup-with_entries asked (entry ∷ more) known =
    lookup-with_entries asked more (with_entry (token_entry entry) known)
    ∙ ap (later_or (last_entry asked more)) (lookup-with_entry asked (token_entry entry) known)
    ∙ later_or_assoc (last_entry asked more) (of_token asked (token_entry entry))
        (lookup asked known)

later_or-none : (a : Option Principal) → later_or a none ≡ a
unfolding later_or
later_or-none none = refl
later_or-none (some p) = refl

-- What the entries of the environment say of a credential.
pub named_by : List String → Option String → Option Principal
named_by entries none = none
named_by entries (some token) = last_entry token entries

principal_for-named_by :
    (entries : List String) (credential : Option String)
    → principal_for (with_entries entries []) credential ≡ named_by entries credential
unfolding principal_for named_by lookup
principal_for-named_by entries none = refl
principal_for-named_by entries (some token) =
    lookup-with_entries token entries [] ∙ later_or-none (last_entry token entries)
