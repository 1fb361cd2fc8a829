-- ===== src/Authn/Tokens/Listed.antt =====
-- Whom a static token names (packages/core/src/adapters/static-token-authenticator.ts).
use creance.Prelude.{
  String, Option, none, some, List, [], ◌∷◌, ◌≡◌, ◌≢◌, ◌⊎◌, inl, inr, refl, sym, subst, ◌∙◌, All,
  Bool-cases, str_eq, eq_iff, arith, ap,
}
use text.Mathlib.Text.{◌==◌}
use creance.Prelude.Text.{split_on}
use creance.Prelude.Outcome.{Outcome, returned, thrown}
use creance.Executor.Texts.{truthy}
use creance.Gate.{Principal}
use creance.Dispatch.Env.{words, or_value}
use creance.Authn.{AuthError, rejected, AuthnContext}
use creance.Authn.Tokens.{
  subject_of, entry_of, entry_in, token_entry, found_token, static_tokens, later_or, of_token,
  last_entry, named_by, principal_for-named_by,
}

-- An entry with this token and a tenant, neither of them empty, names its caller: the third part where
-- there is one.
pub data IsSubject : List String → String → Type 0 where
  unnamed : IsSubject [] "unknown"
  third : {subject : String} {more : List String} → IsSubject (subject ∷ more) subject

pub record IsEntry (token entry : String) (p : Principal) : Type 0 where
  pub rest : List String
  pub parts : split_on 58 entry ≡ token ∷ p.tenant ∷ rest
  pub has_token : token ≢ ""
  pub has_tenant : p.tenant ≢ ""
  pub named : IsSubject rest p.subject
  pub bare : (p.groups ≡ none) × (p.token ≡ none) × (p.actors ≡ none)

abbrev pub IsNoEntry : String → String → Type 0
IsNoEntry token entry = (p : Principal) → ¬ IsEntry token entry p

-- The last entry of the token.
pub data IsLast (token : String) (p : Principal) : List String → Type 0 where
  here :
      {entry : String} {more : List String}
      → IsEntry token entry p
      → All (IsNoEntry token) more
      → IsLast token p (entry ∷ more)
  later :
      {entry : String} {more : List String} → IsLast token p more → IsLast token p (entry ∷ more)

Reads : String → String → Option Principal → Type 0
Reads token entry (some p) = IsEntry token entry p
Reads token entry none = IsNoEntry token entry

subject_of-IsSubject : (more : List String) → IsSubject more (subject_of more)
unfolding subject_of
subject_of-IsSubject [] = unnamed
subject_of-IsSubject (subject ∷ more) = third

head_of : String → List String → String
head_of other [] = other
head_of other (s ∷ more) = s

tail_of : List String → List String
tail_of [] = []
tail_of (s ∷ more) = more

entry_in-Reads :
    (token entry : String) (parts : List String)
    → split_on 58 entry ≡ parts
    → Reads token entry (of_token token (entry_in parts))
unfolding Reads of_token entry_in entry_of head_of tail_of
entry_in-Reads token entry [] e = λ p h. let clash = sym e ∙ h.parts in absurd cc
entry_in-Reads token entry (t ∷ []) e =
    λ p h. let clash : [] ≡ p.tenant ∷ h.rest = ap tail_of (sym e ∙ h.parts) in absurd cc
entry_in-Reads token entry (t ∷ tenant ∷ more) e = elim (Bool-cases (str_eq t "")) [
  | inl empty ↦ rw empty (λ p h.
      let same : t ≡ token = ap (head_of "") (sym e ∙ h.parts) in
      h.has_token (sym same ∙ (eq_iff t "").0 empty))
  | inr written ↦ elim (Bool-cases (str_eq tenant "")) [
    | inl empty ↦
        rw (written, empty)
          (λ p h.
            let same : tenant ≡ p.tenant = ap (λ x. head_of "" (tail_of x)) (sym e ∙ h.parts) in
            h.has_tenant (sym same ∙ (eq_iff tenant "").0 empty))
    | inr owned ↦ elim (Bool-cases (str_eq t token)) [
      | inl same ↦
          rw (written, owned, same)
            (record {
              rest = more;
              parts = e ∙ ap (λ x. x ∷ tenant ∷ more) ((eq_iff t token).0 same);
              has_token = λ none_left.
                  absurd (ground (arith, eq_iff t "", (eq_iff t token).0 same ∙ none_left));
              has_tenant = λ none_left. absurd (ground (arith, eq_iff tenant ""));
              named = subject_of-IsSubject more;
              bare = (refl, refl, refl);
            })
      | inr other ↦
          rw (written, owned, other)
            (λ p h.
              let same : t ≡ token = ap (head_of "") (sym e ∙ h.parts) in
              absurd (ground (arith, eq_iff t token)))
    ]
  ]
]

-- What the entries say of a token: the principal of the last one, or that there is none.
Finds : String → List String → Option Principal → Type 0
Finds token entries (some p) = IsLast token p entries
Finds token entries none = All (IsNoEntry token) entries

later_or-Finds :
    (token entry : String) (more : List String) (late early : Option Principal)
    → Finds token more late
    → Reads token entry early
    → Finds token (entry ∷ more) (later_or late early)
unfolding Finds Reads later_or
later_or-Finds token entry more (some p) early h k = later h
later_or-Finds token entry more none (some p) h k = here k h
later_or-Finds token entry more none none h k = (k, h)

last_entry-Finds :
    (token : String) (entries : List String) → Finds token entries (last_entry token entries)
unfolding Finds last_entry token_entry
last_entry-Finds token [] = tt
last_entry-Finds token (entry ∷ more) =
    later_or-Finds token entry more _ _ (last_entry-Finds token more)
      (entry_in-Reads token entry _ refl)

-- The answer to a credential.
unfoldable pub Answers :
    {W : Type 0} → List String → Option String → W → Outcome AuthError Principal × W → Type 0
Answers entries credential w (returned p, w') =
    (token : String) × (credential ≡ some token) × IsLast token p entries × (w' ≡ w)
Answers entries none w (thrown e, w') = (e ≡ rejected "unauthorized") × (w' ≡ w)
Answers entries (some token) w (thrown e, w') =
    (e ≡ rejected "unauthorized") × ((token ≡ "") ⊎ All (IsNoEntry token) entries) × (w' ≡ w)

found-Answers :
    {W : Type 0} (entries : List String) (token : String) (o : Option Principal) (w : W)
    → Finds token entries o
    → Answers entries (some token) w (found_token o w)
unfolding Answers Finds found_token
found-Answers entries token (some p) w h = (token, refl, h, refl)
found-Answers entries token none w h = (refl, inr h, refl)

principal-Answers :
    {W : Type 0} (entries : List String) (credential : Option String) (w : W)
    → Answers entries credential w (found_token (named_by entries (truthy credential)) w)
unfolding Answers named_by found_token
principal-Answers entries none w = (refl, refl)
principal-Answers entries (some token) w = elim (Bool-cases (str_eq token "")) [
  | inl empty ↦ rw empty (refl, inl ((eq_iff token "").0 empty), refl)
  | inr written ↦ rw written (found-Answers entries token _ w (last_entry-Finds token entries))
]

-- A credential is answered with the principal of the last entry of the environment that has it as its
-- token and has a tenant, neither of them empty; the principal has this tenant, and the entry's third
-- part as its subject, or "unknown". It is rejected where it is missing or empty, or there is no such
-- entry. The world is as it was.
pub static_tokens-Answers :
    {W : Type 0} (spec : Option String) (ctx : AuthnContext) (w : W)
    → Answers (words (or_value spec "")) ctx.credential w ((static_tokens spec).authenticate ctx w)
unfolding static_tokens
static_tokens-Answers spec ctx w =
    subst (Answers (words (or_value spec "")) ctx.credential w)
      (sym (
        ap (λ p. found_token p w)
          (principal_for-named_by (words (or_value spec "")) (truthy ctx.credential))))
      (principal-Answers (words (or_value spec "")) ctx.credential w)
