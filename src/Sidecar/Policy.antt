-- ===== src/Sidecar/Policy.antt =====
-- What the sidecar lets through.
use creance.Prelude.{
  ◌∙◌, ltb, ℕ, ◌≤◌, String, true, false, Option, none, some, List, [], ◌∷◌, ◌≡◌, ◌≢◌, ◌↔◌, refl,
  sym, ap, inl, inr, arith, All, Bool-cases, length, if◌then◌else◌,
}
use creance.Sidecar.Bytes.{codes, same, starts, ends}
use creance.Sidecar.{
  is_zero_sha, run_branches, RefCommand, Push, commands, unparseable, Denial, deny_each,
  deny_receive_pack, deny_push, parse_receive_pack_commands, GitRequest, forward, max_push_bytes,
  police_push, is_allowed, with_auth, for_repo, git_leg, repo_from_path, after_denial,
}

-- A command that creates or updates a branch of a run.
abbrev pub IsRunUpdate : RefCommand → Type 0
IsRunUpdate c = (starts run_branches c.ref ≡ true) × (is_zero_sha c.new_sha ≡ false)

deny_each_iff : (cs : List RefCommand) → (deny_each cs ≡ none) ↔ All IsRunUpdate cs
unfolding deny_each
deny_each_iff [] = ((λ e. tt), λ a. refl)
deny_each_iff (c ∷ cs) =
    ((λ e. ground (arith, (deny_each_iff cs).0)), λ a. ground (arith, (deny_each_iff cs).1))

-- The push policy passes a list of commands exactly when it is not empty and every command creates
-- or updates a branch under refs/heads/run/.
pub deny_receive_pack_iff :
    (cs : List RefCommand) → (deny_receive_pack cs ≡ none) ↔ ((cs ≢ []) × All IsRunUpdate cs)
unfolding deny_receive_pack
deny_receive_pack_iff [] = ((λ e. cc), λ h. absurd (h.0 refl))
deny_receive_pack_iff (c ∷ cs) =
    ((λ e. ((λ z. cc), (deny_each_iff (c ∷ cs)).0 e)), λ h. (deny_each_iff (c ∷ cs)).1 h.1)

same-eq : (s t : List ℕ) → same s t ≡ true → s ≡ t
unfolding same
same-eq [] [] e = refl
same-eq (a ∷ s) (b ∷ t) e = ground (arith, same-eq s t)
same-eq [] (b ∷ t) e = cc
same-eq (a ∷ s) [] e = cc

forward_injective : (a b : String) → forward a ≡ forward b → a ≡ b
forward_injective a b e = cc

after_denial-forward :
    (auth credential : String) (d : Option Denial)
    → after_denial auth d ≡ forward credential
    → (auth ≡ credential) × (d ≡ none)
after_denial-forward auth credential none e = (forward_injective auth credential e, refl)
after_denial-forward auth credential (some d) e = cc

-- A push that the policy passes holds commands, which all update branches of runs.
abbrev pub IsPoliced : Push → Type 0
IsPoliced p = (cs : List RefCommand) × (p ≡ commands cs) × (cs ≢ []) × All IsRunUpdate cs

deny_push-IsPoliced : (p : Push) → deny_push p ≡ none → IsPoliced p
deny_push-IsPoliced (commands cs) e =
    let (some_command, updates) = (deny_receive_pack_iff cs).0 e in
    (cs, refl, some_command, updates)
deny_push-IsPoliced (unparseable x) e = cc

is_allowed-eq :
    (gunzip : List ℕ → List ℕ) (allowed : Option (List ℕ)) (repo : List ℕ)
    → is_allowed gunzip allowed repo ≡ true
    → allowed ≡ some repo
unfolding is_allowed
is_allowed-eq gunzip none repo e = cc
is_allowed-eq gunzip (some r) repo e = ap some (sym (same-eq repo r e))

module _ (gunzip : List ℕ → List ℕ) (allowed : Option (List ℕ)) (req : GitRequest) where
  -- The body of a push as git reads it.
  abbrev pub plain : List ℕ
  plain = if req.gzip then gunzip req.raw else req.raw

  -- What the body of a request that goes on has met.
  abbrev pub IsSound : Type 0
  IsSound =
      (length req.raw ≤ max_push_bytes)
      × (ends (codes "/git-receive-pack") req.path ≡ true
          → IsPoliced (parse_receive_pack_commands plain))

  police_push-IsSound :
      (auth credential : String)
      → police_push gunzip allowed auth req ≡ forward credential
      → (auth ≡ credential) × IsSound
  unfolding police_push
  police_push-IsSound auth credential e = elim (Bool-cases (ltb max_push_bytes (length req.raw))) [
    | inl big ↦ ground arith
    | inr small ↦
        let bound : length req.raw ≤ max_push_bytes = ground arith in
        elim (Bool-cases (ends (codes "/git-receive-pack") req.path)) [
          | inl push ↦
              let passed : after_denial auth (deny_push (parse_receive_pack_commands plain))
                  ≡ forward credential =
                sym (rw (small, push)) ∙ e in
              let (same_auth, clean) = after_denial-forward auth credential _ passed in
              (same_auth, (bound, λ p. deny_push-IsPoliced _ clean))
          | inr other ↦ (
            forward_injective auth credential (sym (rw (small, other)) ∙ e),
            (bound, λ p. absurd (ground arith)),
          )
        ]
  ]

  with_auth-IsSound :
      (auth : Option String) (credential : String)
      → with_auth gunzip allowed auth req ≡ forward credential
      → (auth ≡ some credential) × (req.is_post ≡ true → IsSound)
  unfolding with_auth
  with_auth-IsSound none credential e = cc
  with_auth-IsSound (some auth) credential e = elim (Bool-cases req.is_post) [
    | inl post ↦
        let (same_auth, sound) = police_push-IsSound auth credential (sym (rw post) ∙ e) in
        (ap some same_auth, λ p. sound)
    | inr get ↦
        (ap some (forward_injective auth credential (sym (rw get) ∙ e)), λ p. absurd (ground arith))
  ]

  -- What a request that goes on has met.
  pub record IsBounded (auth : Option String) (credential : String) : Type 0 where
    pub held : auth ≡ some credential
    pub own_repo : (repo : List ℕ) × (repo_from_path req.path ≡ some repo) × (allowed ≡ some repo)
    pub sound : req.is_post ≡ true → IsSound

  for_repo-IsBounded :
      (auth : Option String) (credential : String) (found : Option (List ℕ))
      → repo_from_path req.path ≡ found
      → for_repo gunzip allowed auth req found ≡ forward credential
      → IsBounded auth credential
  unfolding for_repo
  for_repo-IsBounded auth credential none at e = cc
  for_repo-IsBounded auth credential (some repo) at e =
      elim (Bool-cases (is_allowed gunzip allowed repo)) [
        | inl own ↦
            let (held, sound) = with_auth-IsSound auth credential (sym (rw own) ∙ e) in
            record {
              held = held;
              own_repo = (repo, at, is_allowed-eq gunzip allowed repo own);
              sound = sound;
            }
        | inr foreign ↦ ground arith
      ]

  -- A git request is forwarded only with the sidecar's own credential, for the run's own repository
  -- and, where it is a POST, with a body in bounds, which on the receive-pack path parses to at least
  -- one command and only to commands that update branches of runs.
  pub git_leg-IsBounded :
      (auth : Option String) (credential : String)
      → git_leg gunzip allowed auth req ≡ forward credential
      → IsBounded auth credential
  unfolding git_leg
  git_leg-IsBounded auth credential e = for_repo-IsBounded auth credential _ refl e
