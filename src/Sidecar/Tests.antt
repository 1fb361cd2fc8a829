-- ===== src/Sidecar/Tests.antt =====
-- Requests through the sidecar.
use creance.Prelude.{
  ℕ, String, true, false, Option, none, some, List, [], ◌∷◌, ◌≡◌, ◌≢◌, ◌↔◌, refl, All,
}
use creance.Sidecar.Bytes.{
  codes, same, starts, ends, trim, trim_start, trim_end, all_space, cut, parse_hex, hex_value,
  hex_digits, hex_number, hex_prefixed, hex_signed, signed, subarray,
}
use creance.Sidecar.{
  RefCommand, commands, unparseable, out_of_fuel, parse_line, parse_from,
  parse_receive_pack_commands, is_zero_sha, deny_each, deny_receive_pack, segments, git_stem,
  repo_of, repo_of_segments, repo_from_path, GitRequest, push_denied, deleting, forward,
  police_push, is_allowed, with_auth, for_repo, git_leg,
}
use creance.Prelude.Int.{negsuc, ◌+ℤ◌}
use creance.Sidecar.Reading.{parse_receive_pack_commands-ne-out_of_fuel}
use creance.Sidecar.Policy.{IsRunUpdate, deny_receive_pack_iff, IsBounded, git_leg-IsBounded}

abbrev update : RefCommand
update = record { old_sha = codes "00"; new_sha = codes "b1"; ref = codes "refs/heads/run/7" }

abbrev push_of : String → GitRequest
push_of body = record {
  is_post = true;
  path = codes "/o/r.git/git-receive-pack";
  gzip = false;
  raw = codes body;
}

runs : Unit {0}
unfolding same starts ends trim trim_start trim_end all_space cut parse_hex hex_value hex_digits
    hex_number hex_prefixed hex_signed signed subarray parse_line parse_from
    parse_receive_pack_commands is_zero_sha deny_each deny_receive_pack segments git_stem repo_of
    repo_of_segments repo_from_path police_push is_allowed with_auth for_repo git_leg
runs = tt

parse_update :
    parse_receive_pack_commands (codes "001d00 b1 refs/heads/run/7\0x0000PACK")
    ≡ commands (update ∷ [])
unfolding runs ◌+ℤ◌
parse_update = refl

paths :
    (repo_from_path (codes "/o/r.git/info/refs") ≡ some (codes "o/r"))
    × (repo_from_path (codes "/o/r/info/refs") ≡ none)
    × (repo_from_path (codes "/o/.git") ≡ none)
unfolding runs ◌+ℤ◌
paths = (refl, refl, refl)

-- A length of minus three moves the reading place backwards.
negative_length : parse_hex (codes "-003") ≡ some (negsuc 2)
unfolding runs ◌+ℤ◌
negative_length = refl

abbrev auth : Option String
auth = some "Basic x"

abbrev own : Option (List ℕ)
own = some (codes "o/r")

passes :
    git_leg (λ b. b) own auth (push_of "001d00 b1 refs/heads/run/7\0x0000PACK") ≡ forward "Basic x"
unfolding runs ◌+ℤ◌
passes = refl

stops :
    git_leg (λ b. b) own auth (push_of "001a00 00 refs/heads/run/70000")
    ≡ push_denied (deleting (codes "refs/heads/run/7"))
unfolding runs ◌+ℤ◌
stops = refl

deny_receive_pack_iff_example :
    (deny_receive_pack (update ∷ []) ≡ none) ↔ ((update ∷ [] ≢ []) × All IsRunUpdate (update ∷ []))
deny_receive_pack_iff_example = deny_receive_pack_iff (update ∷ [])

git_leg-IsBounded_example :
    IsBounded (λ b. b) own (push_of "001d00 b1 refs/heads/run/7\0x0000PACK") auth "Basic x"
git_leg-IsBounded_example =
    git_leg-IsBounded (λ b. b) own (push_of "001d00 b1 refs/heads/run/7\0x0000PACK") auth "Basic x"
      passes

-- A body whose first line moves the reading place back.
parse_receive_pack_commands-ne-out_of_fuel_example :
    parse_receive_pack_commands (codes "-00300 b1 refs/heads/run/7") ≢ unparseable out_of_fuel
parse_receive_pack_commands-ne-out_of_fuel_example =
    parse_receive_pack_commands-ne-out_of_fuel (codes "-00300 b1 refs/heads/run/7")
