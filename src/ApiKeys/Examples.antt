-- ===== src/ApiKeys/Examples.antt =====
-- Requests with keys, against a variable that names two of them.
use pack_service.Base.{◌≡◌, ◌≢◌, refl, true, ◌⊎◌, inr, ◌↔◌, []}
use pack_service.Base.Dict.{lookup, put}
use pack_service.Text.{Text, codes, split, trim_space}
use pack_service.Startup.{parse_api_keys}
use pack_service.ApiKeys.{passes, unauthorized, api_key_auth, api_middleware}
use pack_service.Text.Parts.{behind_sep, at_end}
use pack_service.ApiKeys.Accepted.{Names, in_header, api_key_auth-mem}

api_key_auth-test :
    (api_key_auth (parse_api_keys (codes "k1, k2")) (codes "k2") [] ≡ passes)
    × (api_key_auth (parse_api_keys (codes "k1, k2")) [] (codes "k1") ≡ passes)
    × (api_key_auth (parse_api_keys (codes "k1, k2")) (codes "k3") (codes "k1")
        ≡ unauthorized "error.invalid_api_key")
    × (api_key_auth (parse_api_keys (codes "k1, k2")) [] [] ≡ unauthorized "error.api_key_required")
    × (api_middleware true true (parse_api_keys (codes "k1")) [] [] ≡ passes)
unfolding api_key_auth api_middleware parse_api_keys split trim_space lookup put
api_key_auth-test = (refl, refl, refl, refl, refl)

header_key : codes "k2" ≢ []
header_key = λ e. cc

api_key_auth-mem_example :
    (api_key_auth (parse_api_keys (codes "k1, k2")) (codes "k2") [] ≡ passes)
    ↔ (((k : Text) → ¬ Names (codes "k1, k2") k) ⊎ Names (codes "k1, k2") (codes "k2"))
api_key_auth-mem_example =
    api_key_auth-mem (codes "k1, k2") (codes "k2") [] (codes "k2") (in_header header_key)

-- The variable names the second key, behind a comma and a space, and so the request passes.
k2-Names : Names (codes "k1, k2") (codes "k2")
k2-Names = record {
  part = codes " k2";
  is_part = record {
    before = codes "k1,";
    after = [];
    whole = refl;
    lacks = (refl, (refl, (refl, tt)));
    start = behind_sep (codes "k1");
    end = at_end;
  };
  trimmed = record {
    before = codes " ";
    after = [];
    parts = refl;
    blank_before = (refl, tt);
    blank_after = tt;
    flush = refl;
    flush_end = refl;
  };
  some_key = header_key;
}

k2-passes : api_key_auth (parse_api_keys (codes "k1, k2")) (codes "k2") [] ≡ passes
k2-passes =
    (api_key_auth-mem (codes "k1, k2") (codes "k2") [] (codes "k2") (in_header header_key)).1
      (inr k2-Names)
