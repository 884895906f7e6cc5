-- ===== src/ApiKeys/Examples.antt =====
-- The theorems on API keys at a table of two keys.
use pcomirror.Prelude.{String, false, Option, none, some, List, [], ◌∷◌, ◌==◌, ◌≡◌, refl, strip}
use pcomirror.Text.{lower, size}
use pcomirror.ApiKeys.Keys.{
  Services, Key, authenticate, revoke, bearer_token, partition, public_half, cut, find_key,
  has_enabled, disable_all,
}
use pcomirror.ApiKeys.Access.{Among, IsKeyOf, authenticate-IsKeyOf, revoke-authenticate}

abbrev services : Services
services = record {
  hash = λ s. s;
  decode = λ s. some s;
  now = "2026-03-01T00:00:00Z";
  floor = λ s. "2026-02-28T23:59:00Z";
}

abbrev key : String → String → Key
key prefix secret = record {
  id = prefix;
  prefix = prefix;
  key_hash = secret;
  name = "a caller";
  scopes = "read:*";
  last_used_at = none;
  disabled_at = none;
}

abbrev table : List Key
table = key "01234567" "pcm_01234567_a" ∷ key "89abcdef" "pcm_89abcdef_b" ∷ []

abbrev credential : Option String
credential = some "Bearer pcm_89abcdef_b"

gets_in : (authenticate services credential table).1 ≡ some (key "89abcdef" "pcm_89abcdef_b")
unfolding authenticate bearer_token partition cut public_half find_key strip lower size
gets_in = refl

authenticate-IsKeyOf_example :
    Among (key "89abcdef" "pcm_89abcdef_b") table
    × IsKeyOf services credential (key "89abcdef" "pcm_89abcdef_b")
authenticate-IsKeyOf_example =
    authenticate-IsKeyOf services credential table (key "89abcdef" "pcm_89abcdef_b") gets_in

still_in :
    (authenticate services credential (revoke "2026-03-01T00:00:00Z" "01234567" table).0).1
    ≡ some (key "89abcdef" "pcm_89abcdef_b")
unfolding authenticate bearer_token partition cut public_half find_key strip lower size revoke
    has_enabled disable_all
still_in = refl

revoke-authenticate_example : ("89abcdef" == "01234567") ≡ false
revoke-authenticate_example =
    revoke-authenticate services "2026-03-01T00:00:00Z" "01234567" credential table
      (key "89abcdef" "pcm_89abcdef_b") still_in
