-- ===== src/Cors/Examples.antt =====
-- The theorems on cross-origin access at a policy for the pages of one site.
use pcomirror.Prelude.{String, true, none, some, [], ◌∷◌, ◌≡◌, refl, ◌&&◌, strip}
use pcomirror.Result.{Holds}
use pcomirror.Text.{lower, starts_with, ends_with, drop_text, size, cut_scheme}
use pcomirror.Cors.Origin.{is_origin, normalise, matches}
use pcomirror.Cors.Policy.{
  Policy, supported_methods, default_headers, default_expose, is_enabled, any_origin, allows_origin,
}
use pcomirror.Cors.Build.{Settings, commas, absent, flag, build}
use pcomirror.Cors.Attach.{header, attach, Ask, preflight, diagnostic_header}
use pcomirror.Cors.Credentials.{allow_origin, IsConcrete, IsSafe, build-IsSafe, attach-IsConcrete}
use pcomirror.Cors.Diagnostic.{IsHarmless, preflight-IsHarmless}

abbrev policy : Policy
policy = record {
  origins = "https://*.example.org" ∷ [];
  methods = supported_methods;
  headers = default_headers;
  expose = default_expose;
  max_age = 600;
  allow_credentials = true;
}

abbrev page : String
page = "https://App.example.org"

page_allowed : (is_enabled policy && allows_origin policy (some page)) ≡ true
unfolding is_enabled allows_origin normalise lower strip is_origin starts_with drop_text any_origin
    matches cut_scheme ends_with size
page_allowed = refl

attach-IsConcrete_example :
    (header allow_origin (attach [] policy (some page)) ≡ some (normalise page))
    × IsConcrete (normalise page)
attach-IsConcrete_example = attach-IsConcrete policy [] page refl page_allowed

abbrev settings : Settings
settings = record {
  origins = commas "https://app.example.org, *";
  methods = absent;
  headers = absent;
  expose = absent;
  max_age = none;
  allow_credentials = flag true;
}

build-IsSafe_example : Holds IsSafe (build (λ s. none) settings)
build-IsSafe_example = build-IsSafe (λ s. none) settings

abbrev ask : Ask
ask = record {
  origin = some "https://evil.example.com";
  method = some "GET";
  headers = none;
  repr = λ s. s;
  show = λ n. "600";
}

preflight-IsHarmless_example : IsHarmless (header diagnostic_header (preflight policy ask).1)
preflight-IsHarmless_example = preflight-IsHarmless policy ask
