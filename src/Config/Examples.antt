-- ===== src/Config/Examples.antt =====
-- The theorem on the validation, at a configuration with a port that two listings want.
use silkjam.Prelude.{ℕ, ◌≡◌, refl, true, Bool, Option, none, some, [], ◌∷◌}
use silkjam.Prelude.Sets.{distinct, mem}
use silkjam.Prelude.Dict.{lookup}
use silkjam.Config.{Config, ProxyListing, Text, validate_semantics}
use silkjam.Config.Validation.{valid_ports, valid_voice_ports, validate_semantics_lem}

abbrev listing : ℕ → Option ℕ → ProxyListing
listing port voice_port = record {
  port = port;
  voice_port = voice_port;
  voice_ip_binding = true;
  enabled = true;
  subdomains = ([], 1) ∷ [];
  errors = [];
}

abbrev two_proxies : Config
two_proxies = record {
  proxy_listing =
      (1, listing 25565 (some 24454))
      ∷ (2, listing 25565 none)
      ∷ (3, listing 25566 (some 24454))
      ∷ [];
  server_listing =
      (
        1,
        record { version_known = true; sleep_timeout = none; enabled = true; server_valid = true },
      )
      ∷ [];
}

abbrev any_text : Text → Bool
any_text text = true

first_wins : valid_ports ((validate_semantics any_text two_proxies).proxy_listing) ≡ 25565 ∷ []
unfolding validate_semantics valid_ports mem lookup
first_wins = refl

validate_semantics_lem_example :
    (distinct (valid_ports ((validate_semantics any_text two_proxies).proxy_listing)) ≡ true)
    × (distinct (valid_voice_ports ((validate_semantics any_text two_proxies).proxy_listing))
        ≡ true)
    × (validate_semantics any_text (validate_semantics any_text two_proxies)
        ≡ validate_semantics any_text two_proxies)
validate_semantics_lem_example = validate_semantics_lem any_text two_proxies
