-- ===== src/Config.antt =====
-- `Config` of app/backend/models/config.py with `ProxyListing` of models/proxy_listing.py and the
-- fields of `ServerListing` of models/server_listing.py that the orchestrator reads. Names are
-- numbers, except subdomains, which are texts.
pub mod Validation
mod Examples
use silkjam.Prelude.{
  ℕ, ◌+◌, Bool, true, false, not, ◌&&◌, ◌||◌, Option, none, some, List, [], ◌∷◌, ◌++◌, map,
  if◌then◌else◌,
}
use silkjam.Prelude.Dict.{lookup}
use silkjam.Prelude.Sets.{mem}

abbrev pub Text : Type 0
Text = List ℕ

-- The messages in `errors`.
pub data ListingError : Type 0 where
  port_taken voice_port_taken : ℕ → ListingError
  invalid_subdomain : Text → ListingError
  missing_server : Text → ℕ → ListingError

pub record ProxyListing : Type 0 where
  pub port : ℕ
  pub voice_port : Option ℕ
  pub voice_ip_binding : Bool
  pub enabled : Bool
  pub subdomains : List (Text × ℕ)
  pub errors : List ListingError

abbrev pub valid : ProxyListing → Bool
valid listing = elim listing.errors [ [] ↦ true | e ∷ es ↦ false ]

-- Of a server: whether its version is known, its sleep timeout, and whether it is enabled and valid.
pub record ServerListing : Type 0 where
  pub version_known : Bool
  pub sleep_timeout : Option ℕ
  pub enabled : Bool
  pub server_valid : Bool

pub record Config : Type 0 where
  pub proxy_listing : List (ℕ × ProxyListing)
  pub server_listing : List (ℕ × ServerListing)

abbrev pub known {ℓ} : {A : Type ℓ} → Option A → Bool
known none = false
known (some a) = true

abbrev pub or_more {ℓ} : {A : Type ℓ} → Bool → A → List A
or_more true a = a ∷ []
or_more false a = []

abbrev pub mem_voice : Option ℕ → List ℕ → Bool
mem_voice none ports = false
mem_voice (some port) ports = mem port ports

abbrev pub voice_error : Option ℕ → List ℕ → List ListingError
voice_error none ports = []
voice_error (some port) ports = or_more (mem port ports) (voice_port_taken port)

abbrev pub add_voice : Option ℕ → List ℕ → List ℕ
add_voice none ports = ports
add_voice (some port) ports = port ∷ ports

abbrev pub is_empty : Text → Bool
is_empty [] = true
is_empty (c ∷ cs) = false

-- `fullmatch` is `SUBDOMAIN_REGEX.fullmatch` of Python's `re`.
module _ (fullmatch : Text → Bool) (servers : List (ℕ × ServerListing)) where
  unfoldable pub subdomain_errors : List (Text × ℕ) → List ListingError
  subdomain_errors [] = []
  subdomain_errors ((subdomain, server) ∷ rest) =
      or_more (not (is_empty subdomain) && not (fullmatch subdomain)) (invalid_subdomain subdomain)
      ++ (or_more (not (known (lookup server servers))) (missing_server subdomain server)
          ++ subdomain_errors rest)

  -- One listing, with the ports that the valid listings before it took.
  unfoldable pub check_listing : List ℕ → List ℕ → ProxyListing → ProxyListing
  unfolding subdomain_errors
  check_listing proxy_ports voice_ports listing = record listing {
    errors =
        listing.errors
        ++ (or_more (mem listing.port proxy_ports) (port_taken listing.port)
            ++ (voice_error listing.voice_port voice_ports ++ subdomain_errors listing.subdomains));
  }

  unfoldable pub check_listings :
      List ℕ → List ℕ → List (ℕ × ProxyListing) → List (ℕ × ProxyListing)
  unfolding check_listing
  check_listings proxy_ports voice_ports [] = []
  check_listings proxy_ports voice_ports ((name, listing) ∷ rest) =
      let checked = check_listing proxy_ports voice_ports listing in
      let taken =
        check_listings (checked.port ∷ proxy_ports) (add_voice checked.voice_port voice_ports)
          rest in
      let free = check_listings proxy_ports voice_ports rest in
      (name, checked) ∷ (if valid checked then taken else free)

unfoldable pub clear_errors : List (ℕ × ProxyListing) → List (ℕ × ProxyListing)
clear_errors [] = []
clear_errors ((name, listing) ∷ rest) = (name, record listing { errors = [] }) ∷ clear_errors rest

unfoldable pub validate_semantics : (Text → Bool) → Config → Config
unfolding check_listings clear_errors
validate_semantics fullmatch config = record config {
  proxy_listing =
      check_listings fullmatch config.server_listing [] [] (clear_errors config.proxy_listing);
}
