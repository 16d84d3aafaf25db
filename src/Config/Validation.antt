-- ===== src/Config/Validation.antt =====
-- What `validate_semantics` establishes.
use silkjam.Prelude.{
  ℕ, ◌≡◌, refl, ap, ◌∙◌, Bool, true, false, Option, none, some, List, [], ◌∷◌, ◌++◌, if◌then◌else◌,
  arith, inl, inr, Bool-cases, ==_refl,
}
use silkjam.Prelude.Sets.{mem, distinct}
use silkjam.Config.{
  Text, ListingError, port_taken, voice_port_taken, ProxyListing, valid, ServerListing, Config,
  or_more, voice_error, add_voice, subdomain_errors, check_listing, check_listings, clear_errors,
  validate_semantics,
}

-- The ports of the valid listings.
unfoldable pub valid_ports : List (ℕ × ProxyListing) → List ℕ
valid_ports [] = []
valid_ports ((name, listing) ∷ rest) =
    let ports = valid_ports rest in if valid listing then listing.port ∷ ports else ports

unfoldable pub valid_voice_ports : List (ℕ × ProxyListing) → List ℕ
valid_voice_ports [] = []
valid_voice_ports ((name, listing) ∷ rest) =
    let ports = valid_voice_ports rest in
    if valid listing then add_voice listing.voice_port ports else ports

-- A list of errors in two parts is empty where both parts are.
no_errors :
    (l : ProxyListing) (xs ys : List ListingError)
    → valid (record l { errors = xs ++ ys }) ≡ true
    → (xs ≡ []) × (valid (record l { errors = ys }) ≡ true)
no_errors l [] ys h = (refl, h)
no_errors l (x ∷ xs) ys h = absurd (ground arith)

or_more-none : (b : Bool) (e : ListingError) → or_more b e ≡ [] → b ≡ false
or_more-none true e h = absurd (ground arith)
or_more-none false e h = refl

voice_error-none : (port : ℕ) (vs : List ℕ) → voice_error (some port) vs ≡ [] → mem port vs ≡ false
voice_error-none port vs h = or_more-none (mem port vs) (voice_port_taken port) h

-- A voice port that is taken is not the one of a listing that passed.
voice_taken :
    (o : Option ℕ) (p : ℕ) (vs : List ℕ)
    → mem p vs ≡ true
    → voice_error o vs ≡ []
    → (mem p (add_voice o vs) ≡ true)
      × ((rest : List ℕ) → mem p rest ≡ false → mem p (add_voice o rest) ≡ false)
unfolding mem
voice_taken none p vs h e = (h, λ rest r. r)
voice_taken (some v) p vs h e =
    (ground (arith, h), λ rest r. ground (arith, voice_error-none v vs e, h, r))

voice_distinct :
    (o : Option ℕ) (vs rest : List ℕ)
    → ((v : ℕ) → mem v (add_voice o vs) ≡ true → mem v rest ≡ false)
    → distinct rest ≡ true
    → distinct (add_voice o rest) ≡ true
unfolding mem distinct
voice_distinct none vs rest h d = d
voice_distinct (some v) vs rest h d = ground (arith, h v, ==_refl v, d)

module _ (fullmatch : Text → Bool) (servers : List (ℕ × ServerListing)) where
  -- What a valid listing passed.
  valid-passed :
      (ps vs : List ℕ) (l : ProxyListing)
      → valid (check_listing fullmatch servers ps vs l) ≡ true
      → (mem l.port ps ≡ false)
        × (voice_error l.voice_port vs ≡ [])
        × (valid (record l { errors = subdomain_errors fullmatch servers l.subdomains }) ≡ true)
  unfolding check_listing
  valid-passed ps vs l h =
      let subdomains = subdomain_errors fullmatch servers l.subdomains in
      let voice = voice_error l.voice_port vs in
      let port = or_more (mem l.port ps) (port_taken l.port) in
      let (_, h₁) = no_errors l l.errors (port ++ (voice ++ subdomains)) h in
      let (free, h₂) = no_errors l port (voice ++ subdomains) h₁ in
      let (free_voice, h₃) = no_errors l voice subdomains h₂ in
      (or_more-none (mem l.port ps) (port_taken l.port) free, free_voice, h₃)

  -- A port that is taken is no port of a valid listing behind.
  taken-valid_ports :
      (p : ℕ) (ps vs : List ℕ) (ls : List (ℕ × ProxyListing))
      → mem p ps ≡ true
      → mem p (valid_ports (check_listings fullmatch servers ps vs ls)) ≡ false
  unfolding check_listings check_listing valid_ports mem
  taken-valid_ports p ps vs [] h = refl
  taken-valid_ports p ps vs ((name, l) ∷ ls) h =
      let checked = check_listing fullmatch servers ps vs l in
      elim (Bool-cases (valid checked)) [
        | inl ok ↦ rw ok (
            ground (
              arith,
              (valid-passed ps vs l ok).0,
              taken-valid_ports p (l.port ∷ ps) (add_voice l.voice_port vs) ls,
            ))
        | inr bad ↦ rw bad (taken-valid_ports p ps vs ls h)
      ]

  taken-valid_voice_ports :
      (p : ℕ) (ps vs : List ℕ) (ls : List (ℕ × ProxyListing))
      → mem p vs ≡ true
      → mem p (valid_voice_ports (check_listings fullmatch servers ps vs ls)) ≡ false
  unfolding check_listings check_listing valid_voice_ports mem
  taken-valid_voice_ports p ps vs [] h = refl
  taken-valid_voice_ports p ps vs ((name, l) ∷ ls) h =
      let checked = check_listing fullmatch servers ps vs l in
      elim (Bool-cases (valid checked)) [
        | inl ok ↦
            let vs' = add_voice l.voice_port vs in
            let (taken, rest) = voice_taken l.voice_port p vs h ((valid-passed ps vs l ok).1) in
            rw ok (rest _ (taken-valid_voice_ports p (l.port ∷ ps) vs' ls taken))
        | inr bad ↦ rw bad (taken-valid_voice_ports p ps vs ls h)
      ]

  distinct-valid_ports :
      (ps vs : List ℕ) (ls : List (ℕ × ProxyListing))
      → distinct (valid_ports (check_listings fullmatch servers ps vs ls)) ≡ true
  unfolding check_listings check_listing valid_ports distinct mem
  distinct-valid_ports ps vs [] = refl
  distinct-valid_ports ps vs ((name, l) ∷ ls) =
      let checked = check_listing fullmatch servers ps vs l in
      elim (Bool-cases (valid checked)) [
        | inl ok ↦
            let vs' = add_voice l.voice_port vs in
            rw ok (
              ground (
                arith,
                ==_refl l.port,
                taken-valid_ports l.port (l.port ∷ ps) vs' ls,
                distinct-valid_ports (l.port ∷ ps) vs' ls,
              ))
        | inr bad ↦ rw bad (distinct-valid_ports ps vs ls)
      ]

  distinct-valid_voice_ports :
      (ps vs : List ℕ) (ls : List (ℕ × ProxyListing))
      → distinct (valid_voice_ports (check_listings fullmatch servers ps vs ls)) ≡ true
  unfolding check_listings check_listing valid_voice_ports distinct
  distinct-valid_voice_ports ps vs [] = refl
  distinct-valid_voice_ports ps vs ((name, l) ∷ ls) =
      let checked = check_listing fullmatch servers ps vs l in
      elim (Bool-cases (valid checked)) [
        | inl ok ↦
            let vs' = add_voice l.voice_port vs in
            rw ok (
              voice_distinct l.voice_port vs _
                (λ v h. taken-valid_voice_ports v (l.port ∷ ps) vs' ls h)
                (distinct-valid_voice_ports (l.port ∷ ps) vs' ls))
        | inr bad ↦ rw bad (distinct-valid_voice_ports ps vs ls)
      ]

  clear_errors-check_listings :
      (ps vs : List ℕ) (ls : List (ℕ × ProxyListing))
      → clear_errors (check_listings fullmatch servers ps vs ls) ≡ clear_errors ls
  unfolding check_listings check_listing clear_errors
  clear_errors-check_listings ps vs [] = refl
  clear_errors-check_listings ps vs ((name, l) ∷ ls) =
      elim (Bool-cases (valid (check_listing fullmatch servers ps vs l))) [
        | inl ok ↦ rw ok (
            ap (λ rest. (name, record l { errors = [] }) ∷ rest)
              (clear_errors-check_listings (l.port ∷ ps) (add_voice l.voice_port vs) ls))
        | inr bad ↦ rw bad (
            ap (λ rest. (name, record l { errors = [] }) ∷ rest)
              (clear_errors-check_listings ps vs ls))
      ]

clear_errors_idem :
    (ls : List (ℕ × ProxyListing)) → clear_errors (clear_errors ls) ≡ clear_errors ls
unfolding clear_errors
clear_errors_idem [] = refl
clear_errors_idem ((name, l) ∷ ls) =
    ap (λ rest. (name, record l { errors = [] }) ∷ rest) (clear_errors_idem ls)

-- After the validation of a configuration, the valid listings have distinct ports and distinct
-- voice ports, and validating it once more changes nothing.
pub validate_semantics_lem :
    (fullmatch : Text → Bool) (config : Config)
    → (distinct (valid_ports ((validate_semantics fullmatch config).proxy_listing)) ≡ true)
      × (distinct (valid_voice_ports ((validate_semantics fullmatch config).proxy_listing)) ≡ true)
      × (validate_semantics fullmatch (validate_semantics fullmatch config)
          ≡ validate_semantics fullmatch config)
unfolding validate_semantics
validate_semantics_lem fullmatch config =
    let servers = config.server_listing in
    let ls = clear_errors config.proxy_listing in
    (
      distinct-valid_ports fullmatch servers [] [] ls,
      distinct-valid_voice_ports fullmatch servers [] [] ls,
      ap
          (λ (l : List (ℕ × ProxyListing)). record config {
            proxy_listing = check_listings fullmatch servers [] [] l;
          })
          (clear_errors-check_listings fullmatch servers [] [] ls
            ∙ clear_errors_idem config.proxy_listing),
    )
