-- ===== src/Orchestrator/Reload.antt =====
-- `reload_config`, on the proxies: a proxy is the number of a unit. The backends are handled
-- alike, with `add_unit` called with other arguments.
use silkjam.Prelude.{
  ℕ, suc, ◌≡◌, sym, true, false, not, ◌&&◌, ◌||◌, none, some, List, [], ◌∷◌, if◌then◌else◌, arith,
  ap, ◌∙◌, subst, inl, inr, Bool-cases,
}
use silkjam.Prelude.Dict.{lookup, store, remove, lookup-remove, lookup-remove_other}
use native.Mathlib.Decide.{ℕ_discrete}
use silkjam.Config.{ProxyListing, ServerListing, valid, Config, known}
use silkjam.Supervisor.{State, Supervisor}
use silkjam.Supervisor.Commands.{add_unit, remove_unit_nowait, is_some}

-- The units of the proxies and of the backends by name, and the number of the next unit.
pub record Orchestrator : Type 0 where
  pub supervisor : Supervisor
  pub proxies : List (ℕ × ℕ)
  pub backends : List (ℕ × ℕ)
  pub next_unit : ℕ

unfoldable pub start_proxies : Orchestrator → List (ℕ × ProxyListing) → Orchestrator
start_proxies o [] = o
start_proxies o ((name, l) ∷ ls) =
    let created = record o {
      supervisor = (add_unit o.supervisor o.next_unit true false).1;
      proxies = store name o.next_unit o.proxies;
      next_unit = suc o.next_unit;
    } in
    start_proxies
      (if known (lookup name o.proxies) || not (valid l) || not l.enabled then o else created) ls

-- The clean-up of the names that the listing no longer has; what `remove_unit_nowait` returns is
-- not looked at.
unfoldable pub remove_missing {ℓ} :
    {A : Type ℓ}
    → List (ℕ × A)
    → List (ℕ × ℕ)
    → Supervisor × List (ℕ × ℕ)
    → Supervisor × List (ℕ × ℕ)
remove_missing listing [] sp = sp
remove_missing listing ((name, unit) ∷ rest) (s, units) = remove_missing listing rest (
    if known (lookup name listing)
    then (s, units)
    else ((remove_unit_nowait s unit).1, remove name units))

abbrev pub clean_proxies : Orchestrator → Config → Orchestrator
clean_proxies o config =
    let (s, proxies) = remove_missing config.proxy_listing o.proxies (o.supervisor, o.proxies) in
    record o { supervisor = s; proxies = proxies }

unfoldable pub start_backends : Orchestrator → List (ℕ × ServerListing) → Orchestrator
start_backends o [] = o
start_backends o ((name, l) ∷ ls) =
    let created = record o {
      supervisor =
          (add_unit o.supervisor o.next_unit false (is_some l.sleep_timeout && l.version_known)).1;
      backends = store name o.next_unit o.backends;
      next_unit = suc o.next_unit;
    } in
    start_backends
      (if known (lookup name o.backends) || not l.server_valid || not l.enabled then o else created)
      ls

abbrev pub clean_backends : Orchestrator → Config → Orchestrator
clean_backends o config =
    let (s, backends) =
      remove_missing config.server_listing o.backends (o.supervisor, o.backends) in
    record o { supervisor = s; backends = backends }

unfoldable pub reload_config : Orchestrator → Config → Orchestrator
unfolding start_proxies start_backends remove_missing
reload_config o config =
    let o₁ = clean_proxies (start_proxies o config.proxy_listing) config in
    clean_backends (start_backends o₁ config.server_listing) config

-- `remove_unit_nowait` leaves a unit with a task.
remove-busy :
    (s : Supervisor) (unit other : ℕ) (state : State)
    → lookup unit s.units ≡ some state
    → is_some state.task ≡ true
    → lookup unit ((remove_unit_nowait s other).1).units ≡ some state
unfolding remove_unit_nowait
remove-busy s unit other state e busy = elim (ℕ_discrete unit other) [
  | yes same ↦ rw⁻¹ same (rw (remove_unit_nowait, e, busy) e)
  | no different ↦ ground (arith, e, lookup-remove_other unit other s.units different)
]

remove_missing-busy {ℓ} :
    {A : Type ℓ} (listing : List (ℕ × A)) (rest : List (ℕ × ℕ)) (s : Supervisor)
    (units : List (ℕ × ℕ)) (unit : ℕ) (state : State)
    → lookup unit s.units ≡ some state
    → is_some state.task ≡ true
    → lookup unit ((remove_missing listing rest (s, units)).0).units ≡ some state
unfolding remove_missing
remove_missing-busy listing [] s units unit state e busy = e
remove_missing-busy listing ((name, u) ∷ rest) s units unit state e busy =
    elim (Bool-cases (known (lookup name listing))) [
      | inl listed ↦
          rw (remove_missing, listed) (remove_missing-busy listing rest s units unit state e busy)
      | inr missing ↦
          rw (remove_missing, missing)
            (remove_missing-busy listing rest ((remove_unit_nowait s u).1) (remove name units) unit
              state (remove-busy s unit u state e busy) busy)
    ]

lookup-remove_absent :
    (k j : ℕ) (d : List (ℕ × ℕ)) → lookup k d ≡ none → lookup k (remove j d) ≡ none
lookup-remove_absent k j d e = elim (ℕ_discrete k j) [
  | yes same ↦ rw same (lookup-remove j d)
  | no other ↦ lookup-remove_other k j d other ∙ e
]

stays_missing {ℓ} :
    {A : Type ℓ} (listing : List (ℕ × A)) (rest : List (ℕ × ℕ)) (s : Supervisor)
    (units : List (ℕ × ℕ)) (name : ℕ)
    → lookup name units ≡ none
    → lookup name (remove_missing listing rest (s, units)).1 ≡ none
unfolding remove_missing
stays_missing listing [] s units name e = e
stays_missing listing ((n, u) ∷ rest) s units name e =
    elim (Bool-cases (known (lookup n listing))) [
      | inl listed ↦ rw (remove_missing, listed) (stays_missing listing rest s units name e)
      | inr missing ↦
          rw (remove_missing, missing)
            (stays_missing listing rest ((remove_unit_nowait s u).1) (remove n units) name
              (lookup-remove_absent name n units e))
    ]

becomes_missing {ℓ} :
    {A : Type ℓ} (listing : List (ℕ × A)) (rest : List (ℕ × ℕ)) (s : Supervisor)
    (units : List (ℕ × ℕ)) (name unit : ℕ)
    → lookup name rest ≡ some unit
    → lookup name listing ≡ none
    → lookup name (remove_missing listing rest (s, units)).1 ≡ none
unfolding remove_missing lookup
becomes_missing listing [] s units name unit e gone = absurd (ground arith)
becomes_missing listing ((n, u) ∷ rest) s units name unit e gone = elim (ℕ_discrete name n) [
  | yes same ↦
      let missing : known (lookup n listing) ≡ false =
        subst (λ k. known (lookup k listing) ≡ false) same (ap known gone) in
      rw (remove_missing, missing)
        (stays_missing listing rest ((remove_unit_nowait s u).1) (remove n units) name
          (subst (λ k. lookup k (remove n units) ≡ none) (sym same) (lookup-remove n units)))
  | no other ↦
      let found : lookup name rest ≡ some unit = ground (arith, e, other) in
      elim (Bool-cases (known (lookup n listing))) [
        | inl listed ↦
            rw (remove_missing, listed) (becomes_missing listing rest s units name unit found gone)
        | inr missing ↦
            rw (remove_missing, missing)
              (becomes_missing listing rest ((remove_unit_nowait s u).1) (remove n units) name unit
                found gone)
      ]
]

-- A proxy whose listing is gone and that has a task, so one that starts, runs or stops: after the
-- clean-up the orchestrator has no proxy of that name, but the supervisor still has its unit, as
-- it was.
pub clean_proxies-leaves :
    (o : Orchestrator) (config : Config) (name unit : ℕ) (state : State)
    → lookup name o.proxies ≡ some unit
    → lookup name config.proxy_listing ≡ none
    → lookup unit (o.supervisor).units ≡ some state
    → is_some state.task ≡ true
    → (lookup name (clean_proxies o config).proxies ≡ none)
      × (lookup unit ((clean_proxies o config).supervisor).units ≡ some state)
clean_proxies-leaves o config name unit state e gone k busy = (
  becomes_missing config.proxy_listing o.proxies o.supervisor o.proxies name unit e gone,
  remove_missing-busy config.proxy_listing o.proxies o.supervisor o.proxies unit state k busy,
)
