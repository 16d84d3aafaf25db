-- ===== src/Supervisor/BaseUnit.antt =====
-- `BaseUnit` of app/backend/supervisor/base_unit.py: when its hooks `_start` and `_stop` are called.
-- The flag is set before the hook, so what a hook raises changes nothing of it.
use silkjam.Prelude.{Bool, true, false, not, List, [], ◌∷◌, ◌++◌, if◌then◌else◌, arith, ◌≡◌, refl}

pub record BaseUnit : Type 0 where
  pub started : Bool

-- The calls that the class offers; `aexit` tells whether there was an exception.
pub data Call : Type 0 where
  start stop aenter : Call
  aexit : Bool → Call

-- The hooks, `_stop` with whether it is handed an exception.
pub data Hook : Type 0 where
  start_hook : Hook
  stop_hook : Bool → Hook

-- One call: the hooks it calls, and the unit after it.
unfoldable pub call : Call → BaseUnit → List Hook × BaseUnit
call start unit =
    if not unit.started then (start_hook ∷ [], record unit { started = true }) else ([], unit)
call stop unit =
    if unit.started then (stop_hook false ∷ [], record unit { started = false }) else ([], unit)
call aenter unit =
    if not unit.started then (start_hook ∷ [], record unit { started = true }) else ([], unit)
call (aexit exception) unit =
    if unit.started then (stop_hook exception ∷ [], record unit { started = false }) else ([], unit)

unfoldable pub calls : List Call → BaseUnit → List Hook × BaseUnit
unfolding call
calls [] unit = ([], unit)
calls (c ∷ cs) unit =
    let (hooks, unit') = call c unit in
    let (more, unit'') = calls cs unit' in (hooks ++ more, unit'')

-- The hooks come in turns, where the flag tells which one is due; it ends with the second flag.
abbrev pub Alternates : Bool → List Hook → Bool → Type 0
Alternates started [] final = started ≡ final
Alternates false (start_hook ∷ hooks) final = Alternates true hooks final
Alternates true (stop_hook exception ∷ hooks) final = Alternates false hooks final
Alternates true (start_hook ∷ hooks) final = ⊥
Alternates false (stop_hook exception ∷ hooks) final = ⊥

-- In whatever order a unit is started and stopped, entered and exited, its hooks are called in
-- turns, and the flag tells at the end whether the last one was `_start`.
pub calls-Alternates :
    (cs : List Call) (unit : BaseUnit)
    → Alternates unit.started ((calls cs unit).0) ((calls cs unit).1).started
unfolding calls call
calls-Alternates [] unit = refl
calls-Alternates (start ∷ cs) unit =
    ground (arith, calls-Alternates cs unit, calls-Alternates cs (record { started = true }))
calls-Alternates (stop ∷ cs) unit =
    ground (arith, calls-Alternates cs unit, calls-Alternates cs (record { started = false }))
calls-Alternates (aenter ∷ cs) unit =
    ground (arith, calls-Alternates cs unit, calls-Alternates cs (record { started = true }))
calls-Alternates (aexit exception ∷ cs) unit =
    ground (arith, calls-Alternates cs unit, calls-Alternates cs (record { started = false }))
