-- ===== src/Policy.antt =====
-- The access policy (fog/policy/access_policy.py).
pub mod Stop
use blockchain_io_t_a.Prelude.{
  Bool, List, Option, [], false, mem, nat_eq, none, some, text_eq, true, ◌&&◌, ◌==◌, ◌∷◌,
}
use blockchain_io_t_a.Prelude.Dict.{Dict, lookup}
use blockchain_io_t_a.Prelude.Text.{Str, codes}

abbrev pub sensor : Str
sensor = codes "sensor"

abbrev pub monitor : Str
monitor = codes "monitor"

abbrev pub controller : Str
controller = codes "controller"

abbrev pub actuator : Str
actuator = codes "actuator"

abbrev readers : List Str
readers = sensor ∷ monitor ∷ controller ∷ []

abbrev measuring : Dict Str (List Str)
measuring =
    (codes "read", readers) ∷ (codes "write", sensor ∷ []) ∷ (codes "stop", controller ∷ []) ∷ []

abbrev acting : Dict Str (List Str)
acting =
    (codes "read", readers)
    ∷ (codes "write", actuator ∷ controller ∷ [])
    ∷ (codes "stop", actuator ∷ controller ∷ [])
    ∷ []

unfoldable pub policy_table : Dict Str (Dict Str (List Str))
policy_table =
    (codes "temperature_sensor", measuring)
    ∷ (codes "pressure_sensor", measuring)
    ∷ (codes "smart_meter", measuring)
    ∷ (
      codes "camera",
      (codes "read", readers)
          ∷ (codes "stream", monitor ∷ [])
          ∷ (codes "stop", controller ∷ [])
          ∷ [],
    )
    ∷ (codes "valve_controller", acting)
    ∷ (codes "motor_controller", acting)
    ∷ (
      codes "plc",
      (codes "read", readers)
          ∷ (codes "write", controller ∷ [])
          ∷ (codes "stop", controller ∷ [])
          ∷ [],
    )
    ∷ []

unfoldable pub roles_for_type : Dict Str (List Str)
roles_for_type =
    (codes "temperature_sensor", sensor ∷ [])
    ∷ (codes "pressure_sensor", sensor ∷ [])
    ∷ (codes "smart_meter", sensor ∷ [])
    ∷ (codes "camera", monitor ∷ sensor ∷ [])
    ∷ (codes "valve_controller", actuator ∷ [])
    ∷ (codes "motor_controller", actuator ∷ [])
    ∷ (codes "plc", controller ∷ [])
    ∷ []

abbrev pub provisional_operations : List Str
provisional_operations = codes "read" ∷ codes "write" ∷ []

unfoldable pub check_policy : Str → Str → Str → Bool
check_policy resource operation role = elim (lookup resource policy_table) [
  | none ↦ false
  | some ops ↦ elim (lookup operation ops) [
    | none ↦ false
    | some allowed_roles ↦ mem role allowed_roles
  ]
]

-- `bool(value)` of an optional text
abbrev pub is_text : Option Str → Bool
is_text none = false
is_text (some []) = false
is_text (some (c ∷ s)) = true

unfoldable pub role_valid_for_type : Option Str → Option Str → Bool
role_valid_for_type none role = false
role_valid_for_type (some device_type) none = false
role_valid_for_type (some device_type) (some role) =
    is_text (some device_type)
    && (is_text (some role)
        && elim (lookup device_type roles_for_type) [ none ↦ false | some roles ↦ mem role roles ])

unfoldable pub provisional_allowed : Str → Str → Str → Bool
provisional_allowed own_type resource operation =
    resource == own_type && mem operation provisional_operations
