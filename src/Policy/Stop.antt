-- ===== src/Policy/Stop.antt =====
-- Who may stop a device.
use blockchain_io_t_a.Policy.{actuator, check_policy, controller, policy_table, provisional_allowed}
use blockchain_io_t_a.Prelude.{
  Bool, Bool-cases, List, [], arith, false, inl, inr, mem, nat_eq, refl, text_beq_iff, text_eq,
  true, ◌&&◌, ◌==◌, ◌||◌, ◌↔◌, ◌∷◌, ◌≡◌, ◌⊎◌,
}
use blockchain_io_t_a.Prelude.Text.{Str, codes}

abbrev stop : Str
stop = codes "stop"

abbrev pub known_types : List Str
known_types =
    codes "temperature_sensor"
    ∷ codes "pressure_sensor"
    ∷ codes "smart_meter"
    ∷ codes "camera"
    ∷ codes "valve_controller"
    ∷ codes "motor_controller"
    ∷ codes "plc"
    ∷ []

-- A controller may stop whatever has a type, an actuator the valves and the motors.
abbrev pub MayStop : Str → Str → Type 0
MayStop resource role =
    ((role ≡ controller) × (mem resource known_types ≡ true))
    ⊎ ((role ≡ actuator)
        × ((resource ≡ codes "valve_controller") ⊎ (resource ≡ codes "motor_controller")))

may_stop : Str → Str → Bool
may_stop resource role =
    (role == controller && mem resource known_types)
    || (role == actuator
        && (resource == codes "valve_controller" || resource == codes "motor_controller"))

check_policy-may_stop :
    (resource role : Str) → check_policy resource stop role ≡ may_stop resource role
unfolding check_policy policy_table may_stop
check_policy-may_stop resource role = elim (Bool-cases (resource == codes "temperature_sensor")) [
  | inl same0 ↦ rw ((text_beq_iff resource (codes "temperature_sensor")).0 same0) (ground arith)
  | inr other0 ↦ elim (Bool-cases (resource == codes "pressure_sensor")) [
    | inl same1 ↦ rw ((text_beq_iff resource (codes "pressure_sensor")).0 same1) (ground arith)
    | inr other1 ↦ elim (Bool-cases (resource == codes "smart_meter")) [
      | inl same2 ↦ rw ((text_beq_iff resource (codes "smart_meter")).0 same2) (ground arith)
      | inr other2 ↦ elim (Bool-cases (resource == codes "camera")) [
        | inl same3 ↦ rw ((text_beq_iff resource (codes "camera")).0 same3) (ground arith)
        | inr other3 ↦ elim (Bool-cases (resource == codes "valve_controller")) [
          | inl same4 ↦
              rw ((text_beq_iff resource (codes "valve_controller")).0 same4) (ground arith)
          | inr other4 ↦ elim (Bool-cases (resource == codes "motor_controller")) [
            | inl same5 ↦
                rw ((text_beq_iff resource (codes "motor_controller")).0 same5) (ground arith)
            | inr other5 ↦ elim (Bool-cases (resource == codes "plc")) [
              | inl same6 ↦ rw ((text_beq_iff resource (codes "plc")).0 same6) (ground arith)
              | inr other6 ↦ ground arith
            ]
          ]
        ]
      ]
    ]
  ]
]

may_stop-MayStop : (resource role : Str) → (may_stop resource role ≡ true) ↔ MayStop resource role
unfolding may_stop
may_stop-MayStop resource role = (
  λ h. elim (Bool-cases (role == controller)) [
    | inl is_controller ↦ inl ((text_beq_iff role controller).0 is_controller, ground arith)
    | inr other ↦ inr (
      (text_beq_iff role actuator).0 (ground arith),
      elim (Bool-cases (resource == codes "valve_controller")) [
        | inl valve ↦ inl ((text_beq_iff resource (codes "valve_controller")).0 valve)
        | inr no_valve ↦ inr ((text_beq_iff resource (codes "motor_controller")).0 (ground arith))
      ],
    )
  ],
  λ may. elim may [
    | inl (is_controller, known) ↦ rw is_controller (ground arith)
    | inr (is_actuator, inl valve) ↦ rw (is_actuator, valve) refl
    | inr (is_actuator, inr motor) ↦ rw (is_actuator, motor) refl
  ],
)

-- A controller may stop a resource of any of the seven known types, an actuator a valve_controller
-- and a motor_controller, and nobody anything else; a token allows no stop, whatever the type of its
-- device.
pub check_policy-stop :
    (resource role : Str)
    → ((check_policy resource stop role ≡ true) ↔ MayStop resource role)
      × ((own_type : Str) → provisional_allowed own_type resource stop ≡ false)
unfolding provisional_allowed
check_policy-stop resource role = (
  rw (check_policy-may_stop resource role) (may_stop-MayStop resource role),
  λ own_type. ground arith,
)
