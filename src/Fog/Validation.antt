-- ===== src/Fog/Validation.antt =====
-- Metadata validation (fog/registration/validation.py).
pub mod Names
use blockchain_io_t_a.Common.Schemas.{MetadataRequest}
use blockchain_io_t_a.Fog.Context.{
  MetadataError, bad_name, bad_role, bad_type, bad_vendor, bad_zone,
}
use blockchain_io_t_a.Policy.{actuator, controller, monitor, sensor}
use blockchain_io_t_a.Prelude.{
  Bool, List, [], all, false, if◌then◌else◌, leb, length, mem, nat_beq, nat_eq, text_eq, true, ℕ,
  ◌&&◌, ◌==◌, ◌||◌, ◌∷◌,
}
use blockchain_io_t_a.Prelude.Text.{Str, codes}

abbrev pub name_char : ℕ → Bool
name_char x = (leb b'a' x && leb x b'z') || ((leb b'0' x && leb x b'9') || nat_beq x b'_')

-- The text before one line feed at its end, which `$` in the pattern allows.
unfoldable pub chomp : Str → Str
chomp [] = []
chomp (x ∷ []) = if nat_beq x 10 then [] else x ∷ []
chomp (x ∷ y ∷ s) = x ∷ chomp (y ∷ s)

-- `^[a-z0-9_]{2,32}` up to the end of the text
unfoldable pub name_fits : Str → Bool
name_fits s = all name_char s && (leb 2 (length s) && leb (length s) 32)

-- `NAME_PATTERN.match(name)`, for the pattern `^[a-z0-9_]{2,32}$`
unfoldable pub name_matches : Str → Bool
unfolding chomp name_fits
name_matches s = name_fits (chomp s)

abbrev pub allowed_roles : List Str
allowed_roles = sensor ∷ actuator ∷ controller ∷ monitor ∷ []

abbrev pub allowed_vendors : List Str
allowed_vendors =
    codes "Acme" ∷ codes "Siemens" ∷ codes "Bosch" ∷ codes "ABB" ∷ codes "Honeywell" ∷ []

-- `if not test: errors.append(error)`
abbrev pub note : Bool → MetadataError → List MetadataError → List MetadataError
note true e rest = rest
note false e rest = e ∷ rest

unfoldable pub validate_metadata : MetadataRequest → Str → List Str → List MetadataError
validate_metadata meta zone allowed_types = note (name_matches meta.device_name) bad_name (
    note (mem meta.device_type allowed_types) bad_type (
      note (meta.zone == zone) bad_zone (
        note (mem meta.role allowed_roles) bad_role
          (note (mem meta.vendor allowed_vendors) bad_vendor []))))
