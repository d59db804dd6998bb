-- ===== src/Users/Models.antt =====
-- app/modules/users/models.py: roles, permissions and the stored account.
use voltaris_mobility_backen.Prelude.{
  ℕ, String, ◌≡◌, sym, ap, ◌∙◌, ◌↔◌, Eq, eqb, eqb_iff, string_eq, ◌==◌, Bool, true, Option, none,
  some, List, [], ◌∷◌, ◌++◌, arith, if◌then◌else◌,
}

pub data Role : Type 0 where
  buyer seller dealer sales_agent finance content_manager admin super_admin : Role

abbrev pub role_value : Role → String
role_value buyer = "BUYER"
role_value seller = "SELLER"
role_value dealer = "DEALER"
role_value sales_agent = "SALES_AGENT"
role_value finance = "FINANCE"
role_value content_manager = "CONTENT_MANAGER"
role_value admin = "ADMIN"
role_value super_admin = "SUPER_ADMIN"

-- `Role(raw)`; `none` is the `ValueError`.
unfoldable pub parse_role : String → Option Role
parse_role raw =
    if raw == "BUYER"
    then some buyer
    else if raw == "SELLER"
    then some seller
    else if raw == "DEALER"
    then some dealer
    else if raw == "SALES_AGENT"
    then some sales_agent
    else if raw == "FINANCE"
    then some finance
    else if raw == "CONTENT_MANAGER"
    then some content_manager
    else if raw == "ADMIN"
    then some admin
    else if raw == "SUPER_ADMIN"
    then some super_admin
    else none

pub data Permission : Type 0 where
  vehicle_read_internal vehicle_write vehicle_approve order_read_any : Permission
  payment_read_any payment_refund commission_read commission_write : Permission
  settlement_write user_manage role_assign audit_read : Permission
  system_inspect system_monitor config_write : Permission

abbrev permission_index : Permission → ℕ
permission_index vehicle_read_internal = 0
permission_index vehicle_write = 1
permission_index vehicle_approve = 2
permission_index order_read_any = 3
permission_index payment_read_any = 4
permission_index payment_refund = 5
permission_index commission_read = 6
permission_index commission_write = 7
permission_index settlement_write = 8
permission_index user_manage = 9
permission_index role_assign = 10
permission_index audit_read = 11
permission_index system_inspect = 12
permission_index system_monitor = 13
permission_index config_write = 14

abbrev permission_at : ℕ → Permission
permission_at n =
    if eqb n 0
    then vehicle_read_internal
    else if eqb n 1
    then vehicle_write
    else if eqb n 2
    then vehicle_approve
    else if eqb n 3
    then order_read_any
    else if eqb n 4
    then payment_read_any
    else if eqb n 5
    then payment_refund
    else if eqb n 6
    then commission_read
    else if eqb n 7
    then commission_write
    else if eqb n 8
    then settlement_write
    else if eqb n 9
    then user_manage
    else if eqb n 10
    then role_assign
    else if eqb n 11
    then audit_read
    else if eqb n 12
    then system_inspect
    else if eqb n 13
    then system_monitor
    else config_write

abbrev permission_beq : Permission → Permission → Bool
permission_beq a b = eqb (permission_index a) (permission_index b)

permission_at-index : (p : Permission) → permission_at (permission_index p) ≡ p
permission_at-index p = ground arith

pub permission_beq_iff : (a b : Permission) → (permission_beq a b ≡ true) ↔ (a ≡ b)
permission_beq_iff a b = (
  (λ h. sym (permission_at-index a) ∙ ap permission_at ((eqb_iff _ _).0 h) ∙ permission_at-index b),
  (λ h. (eqb_iff _ _).1 (ap permission_index h)),
)

instance abbrev pub permission_eq : Eq Permission
permission_eq = record { beq = permission_beq; beq_iff = permission_beq_iff }

unfoldable pub role_permissions : Role → List Permission
role_permissions buyer = []
role_permissions seller = []
role_permissions dealer = vehicle_write ∷ []
role_permissions sales_agent = vehicle_read_internal ∷ vehicle_write ∷ order_read_any ∷ []
role_permissions finance =
    order_read_any ∷ payment_read_any ∷ payment_refund ∷ commission_read ∷ commission_write
    ∷ settlement_write ∷ vehicle_read_internal ∷ audit_read ∷ []
role_permissions content_manager = []
role_permissions admin =
    vehicle_read_internal ∷ vehicle_write ∷ vehicle_approve ∷ order_read_any ∷ payment_read_any
    ∷ commission_read ∷ user_manage ∷ audit_read ∷ system_monitor ∷ []
role_permissions super_admin =
    vehicle_read_internal ∷ vehicle_write ∷ vehicle_approve ∷ order_read_any ∷ payment_read_any
    ∷ payment_refund ∷ commission_read ∷ commission_write ∷ settlement_write ∷ user_manage
    ∷ role_assign ∷ audit_read ∷ system_inspect ∷ system_monitor ∷ config_write ∷ []

-- `granted |= ROLE_PERMISSIONS[Role(raw)]`, where an unknown role is skipped.
abbrev pub granted_by : Option Role → List Permission
granted_by none = []
granted_by (some r) = role_permissions r

-- The frozenset of grants as a list, which is used by membership only.
unfoldable pub permissions_for : List String → List Permission
permissions_for [] = []
permissions_for (raw ∷ roles) = granted_by (parse_role raw) ++ permissions_for roles

pub data UserStatus : Type 0 where
  active pending_verification suspended deleted : UserStatus

pub record Identity : Type 0 where
  pub provider : String
  pub subject : String

-- A value of a document's field.
pub data FieldValue : Type 0 where
  null : FieldValue
  text : String → FieldValue
  flag : Bool → FieldValue
  texts : List String → FieldValue
  time : ℕ → FieldValue
  linked : List Identity → FieldValue

-- `other_fields` are the writes to fields that have no place in the record, or of a value of another
-- type than the record's, the last one first.
pub record User : Type 0 where
  pub id : String
  pub name : String
  pub email : String
  pub phone : Option String
  pub password_hash : Option String
  pub roles : List String
  pub status : UserStatus
  pub email_verified : Bool
  pub phone_verified : Bool
  pub mfa_enabled : Bool
  pub identities : List Identity
  pub preferred_language : Option String
  pub marketing_opt_in : Bool
  pub created_at : ℕ
  pub updated_at : ℕ
  pub deleted_at : Option ℕ
  pub other_fields : List (String × FieldValue)
