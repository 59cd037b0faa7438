-- ===== src/Rot/State.antt =====
-- The state of User::RunningObjectTable and what it is given by the world outside.
use oocore.Prelude.{ℕ, ◌≡◌, refl, ◌⊎◌, inl, inr, Bool, Option, none, some, List, [], ◌∷◌, ◌++◌}
use oocore.Registry.Tables.{Text}
use oocore.Rot.Tables.{HandleTable, MultiTable}

-- Activation::RegisterFlags
abbrev pub public_scope : ℕ
public_scope = 7

abbrev pub external_public : ℕ
external_public = 15

abbrev pub single_use : ℕ
single_use = 0x100

abbrev pub multiple_registration : ℕ
multiple_registration = 0x200

-- RunningObjectTable::Info. An object is the number of its reference; 0 is no source, no cookie.
pub record Info : Type 0 where
  pub oid : Text
  pub object : ℕ
  pub source : ℕ
  pub flags : ℕ
  pub rot_cookie : ℕ

-- Remoting::MarshalFlags
pub data MarshalFlags : Type 0 where
  same compartment inter_process inter_user remote_machine : MarshalFlags

-- Remoting::ICallContext, where there is one
pub record CallContext : Type 0 where
  pub source_id : ℕ
  pub source_type : MarshalFlags

-- Exceptions: those that the code creates, an OMEGA_THROW, and what a call of another object throws
pub data Thrown : Type 0 where
  null_object invalid_flags already_exists missing_iid out_of_memory : Thrown
  thrown : ℕ → Thrown

pub data Outcome (A : Type 0) : Type 0 where
  returned : A → Outcome A
  threw : Thrown → Outcome A

pub Outcome-cases :
    {A : Type 0} (r : Outcome A) → ((a : A) × (r ≡ returned a)) ⊎ ((e : Thrown) × (r ≡ threw e))
Outcome-cases (returned a) = inl (a, refl)
Outcome-cases (threw e) = inr (e, refl)

-- Calls of other objects, in order
pub data Call : Type 0 where
  -- RegisterObject, RevokeObject and GetObject of the global table
  rot_registered : Text → ℕ → ℕ → Call
  rot_revoked : ℕ → Call
  rot_got : Text → ℕ → Call
  -- OnRegisterObject and OnRevokeObject of a listener
  told_register : ℕ → Text → ℕ → Call
  told_revoke : ℕ → Text → ℕ → Call

-- An answer may depend on all calls before.
pub record Env : Type 0 where
  -- Remoting::IsAlive
  pub alive : List Call → ℕ → Bool
  -- QueryInterface
  pub query : List Call → ℕ → ℕ → Outcome (Option ℕ)
  -- the global table; what its GetObject leaves in pObject
  pub rot_register : List Call → Text → ℕ → ℕ → Outcome ℕ
  pub rot_revoke : List Call → ℕ → Option Thrown
  pub rot_get : List Call → Text → ℕ → Outcome (Option ℕ)
  -- try_acquire of the lock
  pub try_lock : List Call → Bool
  -- OMEGA_GUIDOF(IObject) and OMEGA_GUIDOF(IRunningObjectTableNotify)
  pub object_iid : ℕ
  pub notify_iid : ℕ

-- `has_rot`: m_ptrROT is set.
pub record Rot (O : HandleTable Info) (M : MultiTable) (N : HandleTable ℕ) : Type 0 where
  pub has_rot : Bool
  pub objects : HandleTable.Carrier O
  pub by_oid : MultiTable.Carrier M
  pub notify : HandleTable.Carrier N
  pub log : List Call

module _ {O : HandleTable Info} {M : MultiTable} {N : HandleTable ℕ} where
  abbrev pub call : Call → Rot O M N → Rot O M N
  call c s = record s { log = s.log ++ c ∷ [] }

  -- init(): the table that the inter-process service has, if there is a service; none: there is not
  unfoldable pub init : Option Bool → Rot O M N → Rot O M N
  init none s = s
  init (some has_rot) s = record s { has_rot = has_rot }
